-- ===== src/Plugins/Unregister.antt =====
-- Unregistering keeps the invariant of the registry, and leaves nothing of the plugin in it.
use vaccel_google_test.Common.{
  ℕ, ◌≡◌, ap, ◌≢◌, ◌⊎◌, inl, inr, true, false, ◌&&◌, not, none, arith, has, remove, has-remove_self,
  has-remove-le, remove-Distinct,
}
use vaccel_google_test.Common.Code.{vaccel_ok, vaccel_einval}
use vaccel_google_test.Common.Memory.{Ptr, null}
use vaccel_google_test.Plugins.State.{PluginState, unlink_plugin, finish, unregister_plugin}
use vaccel_google_test.Plugins.Unlink.{
  unlink_ops-Kept, has-unlink_ops, unlink_ops-Distinct, has-unlink_ops_owner, unlink_ops_other,
  unlink_ops_info,
}
use vaccel_google_test.Plugins.Wellformed.{Wellformed}

module _ (p : Ptr) (s : PluginState) where
  pub has-unlink_plugin :
      (t : ℕ) (o : Ptr)
      → has o ((unlink_plugin p s).ops t) ≡ (has o (s.ops t) && not (has o (s.plugin p).ops))
  unfolding unlink_plugin
  has-unlink_plugin t o = has-unlink_ops p (s.plugin p).ops s t o

  has-unlink_plugin_owner : (o : Ptr) → has o ((unlink_plugin p s).plugin p).ops ≡ false
  unfolding unlink_plugin
  has-unlink_plugin_owner o = ground (arith, has-unlink_ops_owner p (s.plugin p).ops s o)

  unlink_plugin_other : (q : Ptr) → p ≢ q → (unlink_plugin p s).plugin q ≡ s.plugin q
  unfolding unlink_plugin
  unlink_plugin_other q ne = unlink_ops_other p (s.plugin p).ops s q ne

  unlink_plugin-op : (o : Ptr) → (unlink_plugin p s).op o ≡ s.op o
  unfolding unlink_plugin
  unlink_plugin-op o = ap (λ f. f o) (unlink_ops-Kept p (s.plugin p).ops s).op

  unlink_plugin-plugins : (unlink_plugin p s).plugins ≡ remove p s.plugins
  unfolding unlink_plugin
  unlink_plugin-plugins = ap (remove p) (unlink_ops-Kept p (s.plugin p).ops s).plugins

  pub unlink_plugin-Wellformed : Wellformed s → Wellformed (unlink_plugin p s)
  unlink_plugin-Wellformed w = record {
    plugins_once = rw unlink_plugin-plugins (remove-Distinct p s.plugins w.plugins_once);
    plugins_real = rw unlink_plugin-plugins (has-remove-le p null s.plugins w.plugins_real);
    ops_once =
        λ t. unfold unlink_plugin in (unlink_ops-Distinct p (s.plugin p).ops s t (w.ops_once t));
    typed = λ t o i.
        rw unlink_plugin-op
          (ground (arith, has-unlink_plugin t o, w.typed t o, unlink_plugin_other (s.op o).owner));
    owned = λ q o i. rw unlink_plugin-op (
        ground (
          arith,
          has-unlink_plugin (s.op o).type o,
          has-unlink_plugin_owner o,
          unlink_plugin_other q,
          w.owned q o,
          w.owned p o,
        ));
  }

  unlink_plugin_info : ((unlink_plugin p s).plugin p).info ≡ (s.plugin p).info
  unfolding unlink_plugin
  unlink_plugin_info = (unlink_ops_info p (s.plugin p).ops s).0

  -- A call changes nothing and fails, unlinks a plugin that has no info and fails, or unlinks a
  -- plugin and finishes it.
  pub unregister_plugin_cases :
      ((unregister_plugin p s).1 ≡ s)
        × ((p ≡ null) ⊎ (s.initialized ≡ false) ⊎ (has p s.plugins ≡ false))
      ⊎ (unregister_plugin p s ≡ (vaccel_einval, unlink_plugin p s))
        × (has p s.plugins ≡ true)
        × ((s.plugin p).info ≡ none)
      ⊎ (unregister_plugin p s ≡ (vaccel_ok, finish p (unlink_plugin p s)))
        × (has p s.plugins ≡ true)
  unfolding unregister_plugin
  unregister_plugin_cases = ground (arith, unlink_plugin_info)

  finish-Wellformed : Wellformed s → Wellformed (finish p s)
  unfolding finish
  finish-Wellformed w = record {
    plugins_once = w.plugins_once;
    plugins_real = w.plugins_real;
    ops_once = w.ops_once;
    typed = w.typed;
    owned = w.owned;
  }

module _ (p : Ptr) (s : PluginState) where
  -- `unregister_plugin` keeps the invariant of the registry, on every branch.
  pub unregister_plugin-Wellformed : Wellformed s → Wellformed (unregister_plugin p s).1
  unregister_plugin-Wellformed w = elim (unregister_plugin_cases p s) [
    | inl (same, _) ↦ rw same w
    | inr (inl (e, _, _)) ↦ rw e (unlink_plugin-Wellformed p s w)
    | inr (inr (e, _)) ↦
        rw e (finish-Wellformed p (unlink_plugin p s) (unlink_plugin-Wellformed p s w))
  ]

  -- In a well-formed and initialized registry, after unregistering a registered plugin none of
  -- its operations is in any table, and the plugin is in the list of plugins no more.
  pub unregister_plugin_gone :
      Wellformed s
      → s.initialized ≡ true
      → p ≢ null
      → has p s.plugins ≡ true
      → let s' = (unregister_plugin p s).1 in
        ((t : ℕ) (o : Ptr) → has o (s'.ops t) ≡ true → (s'.op o).owner ≢ p)
        × (has p s'.plugins ≡ false)
  unregister_plugin_gone w up ne reg = elim (unregister_plugin_cases p s) [
    | inl (same, why) ↦ absurd (ground (arith, why))
    | inr (inl (e, _, _)) ↦ rw e (gone, left)
    | inr (inr (e, _)) ↦ rw e (unfold finish in (gone, left))
  ]
    where
      gone :
          (t : ℕ) (o : Ptr)
          → has o ((unlink_plugin p s).ops t) ≡ true
          → ((unlink_plugin p s).op o).owner ≢ p
      gone t o i own =
          ground (arith, has-unlink_plugin p s t o, w.typed t o, unlink_plugin-op p s o)

      left : has p (unlink_plugin p s).plugins ≡ false
      left = rw (unlink_plugin-plugins p s) (has-remove_self p s.plugins)

  unlink_plugin-Kept :
      ((unlink_plugin p s).initialized ≡ s.initialized) × ((unlink_plugin p s).virtio ≡ s.virtio)
  unfolding unlink_plugin
  unlink_plugin-Kept = let k = unlink_ops-Kept p (s.plugin p).ops s in (k.initialized, k.virtio)

  -- What unregistering a registered plugin leaves alone, and that tables only lose operations.
  pub unregister_plugin_frame :
      Wellformed s
      → s.initialized ≡ true
      → p ≢ null
      → has p s.plugins ≡ true
      → let s' = (unregister_plugin p s).1 in
        (s'.initialized ≡ s.initialized)
        × (s'.plugins ≡ remove p s.plugins)
        × ((t : ℕ) (o : Ptr) → has o (s'.ops t) ≡ true → has o (s.ops t) ≡ true)
        × ((o : Ptr) → s'.op o ≡ s.op o)
        × (s'.virtio ≡ s.virtio)
  unregister_plugin_frame w up ne reg = elim (unregister_plugin_cases p s) [
    | inl (same, why) ↦ absurd (ground (arith, why))
    | inr (inl (e, _, _)) ↦ rw e frame
    | inr (inr (e, _)) ↦ rw e (unfold finish in frame)
  ]
    where
      frame :
          ((unlink_plugin p s).initialized ≡ s.initialized)
          × ((unlink_plugin p s).plugins ≡ remove p s.plugins)
          × ((t : ℕ) (o : Ptr) → has o ((unlink_plugin p s).ops t) ≡ true → has o (s.ops t) ≡ true)
          × ((o : Ptr) → (unlink_plugin p s).op o ≡ s.op o)
          × ((unlink_plugin p s).virtio ≡ s.virtio)
      frame = (
        unlink_plugin-Kept.0,
        unlink_plugin-plugins p s,
        λ t o i. ground (arith, has-unlink_plugin p s t o),
        unlink_plugin-op p s,
        unlink_plugin-Kept.1,
      )
