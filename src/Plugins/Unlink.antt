-- ===== src/Plugins/Unlink.antt =====
-- What the loop of `unregister_plugin` over the operations of a plugin does.
use vaccel_google_test.Common.{
  ℕ, ◌≡◌, refl, ◌≢◌, ◌&&◌, not, List, [], ◌∷◌, arith, has, has-remove, Distinct, remove-Distinct,
}
use vaccel_google_test.Common.Memory.{Ptr}
use vaccel_google_test.Plugins.State.{PluginState, unlink_op, unlink_ops}

-- The loop leaves all but the two kinds of list alone.
pub record Kept (s g : PluginState) : Type 0 where
  pub initialized : g.initialized ≡ s.initialized
  pub plugins : g.plugins ≡ s.plugins
  pub virtio : g.virtio ≡ s.virtio
  pub op : g.op ≡ s.op
  pub calls : g.calls ≡ s.calls

module _ (p : Ptr) where
  pub unlink_ops-Kept : (os : List Ptr) (s : PluginState) → Kept s (unlink_ops p os s)
  unfolding unlink_ops
  unlink_ops-Kept [] s = record {
    initialized = refl;
    plugins = refl;
    virtio = refl;
    op = refl;
    calls = refl;
  }
  unlink_ops-Kept (o ∷ os) s =
      let k = unlink_ops-Kept os (unlink_op p o s) in
      record {
        initialized = k.initialized;
        plugins = k.plugins;
        virtio = k.virtio;
        op = k.op;
        calls = k.calls;
      }

  pub has-unlink_ops :
      (os : List Ptr) (s : PluginState) (t : ℕ) (o : Ptr)
      → has o ((unlink_ops p os s).ops t) ≡ (has o (s.ops t) && not (has o os))
  unfolding unlink_ops
  has-unlink_ops [] s t o = ground arith
  has-unlink_ops (x ∷ os) s t o =
      ground (arith, has-unlink_ops os (unlink_op p x s) t o, has-remove x o (s.ops t))

  pub unlink_ops-Distinct :
      (os : List Ptr) (s : PluginState) (t : ℕ)
      → Distinct (s.ops t)
      → Distinct ((unlink_ops p os s).ops t)
  unfolding unlink_ops
  unlink_ops-Distinct [] s t d = d
  unlink_ops-Distinct (x ∷ os) s t d =
      unlink_ops-Distinct os (unlink_op p x s) t (remove-Distinct x (s.ops t) d)

  pub has-unlink_ops_owner :
      (os : List Ptr) (s : PluginState) (o : Ptr)
      → has o ((unlink_ops p os s).plugin p).ops ≡ (has o (s.plugin p).ops && not (has o os))
  unfolding unlink_ops
  has-unlink_ops_owner [] s o = ground arith
  has-unlink_ops_owner (x ∷ os) s o =
      ground (arith, has-unlink_ops_owner os (unlink_op p x s) o, has-remove x o (s.plugin p).ops)

  pub unlink_ops_other :
      (os : List Ptr) (s : PluginState) (q : Ptr)
      → p ≢ q
      → (unlink_ops p os s).plugin q ≡ s.plugin q
  unfolding unlink_ops
  unlink_ops_other [] s q ne = refl
  unlink_ops_other (x ∷ os) s q ne = ground (arith, unlink_ops_other os (unlink_op p x s) q ne)

  pub unlink_ops_info :
      (os : List Ptr) (s : PluginState)
      → (((unlink_ops p os s).plugin p).info ≡ (s.plugin p).info)
        × (((unlink_ops p os s).plugin p).dl_handle ≡ (s.plugin p).dl_handle)
  unfolding unlink_ops
  unlink_ops_info [] s = (refl, refl)
  unlink_ops_info (x ∷ os) s = ground (arith, unlink_ops_info os (unlink_op p x s))
