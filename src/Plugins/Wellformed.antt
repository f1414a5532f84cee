-- ===== src/Plugins/Wellformed.antt =====
-- The invariant of the plugin registry, and that every function of src/plugin.c keeps it.
use vaccel_google_test.Common.{
  ℕ, ◌<◌, ◌≡◌, refl, ◌≢◌, ◌⊎◌, inl, inr, true, false, ◌&&◌, ◌||◌, none, some, Option-cases, is_nil,
  [], ◌∷◌, arith, ◌==◌, has, has-append, Distinct, append-Distinct,
}
use vaccel_google_test.Common.Code.{Code, vaccel_ok}
use vaccel_google_test.Common.Memory.{Ptr, null, ok}
use vaccel_google_test.Plugins.State.{
  PluginInfo, PluginState, functions_nr, add_plugin, register_plugin, add_op,
  register_plugin_function,
}

-- Every operation in a table has the table's type and an implementation, and is in the list of its
-- plugin; every operation in a plugin's list belongs to that plugin and is in the table of its type.
pub record Wellformed (s : PluginState) : Type 0 where
  pub plugins_once : Distinct s.plugins
  pub plugins_real : has null s.plugins ≡ false
  pub ops_once : (t : ℕ) → Distinct (s.ops t)
  pub typed :
      (t : ℕ) (o : Ptr)
      → has o (s.ops t) ≡ true
      → ((s.op o).type ≡ t)
        × (t < functions_nr)
        × ((s.op o).func ≢ null)
        × (has o (s.plugin (s.op o).owner).ops ≡ true)
  pub owned :
      (p o : Ptr)
      → has o (s.plugin p).ops ≡ true
      → ((s.op o).owner ≡ p) × (has o (s.ops (s.op o).type) ≡ true)

add_plugin-Wellformed :
    (p : Ptr) (s : PluginState) (info : PluginInfo)
    → Wellformed s
    → has p s.plugins ≡ false
    → p ≢ null
    → Wellformed (add_plugin p info s)
unfolding add_plugin
add_plugin-Wellformed p s info w new ne = record {
  plugins_once = append-Distinct p s.plugins w.plugins_once new;
  plugins_real = ground (arith, has-append null s.plugins (p ∷ []), w.plugins_real);
  ops_once = w.ops_once;
  typed = w.typed;
  owned = w.owned;
}

module _ (p : Ptr) (s : PluginState) (c : Code) (s' : PluginState) where
  pub register_plugin_without :
      (s.plugin p).info ≡ none → register_plugin p s ≡ ok (c, s') → (s' ≡ s) × (c ≢ vaccel_ok)
  unfolding register_plugin
  register_plugin_without missing e = ground arith

  -- What a call says of the plugin, and what it does to the state: it fails and changes nothing, or
  -- it succeeds and adds a plugin that was not registered, has no operations yet and is complete.
  pub register_plugin_with :
      (info : PluginInfo)
      → (s.plugin p).info ≡ some info
      → register_plugin p s ≡ ok (c, s')
      → (s' ≡ s) × (c ≢ vaccel_ok)
        ⊎ (s' ≡ add_plugin p info s)
          × (c ≡ vaccel_ok)
          × (p ≢ null)
          × (s.initialized ≡ true)
          × (has p s.plugins ≡ false)
          × (is_nil (s.plugin p).ops ≡ true)
          × (info.name ≢ null)
          × (info.init ≢ null)
          × (info.fini ≢ null)
  unfolding register_plugin
  register_plugin_with info known e = ground arith

  -- `register_plugin` keeps the invariant of the registry, whatever the plugin, wherever it
  -- returns, and whether it succeeds or not.
  pub register_plugin-Wellformed : Wellformed s → register_plugin p s ≡ ok (c, s') → Wellformed s'
  register_plugin-Wellformed w e = elim (Option-cases (s.plugin p).info) [
    | inl missing ↦ rw (register_plugin_without missing e).0 w
    | inr (info, known) ↦ elim (register_plugin_with info known e) [
      | inl (same, _) ↦ rw same w
      | inr (added, _, ne, _, new, _, _, _, _) ↦ rw added (add_plugin-Wellformed p s info w new ne)
    ]
  ]

-- A call either changes nothing, or it adds the operation.
pub register_plugin_function_cases :
    (o : Ptr) (s : PluginState)
    → ((register_plugin_function o s).1 ≡ s)
      ⊎ ((register_plugin_function o s ≡ (vaccel_ok, add_op o s))
          × ((s.op o).type < functions_nr)
          × ((s.op o).func ≢ null)
          × ((s.op o).owner ≢ null))
unfolding register_plugin_function
register_plugin_function_cases o s = ground arith

module _ (o : Ptr) (s : PluginState) where
  pub has-add_op :
      (t : ℕ) (x : Ptr)
      → has x ((add_op o s).ops t) ≡ (has x (s.ops t) || (((s.op o).type == t) && (o == x)))
  unfolding add_op
  has-add_op t x = ground (arith, has-append x (s.ops t) (o ∷ []))

  pub add_op-op : (x : Ptr) → (add_op o s).op x ≡ s.op x
  unfolding add_op
  add_op-op x = refl

  has-add_op_owner :
      (p x : Ptr)
      → has x ((add_op o s).plugin p).ops
        ≡ (has x (s.plugin p).ops || (((s.op o).owner == p) && (o == x)))
  unfolding add_op
  has-add_op_owner p x = ground (arith, has-append x (s.plugin p).ops (o ∷ []))

  add_op-ops_once :
      (t : ℕ)
      → Distinct (s.ops t)
      → has o (s.ops (s.op o).type) ≡ false
      → Distinct ((add_op o s).ops t)
  unfolding add_op
  add_op-ops_once t d new = ground (arith, append-Distinct o (s.ops (s.op o).type))

  add_op-Wellformed :
      Wellformed s
      → has o (s.ops (s.op o).type) ≡ false
      → (s.op o).type < functions_nr
      → (s.op o).func ≢ null
      → Wellformed (add_op o s)
  add_op-Wellformed w new low func = record {
    plugins_once = unfold add_op in w.plugins_once;
    plugins_real = unfold add_op in w.plugins_real;
    ops_once = λ t. add_op-ops_once t (w.ops_once t) new;
    typed = λ t x i.
        rw add_op-op
          (ground (arith, has-add_op t x, has-add_op_owner (s.op x).owner x, w.typed t x));
    owned = λ p x i.
        rw add_op-op
          (ground (arith, has-add_op_owner p x, has-add_op (s.op x).type x, w.owned p x));
  }

  -- `register_plugin_function` keeps the invariant of the registry for an operation that is not
  -- yet in the table of its type, whether it succeeds or not.
  pub register_plugin_function-Wellformed :
      Wellformed s
      → has o (s.ops (s.op o).type) ≡ false
      → Wellformed (register_plugin_function o s).1
  unfolding register_plugin_function
  register_plugin_function-Wellformed w new = elim (register_plugin_function_cases o s) [
    | inl same ↦ rw same w
    | inr (added, low, func, owner) ↦ rw added (add_op-Wellformed w new low func)
  ]
