-- ===== src/Plugins/Register.antt =====
-- Registering the operations of a plugin, one after the other.
use vaccel_google_test.Common.{
  ℕ, ◌≡◌, refl, sym, subst, ==_iff, inl, inr, true, false, Option-cases, is_nil, List, Bool-cases,
  ◌∙◌, [], ◌∷◌, arith, ◌==◌, has, Distinct,
}
use vaccel_google_test.Common.Code.{Code, vaccel_ok}
use vaccel_google_test.Common.Memory.{Ptr, ok}
use vaccel_google_test.Plugins.State.{
  PluginState, add_plugin, register_plugin, add_op, register_plugin_function,
  register_plugin_functions,
}
use vaccel_google_test.Plugins.Wellformed.{
  Wellformed, register_plugin_function_cases, has-add_op, add_op-op, register_plugin_with,
  register_plugin_without, register_plugin_function-Wellformed,
}

apart : (o x : Ptr) (os : List Ptr) → has o os ≡ false → has x os ≡ true → (o == x) ≡ false
apart o x os absent member = elim (Bool-cases (o == x)) [
  | inr other ↦ other
  | inl same ↦
      let e : o ≡ x = (==_iff o x).0 same in
      let both : has o os ≡ true = subst (λ y. has y os ≡ true) (sym e) member in cc
]

nil_has : (o : Ptr) (xs : List Ptr) → is_nil xs ≡ true → has o xs ≡ false
nil_has o [] e = refl
nil_has o (x ∷ xs) e = cc

idle_lem :
    (p o : Ptr) (t : ℕ) (s : PluginState)
    → Wellformed s
    → is_nil (s.plugin p).ops ≡ true
    → (s.op o).owner ≡ p
    → has o (s.ops t) ≡ false
idle_lem p o t s w idle own = elim (Bool-cases (has o (s.ops t))) [
  | inr absent ↦ absent
  | inl member ↦
      let listed = subst (λ q. has o (s.plugin q).ops ≡ true) own (w.typed t o member).3 in
      let none_listed = nil_has o (s.plugin p).ops idle in cc
]

still_new :
    (o x : Ptr) (s : PluginState)
    → (o == x) ≡ false
    → has x (s.ops (s.op x).type) ≡ false
    → has x ((register_plugin_function o s).1.ops ((register_plugin_function o s).1.op x).type)
      ≡ false
still_new o x s other new = elim (register_plugin_function_cases o s) [
  | inl same ↦ rw same new
  | inr (added, _, _, _) ↦
      rw added rw (add_op-op o s x) (ground (arith, has-add_op o s (s.op x).type x))
]

register_plugin_function-op :
    (o : Ptr) (s : PluginState) → (register_plugin_function o s).1.op ≡ s.op
unfolding register_plugin_function add_op
register_plugin_function-op o s = ground arith

-- Registering different operations, none of which is in the table of its type, keeps the invariant
-- of the registry, wherever a failure ends the loop, and leaves the operations' memory as it is.
pub register_plugin_functions-Wellformed :
    (os : List Ptr) (s : PluginState)
    → Wellformed s
    → Distinct os
    → ((o : Ptr) → has o os ≡ true → has o (s.ops (s.op o).type) ≡ false)
    → Wellformed (register_plugin_functions os s).1 × ((register_plugin_functions os s).1.op ≡ s.op)
unfolding register_plugin_functions
register_plugin_functions-Wellformed [] s w d new = (w, refl)
register_plugin_functions-Wellformed (o ∷ os) s w d new =
    let s' = (register_plugin_function o s).1 in
    let w' = register_plugin_function-Wellformed o s w (new o ground arith) in
    let same = register_plugin_function-op o s in
    let (w'', same') =
      register_plugin_functions-Wellformed os s' w' d.1
        (λ x i. still_new o x s (apart o x os d.0 i) (new x ground arith)) in
    elim (Bool-cases ((register_plugin_function o s).0 == vaccel_ok)) [
      | inl good ↦ rw good (w'', same' ∙ same)
      | inr bad ↦ rw bad (w', same)
    ]

-- A plugin that was registered just now owns no operation of a table.
pub register_plugin-idle :
    (p : Ptr) (s s' : PluginState)
    → Wellformed s
    → register_plugin p s ≡ ok (vaccel_ok, s')
    → (s'.op ≡ s.op) × ((o : Ptr) (t : ℕ) → (s'.op o).owner ≡ p → has o (s'.ops t) ≡ false)
unfolding add_plugin
register_plugin-idle p s s' w e = elim (Option-cases (s.plugin p).info) [
  | inl missing ↦ absurd ((register_plugin_without p s vaccel_ok s' missing e).1 refl)
  | inr (info, known) ↦ elim (register_plugin_with p s vaccel_ok s' info known e) [
    | inl (_, bad) ↦ absurd (bad refl)
    | inr (added, _, _, _, _, idle, _, _, _) ↦
        rw added (refl, λ o t own. idle_lem p o t s w idle own)
  ]
]

-- Registering a plugin leaves the operations' memory as it is.
pub register_plugin-op :
    (p : Ptr) (s : PluginState) (c : Code) (s' : PluginState)
    → register_plugin p s ≡ ok (c, s')
    → s'.op ≡ s.op
unfolding add_plugin
register_plugin-op p s c s' e = elim (Option-cases (s.plugin p).info) [
  | inl missing ↦ rw (register_plugin_without p s c s' missing e).0 refl
  | inr (info, known) ↦ elim (register_plugin_with p s c s' info known e) [
    | inl (same, _) ↦ rw same refl
    | inr (added, _, _, _, _, _, _, _, _) ↦ rw added refl
  ]
]
