-- ===== src/Plugins/Lookup.antt =====
-- The choice of an implementation by `get_plugin_op`.
use Prim.Native.Nat.{bit_and}
use vaccel_google_test.Common.{
  ℕ, ◌≤◌, ◌≡◌, refl, sym, ap, subst, ◌∙◌, ==_iff, ◌≢◌, ◌⊎◌, inl, inr, Bool-cases, true, false,
  Option, none, some, List, [], ◌∷◌, ◌++◌, arith, ◌==◌, has, has-append,
}
use vaccel_google_test.Common.Memory.{Ptr, null, ok}
use vaccel_google_test.Plugins.State.{
  PluginInfo, PluginState, functions_nr, match_hint, choose_op, func_of, get_plugin_op,
}
use vaccel_google_test.Plugins.Wellformed.{Wellformed}

-- The plugin of an operation, where it has an info.
abbrev pub info_of : PluginState → Ptr → Option PluginInfo
info_of s o = (s.plugin (s.op o).owner).info

abbrev pub AllInfo : PluginState → List Ptr → Type 0
AllInfo s [] = Unit {0}
AllInfo s (o ∷ os) = ((i : PluginInfo) × (info_of s o ≡ some i)) × AllInfo s os

-- The hint and the plugin of `o` have a type bit in common.
abbrev pub Fits : (hint : ℕ) → PluginState → Ptr → Type 0
Fits hint s o = (i : PluginInfo) × (info_of s o ≡ some i) × (bit_and hint i.type ≢ 0)

-- None of the operations fits.
abbrev pub NoneFits : (hint : ℕ) → PluginState → List Ptr → Type 0
NoneFits hint s [] = Unit {0}
NoneFits hint s (o ∷ os) = ¬ Fits hint s o × NoneFits hint s os

-- What a search by hint finds: the first operation that fits, or nothing where none does.
pub data Found (hint : ℕ) (s : PluginState) (os : List Ptr) : Option Ptr → Type 0 where
  first_fit :
      (before after : List Ptr) (o : Ptr)
      → os ≡ before ++ o ∷ after
      → NoneFits hint s before
      → Fits hint s o
      → Found hint s os (some o)
  no_fit : NoneFits hint s os → Found hint s os none

Found-cons :
    {hint : ℕ} {s : PluginState} {os : List Ptr} {r : Option Ptr} (o : Ptr)
    → ¬ Fits hint s o
    → Found hint s os r
    → Found hint s (o ∷ os) r
Found-cons o miss (first_fit before after x e none_before fits) =
    first_fit (o ∷ before) after x (rw e) (miss, none_before) fits
Found-cons o miss (no_fit n) = no_fit (miss, n)

some_eq {ℓ} : {A : Type ℓ} {a b : A} → some a ≡ some b → a ≡ b
some_eq p = cc

Fits-info :
    (hint : ℕ) (s : PluginState) (o : Ptr) (i : PluginInfo)
    → info_of s o ≡ some i
    → Fits hint s o
    → bit_and hint i.type ≢ 0
Fits-info hint s o i known (j, e, n) zero_bits =
    n (ap (λ (x : PluginInfo). bit_and hint x.type) (some_eq (sym e ∙ known)) ∙ zero_bits)

match_hint-Found :
    (hint : ℕ) (s : PluginState) (os : List Ptr)
    → AllInfo s os
    → (r : Option Ptr) × (match_hint hint os s ≡ ok r) × Found hint s os r
unfolding match_hint
match_hint-Found hint s [] a = (none, refl, no_fit tt)
match_hint-Found hint s (o ∷ os) a =
    let (r, e, f) = match_hint-Found hint s os a.1 in
    let (i, known) = a.0 in
    elim (Bool-cases (bit_and hint i.type == 0)) [
      | inl zero_bits ↦ (
        r,
        rw (known, match_hint) (rw zero_bits e),
        Found-cons o (λ fit. Fits-info hint s o i known fit ((==_iff _ 0).0 zero_bits)) f,
      )
      | inr hit ↦ (
        some o,
        rw (known, match_hint) (rw hit refl),
        first_fit [] os o refl tt (i, known, λ z. ground (arith, hit, z)),
      )
    ]

-- The operation that `get_plugin_op` takes among those of a type: the first one without a hint,
-- the first one that fits the hint, or the first one if none fits.
pub data Chosen (hint : ℕ) (s : PluginState) (first : Ptr) (os : List Ptr) (o : Ptr) : Type 0 where
  unhinted : hint ≡ 0 → o ≡ first → Chosen hint s first os o
  hinted : hint ≢ 0 → Found hint s os (some o) → Chosen hint s first os o
  fallback : hint ≢ 0 → NoneFits hint s os → o ≡ first → Chosen hint s first os o

choose_op-Chosen :
    (hint : ℕ) (s : PluginState) (first : Ptr) (rest : List Ptr)
    → AllInfo s (first ∷ rest)
    → (o : Ptr) × (choose_op hint first (first ∷ rest) s ≡ ok o)
      × Chosen hint s first (first ∷ rest) o
unfolding choose_op
choose_op-Chosen hint s first rest a = elim (Bool-cases (hint == 0)) [
  | inl unset ↦ (first, rw unset refl, unhinted ((==_iff hint 0).0 unset) refl)
  | inr given ↦ searched given (match_hint-Found hint s (first ∷ rest) a)
]
  where
    searched :
        (hint == 0) ≡ false
        → ((r : Option Ptr) × (match_hint hint (first ∷ rest) s ≡ ok r)
            × Found hint s (first ∷ rest) r)
        → (o : Ptr) × (choose_op hint first (first ∷ rest) s ≡ ok o)
          × Chosen hint s first (first ∷ rest) o
    searched given (none, e, no_fit n) =
        (first, rw (given, e) refl, fallback (λ z. ground (arith, given, z)) n refl)
    searched given (some o, e, f) =
        (o, rw (given, e) refl, hinted (λ z. ground (arith, given, z)) f)

Chosen-has :
    {hint : ℕ} {s : PluginState} {first : Ptr} {rest : List Ptr} (o : Ptr)
    → Chosen hint s first (first ∷ rest) o
    → has o (first ∷ rest) ≡ true
Chosen-has o (unhinted z e) = ground (arith, e)
Chosen-has o (hinted n f) = Found-has o f
  where
    Found-has :
        {hint : ℕ} {s : PluginState} {os : List Ptr} (o : Ptr)
        → Found hint s os (some o)
        → has o os ≡ true
    Found-has o (first_fit before after _ e n f) =
        rw e (ground (arith, has-append o before (o ∷ after)))
Chosen-has o (fallback n none_fit e) = ground (arith, e)

AllInfo-has :
    (s : PluginState) (o : Ptr) (os : List Ptr)
    → AllInfo s os
    → has o os ≡ true
    → (i : PluginInfo) × (info_of s o ≡ some i)
AllInfo-has s o [] a h = ground arith
AllInfo-has s o (x ∷ os) a h = elim (Bool-cases (x == o)) [
  | inl same ↦ subst (λ x. (i : PluginInfo) × (info_of s x ≡ some i)) ((==_iff x o).0 same) a.0
  | inr other ↦ AllInfo-has s o os a.1 (ground arith)
]

-- In a well-formed registry, with an operation registered for the type and an info for every
-- plugin that has one, `get_plugin_op` runs and returns the function of an operation in the table
-- of the type, which has this type and is not NULL: the first operation if there is no hint or
-- none fits it, and the first that fits otherwise.
pub get_plugin_op-Chosen :
    (t hint : ℕ) (s : PluginState) (first : Ptr) (rest : List Ptr)
    → Wellformed s
    → s.ops t ≡ first ∷ rest
    → AllInfo s (first ∷ rest)
    → (o : Ptr) × (get_plugin_op t hint s ≡ ok (s.op o).func)
      × Chosen hint s first (first ∷ rest) o
      × (has o (s.ops t) ≡ true)
      × ((s.op o).type ≡ t)
      × ((s.op o).func ≢ null)
unfolding get_plugin_op func_of
get_plugin_op-Chosen t hint s first rest w e a =
    let (o, runs, c) = choose_op-Chosen hint s first rest a in
    let member : has o (s.ops t) ≡ true = rw e (Chosen-has o c) in
    let (typed, low, func, _) = w.typed t o member in
    let (i, known) = AllInfo-has s o (first ∷ rest) a (Chosen-has o c) in
    (o, ground (arith, e, runs, low, known), c, member, typed, func)

-- For an unknown type, and where no plugin implements the type, it returns NULL.
pub get_plugin_op-null :
    (t hint : ℕ) (s : PluginState)
    → (functions_nr ≤ t) ⊎ (s.ops t ≡ [])
    → get_plugin_op t hint s ≡ ok null
unfolding get_plugin_op
get_plugin_op-null t hint s (inl unknown) = ground arith
get_plugin_op-null t hint s (inr empty) = rw (empty, get_plugin_op) (ground arith)
