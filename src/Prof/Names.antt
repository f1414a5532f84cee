-- ===== src/Prof/Names.antt =====
-- Looking regions up by their names, and the array of regions.
use vaccel_google_test.Common.{
  ℕ, suc, ◌+◌, ◌≡◌, ◌≢◌, refl, ap, sym, subst, ◌∙◌, ◌⊎◌, inl, inr, Bool, true, false, ◌&&◌, Option,
  none, some, List, [], ◌∷◌, arith, ◌==◌, if◌then◌else◌, length-replicate,
}
use vaccel_google_test.Common.Code.{Code, vaccel_ok, vaccel_enomem}
use vaccel_google_test.Common.Memory.{ok}
use vaccel_google_test.Prof.State.{
  Sample, Region, Env, Name, no_name, text, freed, init_region, grow_samples_array, min_samples,
}
use vaccel_google_test.Prof.Regions.{
  same_text, is_named, search_name, prof_regions_get_by_name, clear_region, init_cleared,
  init_regions, vaccel_prof_regions_init,
}
use vaccel_google_test.Prof.Samples.{IsRegion}

abbrev is_readable : Name → Bool
is_readable no_name = false
is_readable freed = false
is_readable (text t) = true

-- The names of all regions can be read.
abbrev pub all_readable : List Region → Bool
all_readable [] = true
all_readable (r ∷ rs) = is_readable r.name && all_readable rs

abbrev pub name_matches : List ℕ → Name → Bool
name_matches name no_name = false
name_matches name freed = false
name_matches name (text t) = same_text t name

-- One further on, or here, or nowhere.
abbrev later : Bool → Option ℕ → Option ℕ
later here none = if here then some 0 else none
later here (some j) = some (suc j)

-- The index of the last region of this name, found from the end of the array.
abbrev pub last_index : List ℕ → List Region → Option ℕ
last_index name [] = none
last_index name (r ∷ rs) = later (name_matches name r.name) (last_index name rs)

-- `k` regions further on, or what was found before.
abbrev shifted : ℕ → Option ℕ → Option ℕ → Option ℕ
shifted k none before = before
shifted k (some j) before = some (k + j)

shifted-later :
    (i : ℕ) (b : Bool) (found before : Option ℕ)
    → shifted (i + 1) found (if b then some i else before) ≡ shifted i (later b found) before
shifted-later i true none before = ap some (omega arith)
shifted-later i false none before = refl
shifted-later i b (some j) before = ap some (omega arith)

is_named_lem :
    (x : Name) (name : List ℕ) → is_readable x ≡ true → is_named x name ≡ ok (name_matches name x)
unfolding is_named
is_named_lem no_name name h = ground arith
is_named_lem freed name h = ground arith
is_named_lem (text t) name h = refl

search_name_lem :
    (i : ℕ) (rs : List Region) (name : List ℕ) (before : Option ℕ)
    → all_readable rs ≡ true
    → search_name i rs name before ≡ ok (shifted i (last_index name rs) before)
unfolding search_name
search_name_lem i [] name before h = refl
search_name_lem i (r ∷ rs) name before h =
    let named = name_matches name r.name in
    let next = if named then some i else before in
    rw (
      is_named_lem r.name name (ground arith),
      search_name_lem (i + 1) rs name next (ground arith),
      shifted-later i named (last_index name rs) before,
    )

shifted_zero : (found : Option ℕ) → shifted 0 found none ≡ found
shifted_zero none = refl
shifted_zero (some j) = ap some (omega arith)

-- Where the names of all regions can be read, the region that `prof_regions_get_by_name` finds is
-- the last one of that name.
prof_regions_get_by_name-last :
    (rs : List Region) (name : List ℕ)
    → all_readable rs ≡ true
    → prof_regions_get_by_name rs name ≡ ok (last_index name rs)
unfolding prof_regions_get_by_name
prof_regions_get_by_name-last rs name h =
    search_name_lem 0 rs name none h ∙ ap ok (shifted_zero (last_index name rs))

-- Every region of the array is valid, with no entry yet.
pub data Fresh : List Region → Type 0 where
  done : Fresh []
  more : {r : Region} {rs : List Region} → IsRegion r → r.nr_entries ≡ 0 → Fresh rs → Fresh (r ∷ rs)

-- Every region holds no samples, or is as it was.
pub data Dropped : (before after : List Region) → Type 0 where
  end : Dropped [] []
  dropped :
      {r r' : Region} {rs rs' : List Region}
      → r'.samples ≡ none
      → Dropped rs rs'
      → Dropped (r ∷ rs) (r' ∷ rs')
  untouched : (rs : List Region) → Dropped rs rs

-- A valid region without entries, or one without samples.
abbrev Made : Code × Region → Type 0
Made (c, r) =
    ((c ≡ vaccel_ok) × IsRegion r × (r.nr_entries ≡ 0)) ⊎ ((c ≡ vaccel_enomem) × (r.samples ≡ none))

init_cleared_answer :
    (now : ℕ) (granted : Bool) (answer : Option Sample) (r : Region)
    → Made (
        init_cleared
          (record { enabled = true; now = now; name_granted = granted; realloc = answer })
          r)
unfolding init_cleared init_region grow_samples_array clear_region
init_cleared_answer now false answer r = inr (refl, refl)
init_cleared_answer now true none r = inr (refl, refl)
init_cleared_answer now true (some junk) r = inl (
  refl,
  record { room = length-replicate min_samples junk; entries = omega arith; bounded = omega arith },
  refl,
)

init_cleared-Made : (env : Env) (r : Region) → env.enabled ≡ true → Made (init_cleared env r)
init_cleared-Made env r up =
    subst (λ b. Made (init_cleared (record env { enabled = b }) r)) (sym up)
      (init_cleared_answer env.now env.name_granted env.realloc r)

abbrev Arrayed : (before : List Region) → Code × List Region → Type 0
Arrayed before (c, after) =
    ((c ≡ vaccel_ok) × Fresh after) ⊎ ((c ≢ vaccel_ok) × Dropped before after)

init_regions-Arrayed :
    (env : ℕ → Env) (i : ℕ) (rs : List Region)
    → ((j : ℕ) → (env j).enabled ≡ true)
    → Arrayed rs (init_regions env i rs)
unfolding init_regions clear_region
init_regions-Arrayed env i [] up = inl (refl, done)
init_regions-Arrayed env i (r ∷ rs) up = elim (init_cleared-Made (env i) r (up i)) [
  | inr (c, gone) ↦ rw c (inr (ground arith, dropped gone (untouched rs)))
  | inl (c, valid, zero_entries) ↦ elim (init_regions-Arrayed env (i + 1) rs up) [
    | inl (c', fresh) ↦ rw (c, c') (inl (refl, more valid zero_entries fresh))
    | inr (c', gone) ↦
        let bad : ((init_regions env (i + 1) rs).0 == vaccel_ok) ≡ false = ground arith in
        rw (c, bad) (inr (c', dropped refl gone))
  ]
]

-- With profiling enabled, `vaccel_prof_regions_init` makes every region of an array valid and
-- empty, or fails; where it fails, every region holds no samples or is as it was.
vaccel_prof_regions_init-Outcome :
    (env : ℕ → Env) (rs : List Region)
    → ((j : ℕ) → (env j).enabled ≡ true)
    → (c : Code) × (rs' : List Region) × (vaccel_prof_regions_init env rs ≡ (c, rs'))
      × (((c ≡ vaccel_ok) × Fresh rs') ⊎ ((c ≢ vaccel_ok) × Dropped rs rs'))
unfolding vaccel_prof_regions_init
vaccel_prof_regions_init-Outcome env rs up = (_, _, refl, init_regions-Arrayed env 0 rs up)
