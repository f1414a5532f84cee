-- ===== src/Prof/Regions.antt =====
-- Arrays of regions: lookup by name, and the functions for all regions.
use vaccel_google_test.Common.{
  ℕ, zero, suc, ◌+◌, Bool, true, false, ◌&&◌, not, Option, none, some, List, [], ◌∷◌, ◌++◌, ◌==◌,
  if◌then◌else◌, get_or, set,
}
use vaccel_google_test.Common.Code.{Code, vaccel_ok, vaccel_einval}
use vaccel_google_test.Common.Memory.{Outcome, ok, fault, ◌>>=◌}
use vaccel_google_test.Prof.State.{
  Name, Region, Env, start_region, stop_region, init_region, Line, report, no_name, text, freed,
}

-- `strcmp` finds no difference.
abbrev pub same_text : List ℕ → List ℕ → Bool
same_text [] [] = true
same_text [] (y ∷ ys) = false
same_text (x ∷ xs) [] = false
same_text (x ∷ xs) (y ∷ ys) = (x == y) && same_text xs ys

-- `strcmp(regions[i].name, name) == 0`, on a name that can be read.
unfoldable pub is_named : Name → List ℕ → Outcome Bool
is_named no_name name = fault
is_named freed name = fault
is_named (text t) name = ok (same_text t name)

-- The loop of `prof_regions_get_by_name` from region `i` on; `r` is the last region found.
unfoldable pub search_name : (i : ℕ) → List Region → List ℕ → Option ℕ → Outcome (Option ℕ)
search_name i [] name r = ok r
search_name i (x ∷ xs) name r =
    is_named x.name name >>= λ named. search_name (i + 1) xs name (if named then some i else r)

unfoldable pub prof_regions_get_by_name : List Region → List ℕ → Outcome (Option ℕ)
prof_regions_get_by_name regions name = search_name 0 regions name none

-- A region that stands for memory outside of the array.
abbrev pub no_region : Region
no_region = record { name = no_name; name_owned = false; nr_entries = 0; samples = none; size = 0 }

-- Applies `f` to `regions[i]`.
abbrev pub at_region :
    (Region → Outcome (Code × Region)) → List Region → ℕ → Outcome (Code × Option (List Region))
at_region f regions i = f (get_or regions i no_region) >>= λ (c, r). ok (c, some (set regions i r))

-- The functions that look a region up by name and apply `f` to it.
abbrev pub by_name :
    (Region → Outcome (Code × Region))
    → Env
    → Option (List Region)
    → List ℕ
    → Outcome (Code × Option (List Region))
by_name f env regions name = if not env.enabled then ok (vaccel_ok, regions) else elim regions [
  | none ↦ ok (vaccel_einval, none)
  | some rs ↦ prof_regions_get_by_name rs name >>= λ found. elim found [
    | none ↦ ok (vaccel_einval, some rs)
    | some i ↦ at_region f rs i
  ]
]

unfoldable pub vaccel_prof_regions_start_by_name :
    Env → Option (List Region) → List ℕ → Outcome (Code × Option (List Region))
vaccel_prof_regions_start_by_name env regions name = by_name (start_region env) env regions name

unfoldable pub vaccel_prof_regions_stop_by_name :
    Env → Option (List Region) → List ℕ → Outcome (Code × Option (List Region))
vaccel_prof_regions_stop_by_name env regions name = by_name (stop_region env) env regions name

-- `samples` is freed and its size is 0; the number of entries stays.
unfoldable pub clear_region : Region → Region
clear_region r = record r { samples = none; size = 0 }

-- The first `nregions` regions are cleared.
unfoldable pub vaccel_prof_regions_clear : (nregions : ℕ) → List Region → List Region
vaccel_prof_regions_clear zero regions = regions
vaccel_prof_regions_clear (suc n) [] = []
vaccel_prof_regions_clear (suc n) (r ∷ rs) = clear_region r ∷ vaccel_prof_regions_clear n rs

-- `vaccel_prof_region_init(&regions[i], NULL)` with what stands there cleared.
unfoldable pub init_cleared : Env → Region → Code × Region
init_cleared env r =
    let (ret, r') = init_region env none (clear_region r) in
    if env.enabled then (ret, r') else (vaccel_ok, clear_region r)

-- The loop of `vaccel_prof_regions_init`. Where a region fails, the ones before it are cleared: the
-- number of them that are to be cleared goes up the recursion.
unfoldable pub init_regions : (env : ℕ → Env) (i : ℕ) → List Region → Code × List Region
init_regions env i [] = (vaccel_ok, [])
init_regions env i (r ∷ rs) =
    let (ret, r') = init_cleared (env i) r in
    let (code, rest) = init_regions env (i + 1) rs in
    if not (ret == vaccel_ok)
    then (ret, r' ∷ rs)
    else if code == vaccel_ok
    then (code, r' ∷ rest)
    else (code, clear_region r' ∷ rest)

unfoldable pub vaccel_prof_regions_init : (ℕ → Env) → List Region → Code × List Region
vaccel_prof_regions_init env regions = init_regions env 0 regions

unfoldable pub report_all : List Region → Outcome (List Line)
report_all [] = ok []
report_all (r ∷ rs) = report r >>= λ line. report_all rs >>= λ lines. ok (line ++ lines)

unfoldable pub vaccel_prof_regions_print_all :
    Env → Option (List Region) → Outcome (Code × List Line)
vaccel_prof_regions_print_all env regions =
    if not env.enabled then ok (vaccel_ok, []) else elim regions [
      | none ↦ ok (vaccel_einval, [])
      | some rs ↦ report_all rs >>= λ lines. ok (vaccel_ok, lines)
    ]
