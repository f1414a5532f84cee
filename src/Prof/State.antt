-- ===== src/Prof/State.antt =====
-- The regions of src/profiling/vaccel_prof.h and the functions of vaccel_prof.c.
use vaccel_google_test.Common.{
  ℕ, zero, suc, ◌+◌, ◌-◌, ◌*◌, ◌/◌, ◌%◌, ◌^◌, Bool, true, false, not, Option, none, some, List, [],
  ◌∷◌, ◌++◌, ltb, leb, ◌==◌, if◌then◌else◌, length, take, replicate, get_or, set,
}
use vaccel_google_test.Common.Code.{Code, vaccel_ok, vaccel_enoent, vaccel_einval, vaccel_enomem}
use vaccel_google_test.Common.Memory.{Outcome, ok, fault, ◌>>=◌}

-- `struct vaccel_prof_sample`
pub record Sample : Type 0 where
  pub start : ℕ
  pub time : ℕ

-- The name of a region: NULL, a string, or memory that was freed.
pub data Name : Type 0 where
  no_name : Name
  text : List ℕ → Name
  freed : Name

-- `struct vaccel_prof_region`; `samples` is `none` for NULL.
pub record Region : Type 0 where
  pub name : Name
  pub name_owned : Bool
  pub nr_entries : ℕ
  pub samples : Option (List Sample)
  pub size : ℕ

-- What one call meets: the environment variable, the clock, whether the memory of a name is
-- granted, and the answer of `realloc`: NULL, or memory whose new samples read as `junk`.
pub record Env : Type 0 where
  pub enabled : Bool
  pub now : ℕ
  pub name_granted : Bool
  pub realloc : Option Sample

-- `MIN_SAMPLES`
abbrev pub min_samples : ℕ
min_samples = 1024

unfoldable pub prof_sample_start : ℕ → Sample → Sample
prof_sample_start now sample = record sample { start = now }

unfoldable pub prof_sample_stop : ℕ → Sample → Sample
prof_sample_stop now sample = record sample { time = (now + (2 ^ 64 - sample.start)) % 2 ^ 64 }

-- The samples that are stored.
abbrev pub stored : Option (List Sample) → List Sample
stored none = []
stored (some l) = l

-- `realloc` to room for `n` samples.
abbrev pub resize : ℕ → Sample → List Sample → List Sample
resize n junk l = take n l ++ replicate (n - length l) junk

-- The capacity that `grow_samples_array` asks for.
abbrev pub grown_size : ℕ → ℕ
grown_size size = if size == 0 then min_samples else (size * 2) % 2 ^ 64

-- `sizeof(struct vaccel_prof_sample)`
abbrev pub sample_bytes : ℕ
sample_bytes = 16

-- The samples that there is room for in the memory that `realloc` is asked for: the number of its
-- bytes is a size_t, and wraps.
abbrev pub allocated : ℕ → ℕ
allocated size = ((grown_size size * sample_bytes) % 2 ^ 64) / sample_bytes

unfoldable pub grow_samples_array : Option Sample → Region → Code × Region
grow_samples_array none r = (vaccel_enomem, r)
grow_samples_array (some junk) r = (
  vaccel_ok,
  record r {
    samples = some (resize (allocated r.size) junk (stored r.samples));
    size = grown_size r.size;
  },
)

-- The index of the last sample in use.
unfoldable pub get_last_sample : Region → Option ℕ
get_last_sample r = if r.nr_entries == 0 then none else some (r.nr_entries - 1)

-- The index of the next sample, which is in use from here on.
unfoldable pub get_next_sample : Option Sample → Region → Option ℕ × Region
get_next_sample realloc r =
    let (ret, g) = grow_samples_array realloc r in
    if leb r.size r.nr_entries
    then (if ret == vaccel_ok
        then (some r.nr_entries, record g { nr_entries = (r.nr_entries + 1) % 2 ^ 64 })
        else (none, g))
    else (some r.nr_entries, record r { nr_entries = (r.nr_entries + 1) % 2 ^ 64 })

-- A write to `samples[i]`.
unfoldable pub write_sample : (Sample → Sample) → ℕ → Region → Outcome Region
write_sample f i r = elim r.samples [
  | none ↦ fault
  | some l ↦
      if ltb i (length l)
      then ok
          (record r { samples = some (set l i (f (get_or l i (record { start = 0; time = 0 })))) })
      else fault
]

-- The part of the start functions after the region is known.
unfoldable pub start_region : Env → Region → Outcome (Code × Region)
start_region env r =
    let (sample, r') = get_next_sample env.realloc r in
    elim sample [
      | none ↦ ok (vaccel_enomem, r')
      | some i ↦ write_sample (prof_sample_start env.now) i r' >>= λ r''. ok (vaccel_ok, r'')
    ]

-- The part of the stop functions after the region is known.
unfoldable pub stop_region : Env → Region → Outcome (Code × Region)
stop_region env r = elim (get_last_sample r) [
  | none ↦ ok (vaccel_enoent, r)
  | some i ↦ write_sample (prof_sample_stop env.now) i r >>= λ r'. ok (vaccel_ok, r')
]

-- The region behind a pointer is stored back.
abbrev pub store_back : Outcome (Code × Region) → Outcome (Code × Option Region)
store_back done = done >>= λ (c, r). ok (c, some r)

unfoldable pub vaccel_prof_region_start : Env → Option Region → Outcome (Code × Option Region)
vaccel_prof_region_start env region =
    if not env.enabled
    then ok (vaccel_ok, region)
    else elim region [ none ↦ ok (vaccel_einval, none) | some r ↦ store_back (start_region env r) ]

unfoldable pub vaccel_prof_region_stop : Env → Option Region → Outcome (Code × Option Region)
vaccel_prof_region_stop env region =
    if not env.enabled
    then ok (vaccel_ok, region)
    else elim region [ none ↦ ok (vaccel_einval, none) | some r ↦ store_back (stop_region env r) ]

-- The text that `malloc` and `memset`, or `strdup`, leave in a granted name.
abbrev pub copied : Option (List ℕ) → List ℕ
copied none = []
copied (some name) = name

-- `region_init` of a region that is there: on failure the name is freed, and stays in the region.
unfoldable pub init_region : Env → Option (List ℕ) → Region → Code × Region
init_region env name r =
    let r' = record r { name = text (copied name); name_owned = true; nr_entries = 0 } in
    let (ret, g) = grow_samples_array env.realloc r' in
    if not env.name_granted
    then (vaccel_enomem, record r { name = no_name })
    else if ret == vaccel_ok
    then (vaccel_ok, g)
    else (vaccel_enomem, record g { name = freed })

unfoldable pub vaccel_prof_region_init :
    Env → Option Region → Option (List ℕ) → Code × Option Region
vaccel_prof_region_init env region name =
    if not env.enabled then (vaccel_ok, region) else elim region [
      | none ↦ (vaccel_einval, none)
      | some r ↦ let (c, r') = init_region env name r in (c, some r')
    ]

-- Freeing a name that was freed before is a fault.
unfoldable pub free_name : Bool → Name → Outcome (Option (List ℕ))
free_name owned no_name = ok none
free_name owned (text t) = ok (some t)
free_name owned freed = if owned then fault else ok none

unfoldable pub vaccel_prof_region_destroy : Env → Option Region → Outcome (Code × Option Region)
vaccel_prof_region_destroy env region =
    if not env.enabled then ok (vaccel_ok, region) else elim region [
      | none ↦ ok (vaccel_einval, none)
      | some r ↦ free_name r.name_owned r.name >>= λ _. ok (
        vaccel_ok,
        some (record {
          name = no_name;
          name_owned = false;
          nr_entries = 0;
          samples = none;
          size = 0;
        }),
      )
    ]

-- The loop that adds up `samples[i].time` from `i` on, `k` times.
unfoldable pub add_times : (k i total : ℕ) → List Sample → Outcome ℕ
add_times zero i total l = ok total
add_times (suc k) i total l =
    let rest =
      add_times k (i + 1) ((total + (get_or l i (record { start = 0; time = 0 })).time) % 2 ^ 64)
        l in
    if ltb i (length l) then rest else fault

-- What a line of the report shows.
pub record Line : Type 0 where
  pub name : Name
  pub total_time : ℕ
  pub nr_entries : ℕ

-- The line of a region with entries.
unfoldable pub report : Region → Outcome (List Line)
report r =
    if r.nr_entries == 0
    then ok []
    else (add_times r.nr_entries 0 0 (stored r.samples) >>= λ total.
        ok (record { name = r.name; total_time = total; nr_entries = r.nr_entries } ∷ []))

unfoldable pub vaccel_prof_region_print : Env → Option Region → Outcome (Code × List Line)
vaccel_prof_region_print env region = if not env.enabled then ok (vaccel_ok, []) else elim region [
  | none ↦ ok (vaccel_einval, [])
  | some r ↦ report r >>= λ lines. ok (vaccel_ok, lines)
]
