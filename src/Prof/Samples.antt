-- ===== src/Prof/Samples.antt =====
-- What the samples of a region record.
use vaccel_google_test.Common.{
  ℕ, ◌+◌, ◌-◌, ◌%◌, ◌^◌, ◌≤◌, ◌<◌, ◌≡◌, refl, ap, sym, ◌∙◌, ◌⊎◌, inl, inr, Bool-cases, true, Option,
  none, some, List, arith, ltb, length, take, replicate, get_or, set, length-append, length-set,
  length-replicate, take_all, get_or-append, get_or-set_self, get_or-set_ne,
}
use vaccel_google_test.Common.Code.{Code, vaccel_ok, vaccel_enomem}
use vaccel_google_test.Common.Memory.{ok}
use vaccel_google_test.Prof.State.{
  Sample, Region, Env, stored, resize, grown_size, allocated, grow_samples_array, get_next_sample,
  write_sample, prof_sample_start, start_region,
}

-- The array has the room that `size` says, and the entries in use are inside of it.
pub record IsRegion (r : Region) : Type 0 where
  pub room : length (stored r.samples) ≡ r.size
  pub entries : r.nr_entries ≤ r.size
  pub bounded : r.size < 2 ^ 62

abbrev pub zero_sample : Sample
zero_sample = record { start = 0; time = 0 }

-- The sample at an index that is in use.
abbrev pub sample_at : Region → ℕ → Sample
sample_at r i = get_or (stored r.samples) i zero_sample

-- The region after `grow_samples_array` got memory.
abbrev grown : Sample → Region → Region
grown junk r = record r {
  samples = some (resize (allocated r.size) junk (stored r.samples));
  size = grown_size r.size;
}

-- Below 2^59 samples the size in bytes does not wrap.
allocated_all : (size : ℕ) → size < 2 ^ 59 → allocated size ≡ grown_size size
allocated_all size small = ground arith

grown-length :
    (junk : Sample) (r : Region)
    → length (stored r.samples) ≡ r.size
    → r.size < 2 ^ 59
    → length (stored (grown junk r).samples) ≡ grown_size r.size
grown-length junk r room b = rw (allocated_all r.size b) ground (
  arith,
  take_all (grown_size r.size) (stored r.samples),
  length-append (take (grown_size r.size) (stored r.samples))
      (replicate (grown_size r.size - length (stored r.samples)) junk),
  length-replicate (grown_size r.size - length (stored r.samples)) junk,
)

grown-sample :
    (junk : Sample) (r : Region) (i : ℕ)
    → length (stored r.samples) ≡ r.size
    → r.size < 2 ^ 59
    → i < r.size
    → sample_at (grown junk r) i ≡ sample_at r i
grown-sample junk r i room b h = rw (allocated_all r.size b) ground (
  arith,
  take_all (grown_size r.size) (stored r.samples),
  get_or-append (stored r.samples) (replicate (grown_size r.size - length (stored r.samples)) junk)
      i zero_sample,
)

pub write_sample_lem :
    (f : Sample → Sample) (i : ℕ) (r : Region) (l : List Sample)
    → r.samples ≡ some l
    → i < length l
    → write_sample f i r ≡ ok (record r { samples = some (set l i (f (get_or l i zero_sample))) })
unfolding write_sample
write_sample_lem f i r l e h = let inside : ltb i (length l) ≡ true = ground arith in rw (e, inside)

-- What a successful start does: one more entry, that starts now; the ones before are as they were.
pub record Begun (now : ℕ) (r r' : Region) : Type 0 where
  pub valid : IsRegion r'
  pub counted : r'.nr_entries ≡ r.nr_entries + 1
  pub starts : (sample_at r' r.nr_entries).start ≡ now
  pub earlier : (i : ℕ) → i < r.nr_entries → sample_at r' i ≡ sample_at r i

-- The write to the sample that `get_next_sample` found in the array `l` of `g`.
begun_lem :
    (now : ℕ) (r g : Region) (l : List Sample)
    → g.samples ≡ some l
    → length l ≡ g.size
    → r.nr_entries < g.size
    → g.size < 2 ^ 62
    → ((i : ℕ) → i < r.nr_entries → get_or l i zero_sample ≡ sample_at r i)
    → (r' : Region) × (write_sample
          (prof_sample_start now)
          r.nr_entries
          (record g { nr_entries = (r.nr_entries + 1) % 2 ^ 64 })
        ≡ ok r')
      × Begun now r r'
unfolding prof_sample_start
begun_lem now r g l e len inside small before = (
  _,
  write_sample_lem (prof_sample_start now) r.nr_entries
      (record g { nr_entries = (r.nr_entries + 1) % 2 ^ 64 }) l e (omega arith),
  record {
    valid = record {
      room = omega (
        arith,
        length-set l r.nr_entries (prof_sample_start now (get_or l r.nr_entries zero_sample)),
      );
      entries = omega arith;
      bounded = small;
    };
    counted = omega arith;
    starts =
        ap (λ x. x.start)
          (get_or-set_self l r.nr_entries
            (prof_sample_start now (get_or l r.nr_entries zero_sample)) zero_sample (omega arith));
    earlier = λ i h.
        get_or-set_ne l r.nr_entries i (prof_sample_start now (get_or l r.nr_entries zero_sample))
          zero_sample (λ e'. omega arith)
        ∙ before i h;
  },
)

pub some-stored :
    (s : Option (List Sample)) (i : ℕ) → i < length (stored s) → (l : List Sample) × (s ≡ some l)
some-stored none i h = elim h [ ]
some-stored (some l) i h = (l, refl)

start_at :
    (env : Env) (r g r' : Region) (i : ℕ)
    → get_next_sample env.realloc r ≡ (some i, g)
    → write_sample (prof_sample_start env.now) i g ≡ ok r'
    → start_region env r ≡ ok (vaccel_ok, r')
unfolding start_region
start_at env r g r' i e w = rw (start_region, ap (λ p. p.0) e, ap (λ p. p.1) e, w)

next_room :
    (answer : Option Sample) (r : Region)
    → r.nr_entries < r.size
    → get_next_sample answer r
      ≡ (some r.nr_entries, record r { nr_entries = (r.nr_entries + 1) % 2 ^ 64 })
unfolding get_next_sample
next_room answer r h = ground arith

next_full :
    (junk : Sample) (r : Region)
    → r.nr_entries ≡ r.size
    → get_next_sample (some junk) r
      ≡ (some r.nr_entries, record (grown junk r) { nr_entries = (r.nr_entries + 1) % 2 ^ 64 })
unfolding get_next_sample grow_samples_array
next_full junk r h = ground arith

next_refused : (r : Region) → r.nr_entries ≡ r.size → get_next_sample none r ≡ (none, r)
unfolding get_next_sample grow_samples_array
next_refused r h = ground arith

start_room :
    (env : Env) (r : Region)
    → IsRegion r
    → r.nr_entries < r.size
    → (r' : Region) × (start_region env r ≡ ok (vaccel_ok, r')) × Begun env.now r r'
start_room env r v h =
    let (l, e) = some-stored r.samples r.nr_entries (omega (arith, v.room)) in
    let st : stored r.samples ≡ l = ap stored e in
    let (r', w, begun) =
      begun_lem env.now r r l e (ap length (sym st) ∙ v.room) h v.bounded
        (λ i _. ap (λ l. get_or l i zero_sample) (sym st)) in
    (r', start_at env r _ r' r.nr_entries (next_room env.realloc r h) w, begun)

start_full :
    (env : Env) (r : Region) (junk : Sample)
    → IsRegion r
    → r.size < 2 ^ 59
    → r.nr_entries ≡ r.size
    → env.realloc ≡ some junk
    → (r' : Region) × (start_region env r ≡ ok (vaccel_ok, r')) × Begun env.now r r'
start_full env r junk v small h e =
    let len = grown-length junk r v.room small in
    let (r', w, begun) =
      begun_lem env.now r (grown junk r) (stored (grown junk r).samples) refl len (ground arith)
        (ground arith) (λ i k. grown-sample junk r i v.room small (omega arith)) in
    (r', start_at env r _ r' r.nr_entries (rw e (next_full junk r h)) w, begun)

start_refused :
    (env : Env) (r : Region)
    → r.nr_entries ≡ r.size
    → env.realloc ≡ none
    → start_region env r ≡ ok (vaccel_enomem, r)
unfolding start_region
start_refused env r h e =
    rw (start_region, e, ap (λ p. p.0) (next_refused r h), e, ap (λ p. p.1) (next_refused r h))

grow_or_not :
    (env : Env) (r : Region)
    → IsRegion r
    → r.size < 2 ^ 59
    → r.nr_entries ≡ r.size
    → (answer : Option Sample) → env.realloc ≡ answer
    → (c : Code) × (r' : Region) × (start_region env r ≡ ok (c, r'))
      × (((c ≡ vaccel_ok) × Begun env.now r r') ⊎ ((c ≡ vaccel_enomem) × (r' ≡ r)))
grow_or_not env r v small full none e =
    (vaccel_enomem, r, start_refused env r full e, inr (refl, refl))
grow_or_not env r v small full (some junk) e =
    let (r', run, begun) = start_full env r junk v small full e in
    (vaccel_ok, r', run, inl (refl, begun))

-- Starting a valid region of fewer than 2^59 samples runs: there is one more sample, which holds
-- the current time, the earlier ones are as they were and the region is valid; or the memory for
-- it is missing and the region is as it was.
pub start_region-Begun :
    (env : Env) (r : Region)
    → IsRegion r
    → r.size < 2 ^ 59
    → (c : Code) × (r' : Region) × (start_region env r ≡ ok (c, r'))
      × (((c ≡ vaccel_ok) × Begun env.now r r') ⊎ ((c ≡ vaccel_enomem) × (r' ≡ r)))
start_region-Begun env r v small = elim (Bool-cases (ltb r.nr_entries r.size)) [
  | inl h ↦
      let (r', run, begun) = start_room env r v (ground arith) in
      (vaccel_ok, r', run, inl (refl, begun))
  | inr h ↦
      let full : r.nr_entries ≡ r.size = ground (arith, v.entries) in
      grow_or_not env r v small full env.realloc refl
]
