-- ===== src/Prof/Stops.antt =====
-- Stopping regions, their reports, and what is left of a region that was cleared.
use vaccel_google_test.Common.{
  ℕ, zero, suc, ◌+◌, ◌-◌, ◌%◌, ◌^◌, ◌≤◌, ◌<◌, ◌≡◌, ◌≢◌, refl, ap, sym, ◌∙◌, true, false, some, List,
  [], ◌∷◌, arith, ltb, ◌==◌, length, get_or, set, length-set, get_or-set_self, get_or-set_ne,
}
use vaccel_google_test.Common.Code.{vaccel_ok, vaccel_enoent}
use vaccel_google_test.Common.Memory.{ok, fault}
use vaccel_google_test.Prof.State.{
  Sample, Region, Env, stored, get_last_sample, write_sample, prof_sample_stop, stop_region,
  add_times, report,
}
use vaccel_google_test.Prof.Regions.{clear_region}
use vaccel_google_test.Prof.Samples.{
  IsRegion, zero_sample, sample_at, write_sample_lem, some-stored,
}

-- The time from `begin` to `now`, on a clock of 64 bits.
abbrev elapsed : (begin now : ℕ) → ℕ
elapsed begin now = (now + (2 ^ 64 - begin)) % 2 ^ 64

-- Stopping a valid region with entries runs: the last sample gets the time since its start,
-- modulo 2^64, the other samples are as they were, and the region is valid.
stop_region-elapsed :
    (env : Env) (r : Region) (n : ℕ)
    → IsRegion r
    → r.nr_entries ≡ suc n
    → (r' : Region) × (stop_region env r ≡ ok (vaccel_ok, r'))
      × IsRegion r'
      × (r'.nr_entries ≡ r.nr_entries)
      × ((sample_at r' n).time ≡ elapsed (sample_at r n).start env.now)
      × ((sample_at r' n).start ≡ (sample_at r n).start)
      × ((i : ℕ) → i ≢ n → sample_at r' i ≡ sample_at r i)
unfolding stop_region get_last_sample prof_sample_stop
stop_region-elapsed env r n v count =
    let (l, e) = some-stored r.samples n (omega (arith, v.room, v.entries)) in
    let st : stored r.samples ≡ l = ap stored e in
    let inside : n < length l = omega (arith, ap length st, v.room, v.entries) in
    let written = prof_sample_stop env.now (get_or l n zero_sample) in
    let self : get_or (set l n written) n zero_sample ≡ written =
      get_or-set_self l n written zero_sample inside in
    let w = write_sample_lem (prof_sample_stop env.now) n r l e inside in
    let last : get_last_sample r ≡ some n = ground arith in
    let same : sample_at r n ≡ get_or l n zero_sample = ap (λ l. get_or l n zero_sample) st in
    (
      record r { samples = some (set l n written) },
      rw (stop_region, last, w),
      record {
        room = omega (arith, length-set l n written, ap length st, v.room);
        entries = v.entries;
        bounded = v.bounded;
      },
      refl,
      ap (λ x. x.time) self ∙ ap (λ x. elapsed x.start env.now) (sym same),
      ap (λ x. x.start) self ∙ ap (λ x. x.start) (sym same),
      λ i ne.
          get_or-set_ne l n i written zero_sample (λ e'. ne (sym e'))
          ∙ ap (λ l. get_or l i zero_sample) (sym st),
    )

-- A region that has no entry, for instance because none was started, is not stopped.
pub stop_region-none :
    (env : Env) (r : Region) → r.nr_entries ≡ 0 → stop_region env r ≡ ok (vaccel_enoent, r)
unfolding stop_region get_last_sample
stop_region-none env r e = ground arith

-- The sum of the times of the `n` samples from index `i` on.
abbrev pub sum_from : (n i : ℕ) → List Sample → ℕ
sum_from zero i l = 0
sum_from (suc n) i l = (get_or l i zero_sample).time + sum_from n (i + 1) l

add_times_lem :
    (n i total : ℕ) (l : List Sample)
    → i + n ≤ length l
    → total < 2 ^ 64
    → add_times n i total l ≡ ok ((total + sum_from n i l) % 2 ^ 64)
unfolding add_times
add_times_lem zero i total l h b = ap ok (omega arith)
add_times_lem (suc n) i total l h b =
    let inside : ltb i (length l) ≡ true = ground arith in
    let more = (total + (get_or l i zero_sample).time) % 2 ^ 64 in
    rw (inside, add_times_lem n (i + 1) more l (omega arith) (omega arith)) (ap ok (omega arith))

-- The report of a valid region with entries shows their number and the sum of their times, modulo
-- 2^64.
pub report-sum :
    (r : Region)
    → IsRegion r
    → r.nr_entries ≢ 0
    → report r
      ≡ ok (
          record {
            name = r.name;
            total_time = sum_from r.nr_entries 0 (stored r.samples) % 2 ^ 64;
            nr_entries = r.nr_entries;
          }
          ∷ [])
unfolding report
report-sum r v ne =
    let some_entry : (r.nr_entries == 0) ≡ false = ground arith in
    let sum : add_times r.nr_entries 0 0 (stored r.samples)
        ≡ ok (sum_from r.nr_entries 0 (stored r.samples) % 2 ^ 64) =
      add_times_lem r.nr_entries 0 0 (stored r.samples) (omega (arith, v.room, v.entries))
        (omega arith)
      ∙ ap ok (omega arith) in
    rw (some_entry, sum)

add_times_null : (n : ℕ) → n ≢ 0 → add_times n 0 0 [] ≡ fault
unfolding add_times
add_times_null zero ne = elim (ne refl) [ ]
add_times_null (suc n) ne = refl

-- The entries of a region whose samples `vaccel_prof_regions_clear` has freed are still counted:
-- if there were any, the next stop, and the next report, read through NULL.
pub clear_region-fault :
    (env : Env) (r : Region)
    → r.nr_entries ≢ 0
    → (stop_region env (clear_region r) ≡ fault) × (report (clear_region r) ≡ fault)
unfolding stop_region get_last_sample clear_region report write_sample
clear_region-fault env r ne =
    let some_entry : (r.nr_entries == 0) ≡ false = ground arith in
    (rw (stop_region, some_entry), rw (report, some_entry, add_times_null r.nr_entries ne))
