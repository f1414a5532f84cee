-- ===== src/Prof/Overrun.antt =====
-- vaccel_prof_regions_print_all_to_buf of src/profiling/vaccel_prof.c: memory that is too small.
use vaccel_google_test.Common.{
  to_size, ℕ, zero, suc, ◌+◌, ◌-◌, ◌%◌, ◌^◌, ◌≡◌, ◌≤◌, ◌<◌, refl, ap, arith, true, some, List, [],
  ◌∷◌, ◌++◌, map, length, length-append, take,
}
use vaccel_google_test.Common.Memory.{ok, fault}
use vaccel_google_test.Prof.State.{Env, Region, Line}
use vaccel_google_test.Prof.Regions.{report_all}
use vaccel_google_test.Prof.Buffer.{
  overwrite, write_at, print_at, print_each, vaccel_prof_regions_print_all_to_buf,
}

length-overwrite :
    (bs : List ℕ) (offset : ℕ) (xs : List ℕ) → length (overwrite bs offset xs) ≡ length bs
length-overwrite [] offset xs = refl
length-overwrite (b ∷ bs) (suc offset) xs = ap suc (length-overwrite bs offset xs)
length-overwrite (b ∷ bs) zero [] = refl
length-overwrite (b ∷ bs) zero (x ∷ xs) = ap suc (length-overwrite bs zero xs)

-- Once the offset is behind the memory, the text is written outside of it.
print_at_behind :
    (text : List ℕ) (tsize : ℕ) (tbuf : List ℕ)
    → length tbuf < tsize
    → tsize < 2 ^ 31
    → print_at text tsize tbuf ≡ fault
unfolding print_at write_at
print_at_behind text tsize tbuf behind small =
    let size : to_size tsize ≡ tsize = ground arith in
    let room : (length tbuf + (2 ^ 64 - tsize)) % 2 ^ 64 ≡ length tbuf + (2 ^ 64 - tsize) =
      omega arith in
    rw size rw room ground arith

take_bound : (n : ℕ) (xs : List ℕ) → length (take n xs) ≤ n
take_bound zero xs = omega arith
take_bound (suc n) [] = omega arith
take_bound (suc n) (x ∷ xs) = omega (arith, take_bound n xs)

-- The first text, of which only the front fits into the memory.
print_at_front :
    (text tbuf : List ℕ)
    → 0 < length tbuf
    → length tbuf < 2 ^ 31
    → (tbuf' : List ℕ) × (print_at text 0 tbuf ≡ ok tbuf') × (length tbuf' ≡ length tbuf)
unfolding print_at write_at
print_at_front text tbuf some_room small =
    let printed = take (length tbuf - 1) text ++ 0 ∷ [] in
    let room : (length tbuf + 2 ^ 64) % 2 ^ 64 ≡ length tbuf = omega arith in
    let shorter = take_bound (length tbuf - 1) text in
    let count = length-append (take (length tbuf - 1) text) (0 ∷ []) in
    (
      overwrite tbuf 0 printed,
      (rw room ground (arith, shorter, count)),
      length-overwrite tbuf 0 printed,
    )

print_each-overrun :
    (text next : List ℕ) (texts : List (List ℕ)) (memory : List ℕ)
    → 0 < length memory
    → length memory < length text + 1
    → length text + 1 < 2 ^ 31
    → print_each (text ∷ next ∷ texts) 0 memory ≡ fault
unfolding print_each
print_each-overrun text next texts memory some_room short small =
    let (memory', first, same) = print_at_front text memory some_room (omega arith) in
    let size : (0 + (length text + 1)) % 2 ^ 32 ≡ length text + 1 = omega arith in
    let second = print_at_behind next (length text + 1) memory' (omega (arith, same)) small in
    rw first rw size rw second refl

-- When profiling is enabled, the report of the regions can be read and has at least two lines,
-- and the memory is not empty but too small for the first text and its final 0, of less than 2^31
-- bytes, then `vaccel_prof_regions_print_all_to_buf` writes outside of the memory: a fault.
pub vaccel_prof_regions_print_all_to_buf-overrun :
    (format : Line → List ℕ) (env : Env) (regions : List Region) (first second : Line)
    → (lines : List Line) (memory : List ℕ) → env.enabled ≡ true
    → report_all regions ≡ ok (first ∷ second ∷ lines)
    → 0 < length memory
    → length memory < length (format first) + 1
    → length (format first) + 1 < 2 ^ 31
    → vaccel_prof_regions_print_all_to_buf format env true (some memory) (some regions) ≡ fault
unfolding vaccel_prof_regions_print_all_to_buf
vaccel_prof_regions_print_all_to_buf-overrun format env regions first second lines memory on read
      some_room short small =
    let overrun =
      print_each-overrun (format first) (format second) (map format lines) memory some_room short
        small in
    rw on rw read rw overrun refl
