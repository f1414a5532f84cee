-- ===== src/Prof/Buffer.antt =====
-- vaccel_prof_regions_print_all_to_buf of src/profiling/vaccel_prof.c: the report as texts in a buffer.
use vaccel_google_test.Common.{
  to_size, ℕ, zero, suc, ◌+◌, ◌-◌, ◌%◌, ◌^◌, ◌≡◌, ◌≤◌, ◌<◌, refl, ap, sym, ◌∙◌, arith, Bool, true,
  false, not, Option, none, some, List, [], ◌∷◌, ◌++◌, map, ltb, ◌==◌, if◌then◌else◌, length,
  length-append, take, take_all,
}
use mathlib.Core.List.{append_assoc}
use vaccel_google_test.Common.Code.{vaccel_einval, vaccel_enomem}
use vaccel_google_test.Common.Memory.{Outcome, ok, fault, ◌>>=◌}
use vaccel_google_test.Prof.State.{Env, Region, Line}
use vaccel_google_test.Prof.Regions.{report_all}

-- Writing from an offset on, as far as there is room.
abbrev pub overwrite : List ℕ → (offset : ℕ) → List ℕ → List ℕ
overwrite [] offset xs = []
overwrite (b ∷ bs) (suc offset) xs = b ∷ overwrite bs offset xs
overwrite (b ∷ bs) zero [] = b ∷ bs
overwrite (b ∷ bs) zero (x ∷ xs) = x ∷ overwrite bs zero xs

-- `snprintf(*tbuf + tsize, room, ...)`, where `start` is `tsize` as a size: as much of the text as
-- `room` allows, and the final 0, unless `room` is 0.
unfoldable pub write_at : (room start : ℕ) (text : List ℕ) → (tbuf : List ℕ) → Outcome (List ℕ)
write_at room start text tbuf =
    let printed = take (room - 1) text ++ 0 ∷ [] in
    if room == 0
    then ok tbuf
    else if ltb (length tbuf) (start + length printed)
    then fault
    else ok (overwrite tbuf start printed)

-- `snprintf(*tbuf + tsize, tbuf_len - tsize, ...)`. The difference is one of sizes, and wraps.
unfoldable pub print_at : (text : List ℕ) (tsize : ℕ) → (tbuf : List ℕ) → Outcome (List ℕ)
print_at text tsize tbuf =
    let start = to_size tsize in
    write_at ((length tbuf + (2 ^ 64 - start)) % 2 ^ 64) start text tbuf

-- The second loop.
unfoldable pub print_each : (texts : List (List ℕ)) (tsize : ℕ) → (tbuf : List ℕ) → Outcome (List ℕ)
print_each [] tsize tbuf = ok tbuf
print_each (text ∷ texts) tsize tbuf = print_at text tsize tbuf >>= λ tbuf'.
    print_each texts ((tsize + (length text + 1)) % 2 ^ 32) tbuf'

-- The sum of the first loop, without its wrap.
abbrev pub text_size : List (List ℕ) → ℕ
text_size [] = 0
text_size (text ∷ texts) = length text + 1 + text_size texts

-- `format` gives the text of a line, "[prof] %s: total_time: %ju nsec nr_entries: %zu", and `malloc`
-- the memory of `tbuf_len` bytes; `wants_text` says whether `tbuf` is not NULL. The result is the int
-- that is returned, as its bit pattern, and the buffer.
unfoldable pub vaccel_prof_regions_print_all_to_buf :
    (format : Line → List ℕ)
    → Env
    → (wants_text : Bool) (malloc : Option (List ℕ)) → Option (List Region)
    → Outcome (ℕ × Option (List ℕ))
vaccel_prof_regions_print_all_to_buf format env wants_text malloc regions =
    if not env.enabled then ok (0, none) else elim regions [
      | none ↦ ok (2 ^ 32 - vaccel_einval, none)
      | some rs ↦ report_all rs >>= λ lines.
          if not wants_text then ok (text_size (map format lines) % 2 ^ 32, none) else elim malloc [
            | none ↦ ok (2 ^ 32 - vaccel_enomem, none)
            | some memory ↦ print_each (map format lines) 0 memory >>= λ tbuf.
                ok (length rs % 2 ^ 32, some tbuf)
          ]
    ]

-- The texts behind each other, each with its final 0.
abbrev pub joined : List (List ℕ) → List ℕ
joined [] = []
joined (text ∷ texts) = text ++ (0 ∷ joined texts)

overwrite-append :
    (before rest xs : List ℕ)
    → overwrite (before ++ rest) (length before) xs ≡ before ++ overwrite rest 0 xs
overwrite-append [] rest xs = refl
overwrite-append (b ∷ bs) rest xs = ap (λ l. b ∷ l) (overwrite-append bs rest xs)

overwrite_front :
    (rest xs : List ℕ)
    → length xs ≤ length rest
    → (left : List ℕ) × (overwrite rest 0 xs ≡ xs ++ left) × (length left + length xs ≡ length rest)
overwrite_front [] [] h = ([], refl, refl)
overwrite_front [] (x ∷ xs) h = elim h [ ]
overwrite_front (b ∷ bs) [] h = (b ∷ bs, refl, omega arith)
overwrite_front (b ∷ bs) (x ∷ xs) h =
    let (left, e, count) = overwrite_front bs xs (omega arith) in
    (left, ap (λ l. x ∷ l) e, omega (arith, count))

write_at_lem :
    (text done rest : List ℕ)
    → length text + 1 ≤ length rest
    → write_at (length rest) (length done) text (done ++ rest)
      ≡ ok (done ++ overwrite rest 0 (text ++ 0 ∷ []))
unfolding write_at
write_at_lem text done rest fits =
    let total = length-append done rest in
    let printed : take (length rest - 1) text ++ 0 ∷ [] ≡ text ++ 0 ∷ [] =
      ap (λ t. t ++ 0 ∷ []) (take_all (length rest - 1) text (omega arith)) in
    let count = length-append text (0 ∷ []) in
    let placed = overwrite-append done rest (text ++ 0 ∷ []) in
    rw printed ground (arith, total, count, placed)

print_at_lem :
    (text done rest : List ℕ)
    → length text + 1 ≤ length rest
    → length done + length rest < 2 ^ 31
    → print_at text (length done) (done ++ rest) ≡ ok (done ++ overwrite rest 0 (text ++ 0 ∷ []))
unfolding print_at
print_at_lem text done rest fits small =
    let total = length-append done rest in
    let size : to_size (length done) ≡ length done = ground arith in
    let room : (length (done ++ rest) + (2 ^ 64 - length done)) % 2 ^ 64 ≡ length rest =
      omega (arith, total) in
    ap (λ n. write_at ((length (done ++ rest) + (2 ^ 64 - n)) % 2 ^ 64) n text (done ++ rest)) size
    ∙ ap (λ n. write_at n (length done) text (done ++ rest)) room
    ∙ write_at_lem text done rest fits

print_each_lem :
    (texts : List (List ℕ)) (done rest : List ℕ)
    → text_size texts ≤ length rest
    → length done + length rest < 2 ^ 31
    → (left : List ℕ) × (print_each texts (length done) (done ++ rest)
        ≡ ok (done ++ (joined texts ++ left)))
unfolding print_each
print_each_lem [] done rest fits small = (rest, refl)
print_each_lem (text ∷ texts) done rest fits small =
    let xs = text ++ 0 ∷ [] in
    let count : length xs ≡ length text + 1 = length-append text (0 ∷ []) in
    let (after, written, room) = overwrite_front rest xs (omega (arith, count)) in
    let total = length-append done xs in
    let (left, e) =
      print_each_lem texts (done ++ xs) after (omega (arith, count, room))
        (omega (arith, total, room)) in
    let next : (length done + (length text + 1)) % 2 ^ 32 ≡ length (done ++ xs) =
      omega (arith, total, count) in
    (
      left,
      ap (λ o. o >>= λ t. print_each texts ((length done + (length text + 1)) % 2 ^ 32) t)
            (print_at_lem text done rest (omega arith) small)
          ∙ ap (λ n. print_each texts n (done ++ overwrite rest 0 xs)) next
          ∙ ap (λ t. print_each texts (length (done ++ xs)) t)
              (ap (λ t. done ++ t) written ∙ sym (append_assoc done xs after))
          ∙ e
          ∙ ap ok (
              append_assoc done xs (joined texts ++ left)
              ∙ ap (λ t. done ++ t)
                  (append_assoc text (0 ∷ []) (joined texts ++ left)
                    ∙ sym (append_assoc text (0 ∷ joined texts) left))),
    )

-- When profiling is enabled, the report of the regions can be read and its texts, each with its
-- final 0, fit into the memory, then `vaccel_prof_regions_print_all_to_buf` without a buffer
-- returns the size that the texts take, and with the memory writes inside of it only: the texts
-- stand at its front behind each other, each with its final 0, and the number of regions is
-- returned. The memory is of less than 2^31 bytes, and there are fewer than 2^31 regions.
pub vaccel_prof_regions_print_all_to_buf-sized :
    (format : Line → List ℕ) (env : Env) (regions : List Region) (lines : List Line)
    → (memory : List ℕ) → env.enabled ≡ true
    → report_all regions ≡ ok lines
    → text_size (map format lines) ≤ length memory
    → length memory < 2 ^ 31
    → length regions < 2 ^ 31
    → (vaccel_prof_regions_print_all_to_buf format env false none (some regions)
        ≡ ok (text_size (map format lines), none))
      × ((left : List ℕ) × (vaccel_prof_regions_print_all_to_buf format env true
              (some memory)
              (some regions)
            ≡ ok (length regions, some (joined (map format lines) ++ left))))
unfolding vaccel_prof_regions_print_all_to_buf
vaccel_prof_regions_print_all_to_buf-sized format env regions lines memory on read fits small few =
    let size : text_size (map format lines) % 2 ^ 32 ≡ text_size (map format lines) = omega arith in
    let count : length regions % 2 ^ 32 ≡ length regions = omega arith in
    let (left, e) = print_each_lem (map format lines) [] memory fits (omega arith) in
    (rw on rw read rw size refl, (left, rw on rw read rw e rw count refl))
