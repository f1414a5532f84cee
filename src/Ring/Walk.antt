-- ===== src/Ring/Walk.antt =====
-- The loops over a list.
use vaccel_google_test.Common.{
  ℕ, zero, suc, ◌<◌, ◌≡◌, refl, true, false, some, List, [], ◌∷◌, arith, has, length,
}
use vaccel_google_test.Common.Memory.{Ptr}
use vaccel_google_test.Ring.{
  Links, entry_linked, list_unlink_entry, visit, for_each, drain, drain_all,
}
use vaccel_google_test.Ring.Chain.{Chain, IsRing, SameOutside, first_or, next-first_or}
use vaccel_google_test.Ring.Unlink.{
  list_unlink_entry-IsRing, list_unlink_entry-SameOutside, entry_linked_alone,
}

visit-Chain :
    (k : ℕ) (h : Links) (list a : Ptr) (xs : List Ptr)
    → Chain h a xs list
    → has list xs ≡ false
    → length xs < k
    → visit k list (first_or xs list) h ≡ some xs
unfolding visit
visit-Chain zero h list a xs c out fuel = absurd (omega arith)
visit-Chain (suc k) h list a [] c out fuel = ground arith
visit-Chain (suc k) h list a (x ∷ xs) c out fuel =
    ground (arith, visit-Chain k h list x xs c.2, next-first_or h x xs list c.2)

-- On a list of fewer entries than the fuel, `for_each` ends, and has visited exactly the entries
-- of the list, in order.
for_each-IsRing :
    (fuel : ℕ) {h : Links} {list : Ptr} {xs : List Ptr}
    → IsRing h list xs
    → length xs < fuel
    → for_each fuel list h ≡ some xs
unfolding for_each
for_each-IsRing fuel {h} {list} {xs} r enough = ground (
  arith,
  next-first_or h list xs list r.chain,
  visit-Chain fuel h list list xs r.chain r.distinct.0 enough,
)

-- What unlinking every entry leaves: an empty list, each entry alone, all else as it was.
pub record Drained (h : Links) (list : Ptr) (xs : List Ptr) (g : Links) : Type 0 where
  pub empty : IsRing g list []
  pub alone : (p : Ptr) → has p xs ≡ true → entry_linked p g ≡ false
  pub same : SameOutside (list ∷ xs) h g

Drained-cons :
    (h g : Links) (list x : Ptr) (xs : List Ptr)
    → IsRing h list (x ∷ xs)
    → Drained (list_unlink_entry x h) list xs g
    → Drained h list (x ∷ xs) g
unfolding entry_linked
Drained-cons h g list x xs r d = record {
  empty = d.empty;
  alone = λ p i. ground (
    arith,
    d.alone p,
    d.same x,
    entry_linked_alone (list_unlink_entry-IsRing x [] xs r).1,
    r.distinct,
  );
  same = λ p out. ground (arith, d.same p, list_unlink_entry-SameOutside x [] xs r p);
}

drain-IsRing :
    (k : ℕ) (h : Links) (list tmp : Ptr) (xs : List Ptr)
    → IsRing h list xs
    → tmp ≡ h.next (first_or xs list)
    → length xs < k
    → (g : Links) × (drain k list (first_or xs list) tmp h ≡ some g) × Drained h list xs g
unfolding drain
drain-IsRing zero h list tmp xs r t fuel = absurd (omega arith)
drain-IsRing (suc k) h list tmp [] r t fuel =
    (h, ground arith, record { empty = r; alone = λ p i. cc; same = λ p out. (refl, refl) })
drain-IsRing (suc k) h list tmp (x ∷ xs) r t fuel =
    let h' = list_unlink_entry x h in
    let (g, e, d) =
      drain-IsRing k h' list (h'.next (first_or xs list)) xs (list_unlink_entry-IsRing x [] xs r).0
        refl (omega arith) in
    (
      g,
      ground (arith, e, next-first_or h x xs list r.chain.2, r.distinct),
      Drained-cons h g list x xs r d,
    )

-- On a list of fewer entries than the fuel, the safe loop whose body unlinks the entry that it
-- visits ends, and leaves the list empty, every entry alone, and the links of all else unchanged.
pub drain_all-Drained :
    (fuel : ℕ) {h : Links} {list : Ptr} {xs : List Ptr}
    → IsRing h list xs
    → length xs < fuel
    → (g : Links) × (drain_all fuel list h ≡ some g) × Drained h list xs g
unfolding drain_all
drain_all-Drained fuel {h} {list} {xs} r enough =
    rw (next-first_or h list xs list r.chain)
      (drain-IsRing fuel h list (h.next (first_or xs list)) xs r refl enough)
