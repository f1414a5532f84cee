-- ===== src/Ring/Unlink.antt =====
-- Unlinking an entry from the list that holds it.
use vaccel_google_test.Common.{
  ◌≡◌, refl, ◌≢◌, true, false, List, [], ◌∷◌, ◌++◌, some, none, arith, ◌==◌, if◌then◌else◌, has,
  Distinct, has-append, Distinct-delete, not-has-delete, has-split, is_nil, is_nil-snoc,
}
use mathlib.Core.List.{append-nil}
use vaccel_google_test.Common.Memory.{Ptr}
use vaccel_google_test.Ring.{
  Links, list_unlink_entry, list_empty, entry_linked, list_remove_head, list_remove_tail,
}
use vaccel_google_test.Ring.Chain.{
  Chain, IsRing, SameOutside, first_or, has-last_or, has-first_or, Distinct-rotate, has-rotate,
  prev-last_or, next-first_or, Chain-split, frame,
}

module _ (h : Links) (e : Ptr) (apart : h.prev e ≢ e) where
  -- The four stores as one: the entry ends up alone.
  unlink-next :
      (z : Ptr)
      → (list_unlink_entry e h).next z
        ≡ (if e == z then e else if h.prev e == z then h.next e else h.next z)
  unfolding list_unlink_entry
  unlink-next z = ground arith

  unlink-prev :
      (z : Ptr)
      → (list_unlink_entry e h).prev z
        ≡ (if e == z then e else if h.next e == z then h.prev e else h.prev z)
  unfolding list_unlink_entry
  unlink-prev z = ground arith

  unlink-Chain :
      (a : Ptr) (xs ys : List Ptr) (b : Ptr)
      → Chain h a (xs ++ e ∷ ys) b
      → Distinct (a ∷ xs ++ e ∷ ys)
      → Distinct ((xs ++ e ∷ ys) ++ b ∷ [])
      → Chain (list_unlink_entry e h) a (xs ++ ys) b
  unlink-Chain a [] [] b c s t = ground (arith, unlink-next a, unlink-prev b)
  unlink-Chain a [] (y ∷ ys) b c s t = (
    ground (arith, unlink-next a),
    ground (arith, unlink-prev y),
    frame h (list_unlink_entry e h) y ys b c.2.2 (λ z i. ground (arith, unlink-next z))
        (λ z i. ground (arith, unlink-prev z)),
  )
  unlink-Chain a (x ∷ xs) ys b c s t =
      let parts = Chain-split h x xs e ys b c.2 in
      (
        ground (
          arith,
          unlink-next a,
          prev-last_or h x xs e parts.0,
          has-last_or xs x,
          has-append e (x ∷ xs) (e ∷ ys),
          has-append a (x ∷ xs) (e ∷ ys),
        ),
        ground (
          arith,
          unlink-prev x,
          next-first_or h e ys b parts.1,
          has-first_or ys b,
          has-append x xs (e ∷ ys),
          has-append x (xs ++ e ∷ ys) (b ∷ []),
          has-append x ys (b ∷ []),
        ),
        unlink-Chain x xs ys b c.2 s.1 t.1,
      )

module _ {h : Links} {list : Ptr} where
  prev-ne_self : (e : Ptr) (xs ys : List Ptr) → IsRing h list (xs ++ e ∷ ys) → h.prev e ≢ e
  prev-ne_self e xs ys r same = ground (
    arith,
    prev-last_or h list xs e (Chain-split h list xs e ys list r.chain).0,
    has-last_or xs list,
    not-has-delete e (list ∷ xs) ys r.distinct,
    has-append e (list ∷ xs) ys,
  )

  -- `list_unlink_entry` of an entry of a list takes it out of the list, keeps the order of the
  -- others, and leaves the entry alone in a list of its own.
  pub list_unlink_entry-IsRing :
      (e : Ptr) (xs ys : List Ptr)
      → IsRing h list (xs ++ e ∷ ys)
      → IsRing (list_unlink_entry e h) list (xs ++ ys) × IsRing (list_unlink_entry e h) e []
  list_unlink_entry-IsRing e xs ys r = (
    record {
      chain =
          unlink-Chain h e apart list xs ys list r.chain r.distinct
            (Distinct-rotate list (xs ++ e ∷ ys) r.distinct);
      distinct = Distinct-delete e (list ∷ xs) ys r.distinct;
    },
    record {
      chain = ground (arith, unlink-next h e apart e, unlink-prev h e apart e);
      distinct = ground arith;
    },
  )
    where
      apart : h.prev e ≢ e
      apart = prev-ne_self e xs ys r

  -- No link of an entry outside the list is written.
  pub list_unlink_entry-SameOutside :
      (e : Ptr) (xs ys : List Ptr)
      → IsRing h list (xs ++ e ∷ ys)
      → SameOutside (list ∷ xs ++ e ∷ ys) h (list_unlink_entry e h)
  list_unlink_entry-SameOutside e xs ys r p out =
      let parts = Chain-split h list xs e ys list r.chain in
      let apart = prev-ne_self e xs ys r in
      ground (
        arith,
        unlink-next h e apart p,
        unlink-prev h e apart p,
        prev-last_or h list xs e parts.0,
        next-first_or h e ys list parts.1,
        has-last_or xs list,
        has-first_or ys list,
        has-rotate (first_or ys list) list ys,
        has-append p (list ∷ xs) (e ∷ ys),
      )

  -- `list_empty` tells whether the list holds no entry.
  pub list_empty_lem : (xs : List Ptr) → IsRing h list xs → list_empty list h ≡ is_nil xs
  unfolding list_empty
  list_empty_lem [] r = ground arith
  list_empty_lem (x ∷ xs) r = ground arith

  -- An entry of a list is linked, and an entry alone is not.
  pub entry_linked-has :
      (e : Ptr) (xs : List Ptr) → IsRing h list xs → has e xs ≡ true → entry_linked e h ≡ true
  unfolding entry_linked
  entry_linked-has e xs r i =
      let (ys, zs, split) = has-split e xs i in entry_linked-middle ys zs (rw split at r)
    where
      entry_linked-middle :
          (ys zs : List Ptr) → IsRing h list (ys ++ e ∷ zs) → entry_linked e h ≡ true
      entry_linked-middle ys zs r' = ground (
        arith,
        next-first_or h e zs list (Chain-split h list ys e zs list r'.chain).1,
        has-first_or zs list,
        has-rotate (first_or zs list) list zs,
        not-has-delete e (list ∷ ys) zs r'.distinct,
        has-append e (list ∷ ys) zs,
      )

  -- An entry alone in its list is not linked.
  pub entry_linked_alone : IsRing h list [] → entry_linked list h ≡ false
  unfolding entry_linked
  entry_linked_alone r = ground arith

  -- `list_remove_head` returns the first entry and unlinks it.
  pub list_remove_head-IsRing :
      (x : Ptr) (xs : List Ptr)
      → IsRing h list (x ∷ xs)
      → ((list_remove_head list h).0 ≡ some x) × IsRing (list_remove_head list h).1 list xs
  unfolding list_remove_head
  list_remove_head-IsRing x xs r =
      rw (list_empty_lem (x ∷ xs) r, r.chain.0) (refl, (list_unlink_entry-IsRing x [] xs r).0)

  -- `list_remove_tail` returns the last one.
  pub list_remove_tail-IsRing :
      (x : Ptr) (xs : List Ptr)
      → IsRing h list (xs ++ x ∷ [])
      → ((list_remove_tail list h).0 ≡ some x) × IsRing (list_remove_tail list h).1 list xs
  unfolding list_remove_tail
  list_remove_tail-IsRing x xs r =
      let last : h.prev list ≡ x = (Chain-split h list xs x [] list r.chain).1.1 in
      rw (list_empty_lem (xs ++ x ∷ []) r, is_nil-snoc x xs, last)
        (refl, rw append-nil at (list_unlink_entry-IsRing x xs [] r).0)

  -- On a list with no entry both return NULL and write nothing.
  pub list_remove_empty :
      IsRing h list []
      → (list_remove_head list h ≡ (none, h)) × (list_remove_tail list h ≡ (none, h))
  unfolding list_remove_head list_remove_tail
  list_remove_empty r = rw (list_empty_lem [] r) (refl, refl)
