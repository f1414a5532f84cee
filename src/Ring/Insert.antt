-- ===== src/Ring/Insert.antt =====
-- Linking an entry into a list.
use vaccel_google_test.Common.{
  ◌≡◌, refl, ◌∙◌, false, List, [], ◌∷◌, ◌++◌, arith, has, Distinct, has-append, Distinct-insert,
}
use mathlib.Core.List.{append-nil}
use vaccel_google_test.Common.Memory.{Ptr}
use vaccel_google_test.Ring.{Links, list_link_entry, list_add_head, list_add_tail}
use vaccel_google_test.Ring.Chain.{
  Chain, IsRing, SameOutside, last_or, first_or, has-last_or, has-first_or, Distinct-rotate,
  has-rotate, prev-last_or, next-first_or, frame,
}

module _ (h : Links) (e p q : Ptr) where
  -- Between the last entry of `xs` and the first of `ys`.
  link-Chain :
      (a : Ptr) (xs ys : List Ptr) (b : Ptr)
      → Chain h a (xs ++ ys) b
      → Distinct (a ∷ xs ++ ys)
      → Distinct ((xs ++ ys) ++ b ∷ [])
      → has e (a ∷ xs ++ ys) ≡ false
      → has e ((xs ++ ys) ++ b ∷ []) ≡ false
      → p ≡ last_or xs a
      → q ≡ first_or ys b
      → Chain (list_link_entry e p q h) a (xs ++ e ∷ ys) b
  unfolding list_link_entry
  link-Chain a [] [] b c s t f g k l = ground arith
  link-Chain a [] (y ∷ ys) b c s t f g k l = (
    ground arith,
    ground arith,
    (
      ground arith,
      ground arith,
      frame h (list_link_entry e p q h) y ys b c.2 (λ z i. ground arith) (λ z i. ground arith),
    ),
  )
  link-Chain a (x ∷ xs) ys b c s t f g k l = (
    ground (arith, has-last_or xs x, has-append p (x ∷ xs) ys),
    ground (
      arith,
      has-append q xs ys,
      has-first_or ys b,
      has-append q (xs ++ ys) (b ∷ []),
      has-append q ys (b ∷ []),
    ),
    link-Chain x xs ys b c.2 s.1 t.1 (ground arith) (ground arith) k l,
  )

module _ {h : Links} {list : Ptr} where
  link-IsRing :
      (e p q : Ptr) (xs ys : List Ptr)
      → IsRing h list (xs ++ ys)
      → has e (list ∷ xs ++ ys) ≡ false
      → p ≡ last_or xs list
      → q ≡ first_or ys list
      → IsRing (list_link_entry e p q h) list (xs ++ e ∷ ys)
  link-IsRing e p q xs ys r new k l = record {
    chain =
        link-Chain h e p q list xs ys list r.chain r.distinct
          (Distinct-rotate list (xs ++ ys) r.distinct) new (has-rotate e list (xs ++ ys) ∙ new) k l;
    distinct = ground (
      arith,
      Distinct-insert e xs ys r.distinct.1,
      has-append list xs (e ∷ ys),
      has-append list xs ys,
    );
  }

  -- `list_add_tail` puts an entry that a list does not hold, and that is not its head, behind the
  -- others.
  list_add_tail-IsRing :
      (e : Ptr) (xs : List Ptr)
      → IsRing h list xs
      → has e (list ∷ xs) ≡ false
      → IsRing (list_add_tail list e h) list (xs ++ e ∷ [])
  unfolding list_add_tail
  list_add_tail-IsRing e xs r new =
      link-IsRing e (h.prev list) list xs [] (rw append-nil r) (rw append-nil new)
        (prev-last_or h list xs list r.chain) refl

  -- `list_add_head` puts an entry that a list does not hold, and that is not its head, in front
  -- of the others.
  pub list_add_head-IsRing :
      (e : Ptr) (xs : List Ptr)
      → IsRing h list xs
      → has e (list ∷ xs) ≡ false
      → IsRing (list_add_head list e h) list (e ∷ xs)
  unfolding list_add_head
  list_add_head-IsRing e xs r new =
      link-IsRing e list (h.next list) [] xs r new refl (next-first_or h list xs list r.chain)

  -- No link but those of the list and of the entry is written.
  pub list_add_tail-SameOutside :
      (e : Ptr) (xs : List Ptr)
      → IsRing h list xs
      → SameOutside (e ∷ list ∷ xs) h (list_add_tail list e h)
  unfolding list_add_tail list_link_entry
  list_add_tail-SameOutside e xs r p out =
      ground (arith, prev-last_or h list xs list r.chain, has-last_or xs list)
