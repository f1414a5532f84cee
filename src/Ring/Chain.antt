-- ===== src/Ring/Chain.antt =====
-- What a list of src/list.h stands for: the entries between two ends, linked both ways.
use vaccel_google_test.Common.{
  ◌≡◌, false, true, List, [], ◌∷◌, ◌++◌, arith, has, Distinct, has-append, append-Distinct,
}
use vaccel_google_test.Common.Memory.{Ptr}
use vaccel_google_test.Ring.{Links}

-- From `a` the `next` links lead through `xs` to `b`, and the `prev` links lead back.
abbrev pub Chain : Links → Ptr → List Ptr → Ptr → Type 0
Chain h a [] b = (h.next a ≡ b) × (h.prev b ≡ a)
Chain h a (x ∷ xs) b = (h.next a ≡ x) × (h.prev x ≡ a) × Chain h x xs b

-- The list headed by `list` holds the entries `xs`, in this order and none twice.
pub record IsRing (h : Links) (list : Ptr) (xs : List Ptr) : Type 0 where
  pub chain : Chain h list xs list
  pub distinct : Distinct (list ∷ xs)

-- The links of every entry but those of `ps` are as they were.
abbrev pub SameOutside : List Ptr → Links → Links → Type 0
SameOutside ps h g = (p : Ptr) → has p ps ≡ false → (g.next p ≡ h.next p) × (g.prev p ≡ h.prev p)

-- The entry in front of the place behind `xs`, and the one behind the place in front of `ys`.
abbrev pub last_or : List Ptr → Ptr → Ptr
last_or [] a = a
last_or (x ∷ xs) a = last_or xs x

abbrev pub first_or : List Ptr → Ptr → Ptr
first_or [] b = b
first_or (y ∷ ys) b = y

pub has-last_or : (xs : List Ptr) (a : Ptr) → has (last_or xs a) (a ∷ xs) ≡ true
has-last_or [] a = ground arith
has-last_or (x ∷ xs) a = ground (arith, has-last_or xs x)

pub has-first_or : (ys : List Ptr) (b : Ptr) → has (first_or ys b) (ys ++ b ∷ []) ≡ true
has-first_or [] b = ground arith
has-first_or (y ∷ ys) b = ground arith

pub next-first_or :
    (h : Links) (a : Ptr) (ys : List Ptr) (b : Ptr) → Chain h a ys b → h.next a ≡ first_or ys b
next-first_or h a [] b c = c.0
next-first_or h a (y ∷ ys) b c = c.0

pub prev-last_or :
    (h : Links) (a : Ptr) (xs : List Ptr) (b : Ptr) → Chain h a xs b → h.prev b ≡ last_or xs a
prev-last_or h a [] b c = c.1
prev-last_or h a (x ∷ xs) b c = prev-last_or h x xs b c.2

-- A list has one head and its entries once, also when the head is counted as the last.
pub Distinct-rotate : (a : Ptr) (xs : List Ptr) → Distinct (a ∷ xs) → Distinct (xs ++ a ∷ [])
Distinct-rotate a xs d = append-Distinct a xs d.1 d.0

pub has-rotate : (p a : Ptr) (xs : List Ptr) → has p (xs ++ a ∷ []) ≡ has p (a ∷ xs)
has-rotate p a xs = ground (arith, has-append p xs (a ∷ []))

pub Chain-append :
    (h : Links) (a : Ptr) (xs : List Ptr) (y : Ptr) (ys : List Ptr) (b : Ptr)
    → Chain h a xs y
    → Chain h y ys b
    → Chain h a (xs ++ y ∷ ys) b
Chain-append h a [] y ys b c d = (c.0, c.1, d)
Chain-append h a (x ∷ xs) y ys b c d = (c.0, c.1, Chain-append h x xs y ys b c.2 d)

pub Chain-split :
    (h : Links) (a : Ptr) (xs : List Ptr) (y : Ptr) (ys : List Ptr) (b : Ptr)
    → Chain h a (xs ++ y ∷ ys) b
    → Chain h a xs y × Chain h y ys b
Chain-split h a [] y ys b c = ((c.0, c.1), c.2)
Chain-split h a (x ∷ xs) y ys b c = let r = Chain-split h x xs y ys b c.2 in ((c.0, c.1, r.0), r.1)

-- A chain survives a change that spares the `next` links of its sources and the `prev` links of
-- its targets.
pub frame :
    (h g : Links) (a : Ptr) (xs : List Ptr) (b : Ptr)
    → Chain h a xs b
    → ((p : Ptr) → has p (a ∷ xs) ≡ true → g.next p ≡ h.next p)
    → ((p : Ptr) → has p (xs ++ b ∷ []) ≡ true → g.prev p ≡ h.prev p)
    → Chain g a xs b
frame h g a [] b c n p = (ground (arith, n a), ground (arith, p b))
frame h g a (x ∷ xs) b c n p = (
  ground (arith, n a),
  ground (arith, p x),
  frame h g x xs b c.2 (λ q i. n q (ground arith)) (λ q i. p q (ground arith)),
)

-- A list none of whose entries is touched stays as it was.
pub frame-IsRing :
    (ps : List Ptr) (h g : Links) (list : Ptr) (xs : List Ptr)
    → IsRing h list xs
    → SameOutside ps h g
    → ((p : Ptr) → has p (list ∷ xs) ≡ true → has p ps ≡ false)
    → IsRing g list xs
frame-IsRing ps h g list xs r same apart = record {
  chain =
      frame h g list xs list r.chain (λ p i. (same p (apart p i)).0)
        (λ p i. (same p (apart p (ground (arith, has-append p xs (list ∷ []))))).1);
  distinct = r.distinct;
}
