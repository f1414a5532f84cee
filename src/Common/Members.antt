-- ===== src/Common/Members.antt =====
-- Membership as a test, lists with no value twice, and removal.
use Prim.Native.Nat.{ℕ, ◌≤◌, ◌<◌}
use mathlib.Core.Path.{◌≡◌, refl, ap}
use mathlib.Core.Logic.{◌≢◌, inl, inr}
use mathlib.Core.Bool.{Bool, true, false, ◌||◌, ◌&&◌, not}
use mathlib.Core.List.{List, [], ◌∷◌, ◌++◌}
use native.Mathlib.Omega.{arith}
use vaccel_google_test.Common.Lists.{length}
use vaccel_google_test.Common.Tests.{◌==◌, ==_iff, if◌then◌else◌, Bool-cases}

abbrev pub has : ℕ → List ℕ → Bool
has a [] = false
has a (x ∷ xs) = (x == a) || has a xs

abbrev pub Distinct : List ℕ → Type 0
Distinct [] = Unit {0}
Distinct (x ∷ xs) = (has x xs ≡ false) × Distinct xs

-- `xs` without the value `a`, every occurrence of it.
abbrev pub remove : ℕ → List ℕ → List ℕ
remove a [] = []
remove a (x ∷ xs) = if x == a then remove a xs else x ∷ remove a xs

pub has-append : (a : ℕ) (xs ys : List ℕ) → has a (xs ++ ys) ≡ (has a xs || has a ys)
has-append a [] ys = refl
has-append a (x ∷ xs) ys = ground (arith, has-append a xs ys)

pub has-remove_self : (a : ℕ) (xs : List ℕ) → has a (remove a xs) ≡ false
has-remove_self a [] = refl
has-remove_self a (x ∷ xs) = ground (arith, has-remove_self a xs)

pub has-remove_ne : (a b : ℕ) (xs : List ℕ) → b ≢ a → has b (remove a xs) ≡ has b xs
has-remove_ne a b [] h = refl
has-remove_ne a b (x ∷ xs) h = ground (arith, has-remove_ne a b xs)

pub has-remove-le : (a b : ℕ) (xs : List ℕ) → has b xs ≡ false → has b (remove a xs) ≡ false
has-remove-le a b [] h = refl
has-remove-le a b (x ∷ xs) h = ground (arith, has-remove-le a b xs)

pub remove_absent : (a : ℕ) (xs : List ℕ) → has a xs ≡ false → remove a xs ≡ xs
remove_absent a [] h = refl
remove_absent a (x ∷ xs) h = ground (arith, remove_absent a xs)

pub remove-append : (a : ℕ) (xs ys : List ℕ) → remove a (xs ++ ys) ≡ remove a xs ++ remove a ys
remove-append a [] ys = refl
remove-append a (x ∷ xs) ys = ground (arith, remove-append a xs ys)

pub remove-Distinct : (a : ℕ) (xs : List ℕ) → Distinct xs → Distinct (remove a xs)
remove-Distinct a [] d = tt
remove-Distinct a (x ∷ xs) d = ground (arith, remove-Distinct a xs d.1, has-remove-le a x xs d.0)

pub append-Distinct :
    (a : ℕ) (xs : List ℕ) → Distinct xs → has a xs ≡ false → Distinct (xs ++ a ∷ [])
append-Distinct a [] d h = (refl, tt)
append-Distinct a (x ∷ xs) d h =
    (ground (arith, has-append x xs (a ∷ [])), append-Distinct a xs d.1 (ground arith))

pub Distinct-insert :
    (a : ℕ) (xs ys : List ℕ)
    → Distinct (xs ++ ys)
    → has a (xs ++ ys) ≡ false
    → Distinct (xs ++ a ∷ ys)
Distinct-insert a [] ys d h = (h, d)
Distinct-insert a (x ∷ xs) ys d h = (
  ground (arith, has-append x xs ys, has-append x xs (a ∷ ys)),
  Distinct-insert a xs ys d.1 (ground arith),
)

pub Distinct-delete : (a : ℕ) (xs ys : List ℕ) → Distinct (xs ++ a ∷ ys) → Distinct (xs ++ ys)
Distinct-delete a [] ys d = d.1
Distinct-delete a (x ∷ xs) ys d =
    (ground (arith, has-append x xs ys, has-append x xs (a ∷ ys)), Distinct-delete a xs ys d.1)

pub not-has-delete : (a : ℕ) (xs ys : List ℕ) → Distinct (xs ++ a ∷ ys) → has a (xs ++ ys) ≡ false
not-has-delete a [] ys d = d.0
not-has-delete a (x ∷ xs) ys d =
    ground (arith, has-append x xs (a ∷ ys), not-has-delete a xs ys d.1)

-- In a list without repetition the one occurrence is removed.
pub remove_middle :
    (a : ℕ) (xs ys : List ℕ) → Distinct (xs ++ a ∷ ys) → remove a (xs ++ a ∷ ys) ≡ xs ++ ys
remove_middle a [] ys d = ground (arith, remove_absent a ys)
remove_middle a (x ∷ xs) ys d = ground (arith, has-append x xs (a ∷ ys), remove_middle a xs ys d.1)

abbrev pub is_nil : List ℕ → Bool
is_nil [] = true
is_nil (x ∷ xs) = false

-- A member stands somewhere.
pub has-split : (a : ℕ) (xs : List ℕ) → has a xs ≡ true → (ys zs : List ℕ) × (xs ≡ ys ++ a ∷ zs)
has-split a [] h = cc
has-split a (x ∷ xs) h = elim (Bool-cases (x == a)) [
  | inl hit ↦ ([], xs, ap (λ y. y ∷ xs) ((==_iff x a).0 hit))
  | inr miss ↦ let (ys, zs, e) = has-split a xs (ground arith) in (x ∷ ys, zs, ap (λ l. x ∷ l) e)
]

pub is_nil-snoc : (a : ℕ) (xs : List ℕ) → is_nil (xs ++ a ∷ []) ≡ false
is_nil-snoc a [] = refl
is_nil-snoc a (x ∷ xs) = refl

pub Distinct-right : (xs ys : List ℕ) → Distinct (xs ++ ys) → Distinct ys
Distinct-right [] ys d = d
Distinct-right (x ∷ xs) ys d = Distinct-right xs ys d.1

pub length_pos_of_has : (a : ℕ) (xs : List ℕ) → has a xs ≡ true → 1 ≤ length xs
length_pos_of_has a [] h = cc
length_pos_of_has a (x ∷ xs) h = omega arith

length-remove-le : (a : ℕ) (xs : List ℕ) → length (remove a xs) ≤ length xs
length-remove-le a [] = omega arith
length-remove-le a (x ∷ xs) = ground (arith, length-remove-le a xs)

pub length-remove-lt : (a : ℕ) (xs : List ℕ) → has a xs ≡ true → length (remove a xs) < length xs
length-remove-lt a [] h = cc
length-remove-lt a (x ∷ xs) h = ground (arith, length-remove-lt a xs, length-remove-le a xs)

-- Membership after a removal, with no side condition.
pub has-remove : (a b : ℕ) (xs : List ℕ) → has b (remove a xs) ≡ (has b xs && not (a == b))
has-remove a b [] = refl
has-remove a b (x ∷ xs) = ground (arith, has-remove a b xs)

pub is_nil_of_no_has : (xs : List ℕ) → ((a : ℕ) → has a xs ≡ false) → xs ≡ []
is_nil_of_no_has [] h = refl
is_nil_of_no_has (x ∷ xs) h = ground (arith, h x)
