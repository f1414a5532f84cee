-- ===== src/Resources/Ids.antt =====
-- The ids of a list of resources, and pools that serve them.
use vaccel_google_test.Common.{
  ℕ, suc, ◌≡◌, refl, ap, sym, ◌∙◌, inl, inr, Bool-cases, true, false, List, [], ◌∷◌, ◌++◌, map,
  arith, ◌==◌, has, has-append, remove, remove_absent, Distinct, length,
}
use vaccel_google_test.IdPool.{IdPool}
use vaccel_google_test.IdPool.Invariant.{Serves, free}

pub map-snoc : (f : ℕ → ℕ) (xs : List ℕ) (a : ℕ) → map f (xs ++ a ∷ []) ≡ map f xs ++ f a ∷ []
map-snoc f [] a = refl
map-snoc f (x ∷ xs) a = ap (λ l. f x ∷ l) (map-snoc f xs a)

pub length-map : (f : ℕ → ℕ) (xs : List ℕ) → length (map f xs) ≡ length xs
length-map f [] = refl
length-map f (x ∷ xs) = ap suc (length-map f xs)

-- Ids do not change with what is not in the list.
pub map-frame :
    (f g : ℕ → ℕ) (xs : List ℕ) → ((a : ℕ) → has a xs ≡ true → g a ≡ f a) → map g xs ≡ map f xs
map-frame f g [] h = refl
map-frame f g (x ∷ xs) h = ground (arith, h x, map-frame f g xs (λ a i. h a (ground arith)))

pub has-map : (f : ℕ → ℕ) (a : ℕ) (xs : List ℕ) → has a xs ≡ true → has (f a) (map f xs) ≡ true
has-map f a [] i = cc
has-map f a (x ∷ xs) i = ground (arith, has-map f a xs)

pub Distinct-of_map : (f : ℕ → ℕ) (xs : List ℕ) → Distinct (map f xs) → Distinct xs
Distinct-of_map f [] d = tt
Distinct-of_map f (x ∷ xs) d = (ground (arith, d.0, has-map f x xs), Distinct-of_map f xs d.1)

pub map-remove :
    (f : ℕ → ℕ) (a : ℕ) (xs : List ℕ)
    → Distinct (map f xs)
    → has a xs ≡ true
    → map f (remove a xs) ≡ remove (f a) (map f xs)
map-remove f a [] d i = refl
map-remove f a (x ∷ xs) d i = elim (Bool-cases (x == a)) [
  | inl hit ↦ ground (
    arith,
    hit,
    d.0,
    (Distinct-of_map f (x ∷ xs) d).0,
    remove_absent a xs,
    remove_absent (f a) (map f xs),
  )
  | inr miss ↦ ground (arith, miss, d.0, has-map f a xs, map-remove f a xs d.1)
]

pub Distinct-apart :
    (xs ys : List ℕ) → Distinct (xs ++ ys) → (a : ℕ) → has a ys ≡ true → has a xs ≡ false
Distinct-apart [] ys d a i = refl
Distinct-apart (x ∷ xs) ys d a i =
    ground (arith, has-append a xs ys, Distinct-apart xs ys d.1 a i, d.0)

Distinct-join :
    (xs ys zs : List ℕ)
    → Distinct (xs ++ ys)
    → Distinct zs
    → ((a : ℕ) → has a zs ≡ true → has a ys ≡ true)
    → Distinct (xs ++ zs)
Distinct-join [] ys zs d e h = e
Distinct-join (x ∷ xs) ys zs d e h = (
  ground (arith, has-append x xs ys, has-append x xs zs, h x, d.0),
  Distinct-join xs ys zs d.1 e h,
)

-- The order in which the held ids are listed does not matter.
pub Serves-reorder :
    {pool : IdPool} (xs ys : List ℕ)
    → Serves pool xs
    → Distinct ys
    → ((a : ℕ) → has a ys ≡ has a xs)
    → length ys ≡ length xs
    → Serves pool ys
Serves-reorder {pool} xs ys s d same count = record {
  size = s.size;
  int = s.int;
  counted = s.counted ∙ sym count;
  within = ground (arith, s.within, count);
  distinct = Distinct-join (free pool) xs ys s.distinct d (λ a i. sym (same a) ∙ i);
  bounds = λ a i.
      s.bounds a (ground (arith, has-append a (free pool) xs, has-append a (free pool) ys, same a));
}
