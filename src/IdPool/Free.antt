-- ===== src/IdPool/Free.antt =====
-- The ids that a pool still has to give, in the order in which it gives them.
use vaccel_google_test.Common.{
  ℕ, zero, suc, ◌+◌, ◌≤◌, ◌<◌, ◌≡◌, refl, ◌≢◌, true, List, [], ◌∷◌, arith, ◌==◌, if◌then◌else◌, has,
  Distinct, length, get_or, set, replicate,
}

-- What slot `i` gives: its own number if it was never used.
abbrev pub slot_id : ℕ → ℕ → ℕ
slot_id i x = if x == 0 then i + 1 else x

-- The ids of the slots behind the first `k`, where the list starts with slot `i`.
abbrev pub free_ids : (i k : ℕ) → List ℕ → List ℕ
free_ids i k [] = []
free_ids i zero (x ∷ xs) = slot_id i x ∷ free_ids (suc i) zero xs
free_ids i (suc k) (x ∷ xs) = free_ids (suc i) k xs

pub free_ids-next :
    (i k : ℕ) (xs : List ℕ)
    → k < length xs
    → free_ids i k xs ≡ slot_id (i + k) (get_or xs k 0) ∷ free_ids i (suc k) xs
free_ids-next i k [] h = elim h [ ]
free_ids-next i zero (x ∷ xs) h = ground arith
free_ids-next i (suc k) (x ∷ xs) h = ground (arith, free_ids-next (suc i) k xs)

pub free_ids-set_before :
    (i k v : ℕ) (xs : List ℕ) → free_ids i (suc k) (set xs k v) ≡ free_ids i (suc k) xs
free_ids-set_before i k v [] = refl
free_ids-set_before i zero v (x ∷ xs) = refl
free_ids-set_before i (suc k) v (x ∷ xs) = free_ids-set_before (suc i) k v xs

pub free_ids-set_here :
    (i k v : ℕ) (xs : List ℕ)
    → v ≢ 0
    → k < length xs
    → free_ids i k (set xs k v) ≡ v ∷ free_ids i (suc k) xs
free_ids-set_here i k v [] n h = elim h [ ]
free_ids-set_here i zero v (x ∷ xs) n h = ground arith
free_ids-set_here i (suc k) v (x ∷ xs) n h = free_ids-set_here (suc i) k v xs n (omega arith)

pub free_ids_new_bounds :
    (i n a : ℕ) → has a (free_ids i 0 (replicate n 0)) ≡ true → (i < a) × (a ≤ i + n)
free_ids_new_bounds i zero a h = cc
free_ids_new_bounds i (suc n) a h = ground (arith, free_ids_new_bounds (suc i) n a)

pub free_ids_new-Distinct : (i n : ℕ) → Distinct (free_ids i 0 (replicate n 0))
free_ids_new-Distinct i zero = tt
free_ids_new-Distinct i (suc n) =
    (ground (arith, free_ids_new_bounds (suc i) n (i + 1)), free_ids_new-Distinct (suc i) n)
