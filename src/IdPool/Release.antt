-- ===== src/IdPool/Release.antt =====
-- Giving an id back.
use mathlib.Core.List.{append_assoc}
use vaccel_google_test.Common.{
  ℕ, suc, ◌+◌, ◌-◌, ◌%◌, ◌^◌, ◌≤◌, ◌<◌, ◌≡◌, refl, ap, subst, sym, ◌∙◌, true, List, ◌∷◌, ◌++◌,
  arith, has, has-append, remove, remove_middle, has-split, Distinct, Distinct-delete,
  not-has-delete, Distinct-right, length, length-append, length-set, set,
}
use vaccel_google_test.Common.Memory.{ok}
use vaccel_google_test.IdPool.{IdPool, id_pool_release}
use vaccel_google_test.IdPool.Free.{free_ids, free_ids-set_here}
use vaccel_google_test.IdPool.Invariant.{free, Serves, held_bounds}

length-split : (a : ℕ) (xs ys : List ℕ) → length (xs ++ a ∷ ys) ≡ suc (length (xs ++ ys))
length-split a xs ys = omega (arith, length-append xs (a ∷ ys), length-append xs ys)

abbrev returned : ℕ → IdPool → IdPool
returned id pool = record pool { ids = set pool.ids (pool.next - 1) id; next = pool.next - 1 }

id_pool_release-returned :
    (id : ℕ) (pool : IdPool)
    → length pool.ids ≡ pool.max
    → pool.max < 2 ^ 31
    → 1 ≤ id
    → id ≤ pool.max
    → 1 ≤ pool.next
    → pool.next ≤ pool.max
    → id_pool_release id pool ≡ ok (returned id pool)
unfolding id_pool_release
id_pool_release-returned id pool size int low high used room =
    let wrap : (pool.next + (2 ^ 32 - 1)) % 2 ^ 32 ≡ pool.next - 1 = omega arith in
    rw wrap (ground arith)

free-returned :
    (id n : ℕ) (ids : List ℕ)
    → 1 ≤ id
    → 1 ≤ n
    → n ≤ length ids
    → free_ids 0 (n - 1) (set ids (n - 1) id) ≡ id ∷ free_ids 0 n ids
free-returned id n ids low used room =
    let e : suc (n - 1) ≡ n = omega arith in
    free_ids-set_here 0 (n - 1) id ids (omega arith) (omega arith)
    ∙ ap (λ k. id ∷ free_ids 0 k ids) e

returned-Serves :
    (id : ℕ) (pool : IdPool) (xs ys : List ℕ)
    → Serves pool (xs ++ id ∷ ys)
    → (1 ≤ id) × (id ≤ pool.max)
    → Serves (returned id pool) (xs ++ ys)
returned-Serves id pool xs ys s range = record {
  size = length-set pool.ids (pool.next - 1) id ∙ s.size;
  int = s.int;
  counted = omega (arith, s.counted, count);
  within = omega (arith, s.within, count);
  distinct = rw front (
    not-has-delete id (free pool ++ xs) ys apart',
    Distinct-delete id (free pool ++ xs) ys apart',
  );
  bounds = λ a i. s.bounds a (has-moved a (rw front at i));
}
  where
    count : length (xs ++ id ∷ ys) ≡ suc (length (xs ++ ys))
    count = length-split id xs ys

    front : free (returned id pool) ++ (xs ++ ys) ≡ id ∷ (free pool ++ xs) ++ ys
    front =
        ap (λ l. l ++ (xs ++ ys))
          (free-returned id pool.next pool.ids range.0 (omega (arith, s.counted, count))
            (omega (arith, s.within, s.counted, s.size)))
        ∙ ap (λ l. id ∷ l) (sym (append_assoc (free pool) xs ys))

    apart' : Distinct ((free pool ++ xs) ++ id ∷ ys)
    apart' = rw append_assoc s.distinct

    has-moved :
        (a : ℕ)
        → has a (id ∷ (free pool ++ xs) ++ ys) ≡ true
        → has a (free pool ++ (xs ++ id ∷ ys)) ≡ true
    has-moved a i = ground (
      arith,
      has-append a (free pool ++ xs) ys,
      has-append a (free pool) xs,
      has-append a (free pool) (xs ++ id ∷ ys),
      has-append a xs (id ∷ ys),
    )

-- In a pool that serves its holders an id that is held can be released: the call runs, the id is
-- the next one to be given, nobody holds it any more, and all other ids stay with their holders.
pub id_pool_release-Serves :
    (id : ℕ) (pool : IdPool) (held : List ℕ)
    → Serves pool held
    → has id held ≡ true
    → (pool' : IdPool) × (id_pool_release id pool ≡ ok pool')
      × Serves pool' (remove id held)
      × (free pool' ≡ id ∷ free pool)
      × (pool'.max ≡ pool.max)
id_pool_release-Serves id pool held s holds =
    let (xs, ys, e) = has-split id held holds in
    let s' : Serves pool (xs ++ id ∷ ys) = subst (Serves pool) e s in
    let range = held_bounds id s holds in
    let count = length-split id xs ys in
    let apart = Distinct-right (free pool) (xs ++ id ∷ ys) s'.distinct in
    (
      returned id pool,
      id_pool_release-returned id pool s.size s.int range.0 range.1 (omega (arith, s'.counted))
          (omega arith),
      rw (e, remove_middle id xs ys apart) (returned-Serves id pool xs ys s' range),
      free-returned id pool.next pool.ids range.0 (omega (arith, s'.counted)) (omega arith),
      refl,
    )
