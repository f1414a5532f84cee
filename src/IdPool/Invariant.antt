-- ===== src/IdPool/Invariant.antt =====
-- The pool and the ids that its callers hold.
use native.Mathlib.Numerals.{add-one}
use mathlib.Core.List.{append-nil}
use vaccel_google_test.Common.{
  ℕ, ◌+◌, ◌^◌, ◌≤◌, ◌<◌, ◌%◌, ◌≡◌, refl, ap, subst, inl, inr, Bool-cases, true, false,
  if◌then◌else◌, set, List, [], ◌∷◌, ◌++◌, arith, ◌==◌, has, has-append, Distinct, Distinct-insert,
  length, length-set, length-replicate, get_or, replicate,
}
use vaccel_google_test.Common.Code.{vaccel_ok}
use vaccel_google_test.Common.Memory.{ok}
use vaccel_google_test.IdPool.{IdPool, id_pool_new, id_pool_get}
use vaccel_google_test.IdPool.Free.{
  slot_id, free_ids, free_ids-next, free_ids-set_before, free_ids_new_bounds, free_ids_new-Distinct,
}

abbrev pub free : IdPool → List ℕ
free pool = free_ids 0 pool.next pool.ids

-- Every id of 1..max is either free or held, by one holder.
pub record Serves (pool : IdPool) (held : List ℕ) : Type 0 where
  pub size : length pool.ids ≡ pool.max
  pub int : pool.max < 2 ^ 31
  pub counted : pool.next ≡ length held
  pub within : length held ≤ pool.max
  pub distinct : Distinct (free pool ++ held)
  pub bounds : (a : ℕ) → has a (free pool ++ held) ≡ true → (1 ≤ a) × (a ≤ pool.max)

pub held_bounds :
    {pool : IdPool} {held : List ℕ} (id : ℕ)
    → Serves pool held
    → has id held ≡ true
    → (1 ≤ id) × (id ≤ pool.max)
held_bounds {pool} {held} id s holds = s.bounds id (ground (arith, has-append id (free pool) held))

abbrev pub fresh : ℕ → IdPool
fresh n = record { ids = replicate n 0; max = n; next = 0 }

pub id_pool_new-fresh :
    (n : ℕ) (pool : IdPool) → 1 ≤ n → id_pool_new n true pool ≡ (vaccel_ok, fresh n)
unfolding id_pool_new
id_pool_new-fresh n pool h = ground arith

fresh-Serves : (n : ℕ) → n < 2 ^ 31 → Serves (fresh n) []
fresh-Serves n b = record {
  size = length-replicate n 0;
  int = b;
  counted = refl;
  within = omega arith;
  distinct = rw append-nil (free_ids_new-Distinct 0 n);
  bounds = λ a i. omega (arith, free_ids_new_bounds 0 n a (rw append-nil at i));
}

-- A new pool serves the ids from 1 to the number asked for, and nobody holds any.
pub id_pool_new-Serves :
    (n : ℕ) (pool : IdPool)
    → 1 ≤ n
    → n < 2 ^ 31
    → ((id_pool_new n true pool).0 ≡ vaccel_ok) × Serves (id_pool_new n true pool).1 []
id_pool_new-Serves n pool h b = rw (id_pool_new-fresh n pool h) (refl, fresh-Serves n b)

-- What a successful call of `id_pool_get` returns.
pub record Got (pool : IdPool) (held : List ℕ) (id : ℕ) (pool' : IdPool) : Type 0 where
  pub runs : id_pool_get pool ≡ ok (id, pool')
  pub fresh : has id held ≡ false
  pub bounds : (1 ≤ id) × (id ≤ pool.max)
  pub serves : Serves pool' (id ∷ held)
  pub keeps : pool'.max ≡ pool.max

-- The pool after `id_pool_get` has used the slot `pool.next`.
abbrev pub taken : IdPool → IdPool
taken pool = record pool {
  ids =
      if get_or pool.ids pool.next 0 == 0 then set pool.ids pool.next (pool.next + 1) else pool.ids;
  next = pool.next + 1;
}

pub id_pool_get-taken :
    (pool : IdPool)
    → length pool.ids ≡ pool.max
    → pool.max < 2 ^ 31
    → pool.next < pool.max
    → id_pool_get pool ≡ ok (slot_id pool.next (get_or pool.ids pool.next 0), taken pool)
unfolding id_pool_get
id_pool_get-taken pool size int room =
    let wrap : (pool.next + 1) % 2 ^ 32 ≡ pool.next + 1 = omega arith in rw wrap (ground arith)

pub free-taken :
    (pool : IdPool)
    → pool.next < length pool.ids
    → free pool ≡ slot_id pool.next (get_or pool.ids pool.next 0) ∷ free (taken pool)
free-taken pool room = elim (Bool-cases (get_or pool.ids pool.next 0 == 0)) [
  | inl unused ↦
      rw (unused, free_ids-set_before' 0 pool.next (pool.next + 1) pool.ids)
        (ground (arith, free_ids-next 0 pool.next pool.ids))
  | inr used ↦ rw used (ground (arith, free_ids-next 0 pool.next pool.ids))
]
  where
    free_ids-set_before' :
        (i k v : ℕ) (xs : List ℕ) → free_ids i (k + 1) (set xs k v) ≡ free_ids i (k + 1) xs
    free_ids-set_before' i k v xs = rw add-one (free_ids-set_before i k v xs)

-- In a pool that serves its holders, while fewer ids are held than there are, `id_pool_get` runs
-- and gives an id of 1..max that nobody holds, and the pool serves its holders with the new one.
pub id_pool_get-Got :
    (pool : IdPool) (held : List ℕ)
    → Serves pool held
    → length held < pool.max
    → (id : ℕ) × (pool' : IdPool) × Got pool held id pool'
id_pool_get-Got pool held s room = (
  id,
  taken pool,
  record {
    runs = id_pool_get-taken pool s.size s.int (omega arith);
    keeps = refl;
    fresh = ground (arith, parts.0, has-append id (free (taken pool)) held);
    bounds = s.bounds id rw split (ground arith);
    serves = record {
      size = ground (arith, s.size, length-set pool.ids pool.next (pool.next + 1));
      int = s.int;
      counted = omega arith;
      within = omega arith;
      distinct = Distinct-insert id (free (taken pool)) held parts.1 parts.0;
      bounds = λ a i. s.bounds a (
          rw split (
            ground (
              arith,
              has-append a (free (taken pool)) (id ∷ held),
              has-append a (free (taken pool)) held,
            )));
    };
  },
)
  where
    id : ℕ
    id = slot_id pool.next (get_or pool.ids pool.next 0)

    split : free pool ++ held ≡ id ∷ free (taken pool) ++ held
    split = ap (λ l. l ++ held) (free-taken pool (omega arith))

    parts : Distinct (id ∷ free (taken pool) ++ held)
    parts = subst Distinct split s.distinct
