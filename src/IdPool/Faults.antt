-- ===== src/IdPool/Faults.antt =====
-- Where the pool goes wrong: after a call that finds it empty, and when two threads interleave.
use vaccel_google_test.Common.{
  ℕ, ◌+◌, ◌-◌, ◌%◌, ◌^◌, ◌≤◌, ◌≡◌, ◌≢◌, true, List, ◌∷◌, arith, has, remove, has-remove_ne,
  Distinct-right, length_pos_of_has, length, get_or, set,
}
use vaccel_google_test.Common.Memory.{Outcome, ok, fault, ◌>>=◌}
use vaccel_google_test.IdPool.{
  IdPool, id_pool_get, id_pool_release, claim_slot, fill_slot, give_back_slot, store_id,
}
use vaccel_google_test.IdPool.Invariant.{free, Serves, held_bounds}

-- When every id is held `id_pool_get` returns 0; it leaves the ids, but counts the call.
pub id_pool_get_empty :
    (pool : IdPool) (held : List ℕ)
    → Serves pool held
    → length held ≡ pool.max
    → id_pool_get pool ≡ ok (0, record pool { next = pool.max + 1 })
unfolding id_pool_get
id_pool_get_empty pool held s full =
    let wrap : (pool.next + 1) % 2 ^ 32 ≡ pool.max + 1 =
      omega (arith, s.counted, s.within, s.int) in
    rw wrap (ground (arith, s.counted, s.int))

-- When every id of a pool is held, `id_pool_get` returns 0, and the next release of a held id
-- writes behind the end of the array.
pub id_pool_release_overrun :
    (pool : IdPool) (held : List ℕ) (id : ℕ)
    → Serves pool held
    → length held ≡ pool.max
    → has id held ≡ true
    → (pool' : IdPool) × (id_pool_get pool ≡ ok (0, pool')) × (id_pool_release id pool' ≡ fault)
unfolding id_pool_release
id_pool_release_overrun pool held id s full holds =
    let wrap : (pool.max + 1 + (2 ^ 32 - 1)) % 2 ^ 32 ≡ pool.max = omega (arith, s.int) in
    let range = held_bounds id s holds in
    (
      record pool { next = pool.max + 1 },
      id_pool_get_empty pool held s full,
      rw wrap (ground (arith, s.size, range)),
    )

-- A release and a call of `id_pool_get` in two threads: the get runs between the two steps of the
-- release.
unfoldable pub get_inside_release : ℕ → IdPool → Outcome (ℕ × IdPool)
unfolding claim_slot fill_slot give_back_slot store_id
get_inside_release id pool =
    let (slot, returning) = give_back_slot pool in
    let (ptr, claiming) = claim_slot returning in
    do (got, filled) ← fill_slot ptr claiming; stored ← store_id slot id filled; ok (got, stored)

-- A get that runs inside of the release of a held id, after its exchange and before its write,
-- gives out the id that the slot still names; if that is another held id, it has two holders and
-- the pool serves its holders no more.
pub get_inside_release_twice :
    (pool : IdPool) (held : List ℕ) (id stale : ℕ)
    → Serves pool held
    → has id held ≡ true
    → has stale held ≡ true
    → stale ≢ id
    → get_or pool.ids (pool.next - 1) 0 ≡ stale
    → (pool' : IdPool) × (get_inside_release id pool ≡ ok (stale, pool'))
      × ¬ Serves pool' (stale ∷ remove id held)
unfolding get_inside_release
get_inside_release_twice pool held id stale s holds also other slot = (
  record pool { ids = set pool.ids (pool.next - 1) id },
  rw (back, forth) (ground (arith, s.size, s.within, s.int, held_bounds stale s also)),
  λ t. ground (
    arith,
    Distinct-right (free after) (stale ∷ remove id held) t.distinct,
    has-remove_ne id stale held other,
  ),
)
  where
    after : IdPool
    after = record pool { ids = set pool.ids (pool.next - 1) id }

    used : 1 ≤ pool.next
    used = omega (arith, s.counted, length_pos_of_has id held holds)

    back : (pool.next + (2 ^ 32 - 1)) % 2 ^ 32 ≡ pool.next - 1
    back = omega (arith, used, s.within, s.int, s.counted)

    forth : (pool.next - 1 + 1) % 2 ^ 32 ≡ pool.next
    forth = omega (arith, used, s.within, s.int, s.counted)
