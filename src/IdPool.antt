-- ===== src/IdPool.antt =====
-- src/id_pool.c: the pool of ids from which sessions and resources take theirs.
-- An int is kept as its 32-bit pattern and a vaccel_id_t as its 64-bit pattern; an access outside
-- the array of ids is a fault. The pointer to the pool is never NULL: every caller passes the
-- address of a static object.
pub mod Free
pub mod Invariant
pub mod Release
pub mod Faults
pub mod History
pub mod Refinement
pub mod Liveness
mod Examples
use vaccel_google_test.Common.{
  ℕ, ◌+◌, ◌-◌, ◌%◌, ◌^◌, Bool, ◌||◌, ◌&&◌, not, List, [], ltb, leb, ◌==◌, if◌then◌else◌, length,
  get_or, set, replicate,
}
use vaccel_google_test.Common.Code.{Code, vaccel_ok, vaccel_einval, vaccel_enomem}
use vaccel_google_test.Common.Memory.{Outcome, ok, fault}

pub record IdPool : Type 0 where
  pub ids : List ℕ
  pub max : ℕ
  pub next : ℕ

-- A signed 32-bit or 64-bit pattern that stands for a negative number.
abbrev pub is_negative_int : ℕ → Bool
is_negative_int n = leb (2 ^ 31) n

abbrev pub is_negative_id : ℕ → Bool
is_negative_id n = leb (2 ^ 63) n

-- `nr_ids` is a positive int at both calls; `calloc_ok` says whether memory was left.
unfoldable pub id_pool_new : (nr_ids : ℕ) (calloc_ok : Bool) → IdPool → Code × IdPool
id_pool_new nr_ids calloc_ok pool =
    if nr_ids == 0
    then (vaccel_einval, pool)
    else if not calloc_ok
    then (vaccel_enomem, pool)
    else (vaccel_ok, record { ids = replicate nr_ids 0; max = nr_ids; next = 0 })

-- The array is freed: any later access is one outside of it.
unfoldable pub id_pool_destroy : IdPool → Code × IdPool
id_pool_destroy pool = (vaccel_ok, record pool { ids = [] })

-- The atomic step of a call: fetch the index and count it.
unfoldable pub claim_slot : IdPool → ℕ × IdPool
claim_slot pool = (pool.next, record pool { next = (pool.next + 1) % 2 ^ 32 })

-- What follows it, for the index that was fetched.
unfoldable pub fill_slot : ℕ → IdPool → Outcome (ℕ × IdPool)
fill_slot ptr pool =
    if not (is_negative_int ptr) && leb pool.max ptr
    then ok (0, pool)
    else if leb (length pool.ids) ptr
    then fault
    else if get_or pool.ids ptr 0 == 0
    then ok (ptr + 1, record pool { ids = set pool.ids ptr (ptr + 1) })
    else ok (get_or pool.ids ptr 0, pool)

unfoldable pub id_pool_get : IdPool → Outcome (ℕ × IdPool)
unfolding claim_slot fill_slot
id_pool_get pool = let (ptr, pool') = claim_slot pool in fill_slot ptr pool'

-- The guard of `id_pool_release`, on the signed values.
unfoldable pub refused : ℕ → IdPool → Bool
refused id pool = (id == 0) || (not (is_negative_id id) && ltb pool.max id)

-- The compare-and-exchange of `id_pool_release`, which succeeds when no other thread interferes.
unfoldable pub give_back_slot : IdPool → ℕ × IdPool
give_back_slot pool =
    let ptr = (pool.next + (2 ^ 32 - 1)) % 2 ^ 32 in (ptr, record pool { next = ptr })

unfoldable pub store_id : (ptr id : ℕ) → IdPool → Outcome IdPool
store_id ptr id pool =
    if leb (length pool.ids) ptr then fault else ok (record pool { ids = set pool.ids ptr id })

unfoldable pub id_pool_release : ℕ → IdPool → Outcome IdPool
unfolding refused give_back_slot store_id
id_pool_release id pool =
    if refused id pool
    then ok pool
    else let (ptr, pool') = give_back_slot pool in store_id ptr id pool'
