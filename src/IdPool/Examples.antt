-- ===== src/IdPool/Examples.antt =====
-- A pool of two ids, of which 1 is held.
use vaccel_google_test.Common.{
  ℕ, ◌≡◌, ◌≤◌, refl, some, List, [], ◌∷◌, arith, true, has, length, Distinct,
}
use vaccel_google_test.Common.Memory.{ok, fault}
use vaccel_google_test.IdPool.{IdPool, id_pool_new, id_pool_get, id_pool_release}
use vaccel_google_test.IdPool.Invariant.{Serves}
use vaccel_google_test.IdPool.Faults.{
  id_pool_release_overrun, get_inside_release, get_inside_release_twice,
}
use vaccel_google_test.IdPool.History.{history-Serves, Reach, here, next}
use vaccel_google_test.IdPool.History
use vaccel_google_test.IdPool.Refinement
use vaccel_google_test.IdPool.Refinement.{
  Request, Stack, serve, serve_all, call_all, new_stack, Represents, release, id_pool-refines,
}
use vaccel_google_test.IdPool.Liveness.{gets, releases, id_pool_get-liveness}

-- Only the ids 1 and 2 are in a list of both.
two_bounds : (a : ℕ) → has a (2 ∷ 1 ∷ []) ≡ true → (1 ≤ a) × (a ≤ 2)
two_bounds a h = ground arith

abbrev one_held : IdPool
one_held = record { ids = 1 ∷ 0 ∷ []; max = 2; next = 1 }

one_held-Serves : Serves one_held (1 ∷ [])
one_held-Serves = record {
  size = refl;
  int = omega arith;
  counted = refl;
  within = omega arith;
  distinct = (refl, (refl, tt));
  bounds = two_bounds;
}

abbrev both_held : IdPool
both_held = record { ids = 1 ∷ 2 ∷ []; max = 2; next = 2 }

both_held-Serves : Serves both_held (2 ∷ 1 ∷ [])
both_held-Serves = record {
  size = refl;
  int = omega arith;
  counted = refl;
  within = omega arith;
  distinct = (refl, (refl, tt));
  bounds = two_bounds;
}

id_pool_release_overrun_example :
    (pool : IdPool) × (id_pool_get both_held ≡ ok (0, pool)) × (id_pool_release 2 pool ≡ fault)
id_pool_release_overrun_example =
    id_pool_release_overrun both_held (2 ∷ 1 ∷ []) 2 both_held-Serves refl refl

get_inside_release_twice_example :
    (pool : IdPool) × (get_inside_release 1 both_held ≡ ok (2, pool)) × ¬ Serves pool (2 ∷ 2 ∷ [])
get_inside_release_twice_example =
    get_inside_release_twice both_held (2 ∷ 1 ∷ []) 1 2 both_held-Serves refl refl (ground arith)
      refl

-- The pool of two ids after its first `id_pool_get`.
abbrev one_taken : IdPool
one_taken = one_held

first_get : Reach (id_pool_new 2 true both_held).1 [] one_taken (1 ∷ [])
unfolding id_pool_new id_pool_get
first_get = next here (History.get 1 (ground arith) refl)

history-Serves_example : Serves one_taken (1 ∷ [])
history-Serves_example =
    history-Serves 2 both_held one_taken (1 ∷ []) (omega arith) (omega arith) first_get

-- Two ids are taken, the first is returned, and an id is taken again.
abbrev requests : List Request
requests = Refinement.get ∷ Refinement.get ∷ release 1 ∷ Refinement.get ∷ []

abbrev last : Stack
last = record { free_stack = []; held = 1 ∷ 2 ∷ [] }

requests_serve : serve_all requests (new_stack 2) ≡ some (1 ∷ 2 ∷ 1 ∷ [], last)
unfolding serve_all serve
requests_serve = refl

id_pool-refines_example :
    (pool' : IdPool) × (call_all requests (id_pool_new 2 true both_held).1
      ≡ ok (1 ∷ 2 ∷ 1 ∷ [], pool'))
    × Represents pool' last
id_pool-refines_example =
    id_pool-refines 2 both_held requests (1 ∷ 2 ∷ 1 ∷ []) last (omega arith) (omega arith)
      requests_serve

id_pool_get-liveness_example :
    (p q' : IdPool) × (ids : List ℕ) × (call_all (releases (1 ∷ [])) one_taken ≡ ok ([], p))
    × (call_all (gets 2) p ≡ ok (ids, q'))
    × (length ids ≡ 2)
    × Distinct ids
    × ((a : ℕ) → has a ids ≡ true → (1 ≤ a) × (a ≤ 2))
id_pool_get-liveness_example =
    id_pool_get-liveness 2 both_held one_taken (1 ∷ []) (omega arith) (omega arith) first_get
