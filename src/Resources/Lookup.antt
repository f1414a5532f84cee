-- ===== src/Resources/Lookup.antt =====
-- Finding a live resource by its id.
use vaccel_google_test.Common.{
  ℕ, zero, suc, ◌+◌, ◌≡◌, refl, ◌≢◌, true, false, none, some, List, [], ◌∷◌, map, arith, ◌==◌,
  if◌then◌else◌, has, Distinct,
}
use vaccel_google_test.Common.Code.{vaccel_ok, vaccel_einval}
use vaccel_google_test.Common.Memory.{Ptr, null}
use vaccel_google_test.Resources.State.{ResourceState, find_id, find_from, resource_get_by_id}
use vaccel_google_test.Resources.Ids.{has-map}
use vaccel_google_test.Resources.Live.{id_of, live_ids, IsLive}

module _ (s : ResourceState) where
  find_id-some :
      (res : Ptr) (rs : List Ptr)
      → Distinct (map (id_of s) rs)
      → has res rs ≡ true
      → find_id (id_of s res) rs s ≡ some res
  unfolding find_id
  find_id-some res [] d i = cc
  find_id-some res (r ∷ rs) d i =
      ground (arith, find_id-some res rs d.1, has-map (id_of s) res rs, d.0)

  find_id-none :
      (id : ℕ) (rs : List Ptr) → has id (map (id_of s) rs) ≡ false → find_id id rs s ≡ none
  unfolding find_id
  find_id-none id [] i = refl
  find_id-none id (r ∷ rs) i = ground (arith, find_id-none id rs)

  find_from-empty : (k t id : ℕ) → IsLive s → t ≢ 0 → find_from k t id s ≡ none
  unfolding find_from find_id
  find_from-empty zero t id v n = refl
  find_from-empty (suc k) t id v n =
      rw (v.first_only t n, find_from) (find_from-empty k (t + 1) id v (omega arith))

  -- Where live resources have distinct ids, a live resource is found by its id, whatever the
  -- pointer held before.
  resource_get_by_id-live :
      (old res : Ptr)
      → IsLive s
      → has res (s.live 0) ≡ true
      → resource_get_by_id old (id_of s res) s ≡ (vaccel_ok, res)
  unfolding resource_get_by_id find_from
  resource_get_by_id-live old res v i =
      ground (arith, v.initialized, find_id-some res (s.live 0) v.ids_once i)

  -- For an id that no live resource has, the answer of `resource_get_by_id` hangs on what the
  -- pointer held before: with NULL the call fails, and with anything else it succeeds and leaves
  -- the pointer as it was.
  resource_get_by_id-absent :
      (old : Ptr) (id : ℕ)
      → IsLive s
      → has id (live_ids s) ≡ false
      → resource_get_by_id old id s ≡ ((if old == null then vaccel_einval else vaccel_ok), old)
  unfolding resource_get_by_id find_from
  resource_get_by_id-absent old id v i =
      ground (arith, v.initialized, find_id-none id (s.live 0) i, find_from-empty 5 1 id v)
