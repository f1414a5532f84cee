-- ===== src/Resources/Live.antt =====
-- The live resources of a library that has no VirtIO plugin, through their life.
use vaccel_google_test.Common.{
  ℕ, ◌≤◌, ◌<◌, ◌≡◌, refl, ◌∙◌, ap₂, ◌^◌, ◌≢◌, true, false, none, List, [], ◌∷◌, ◌++◌, map, arith,
  has, has-append, Distinct, append-Distinct, length, length-append,
}
use vaccel_google_test.Common.Code.{vaccel_ok}
use vaccel_google_test.Common.Memory.{Ptr, null, update, ok}
use vaccel_google_test.IdPool.{IdPool, id_pool_get}
use vaccel_google_test.IdPool.Invariant.{Serves, Got, id_pool_get-Got}
use vaccel_google_test.Resources.State.{ResourceState, res_max, obtain_id, enlist, resource_new}
use vaccel_google_test.Resources.Ids.{map-snoc, map-frame, length-map, Serves-reorder}

abbrev pub id_of : ResourceState → Ptr → ℕ
id_of s res = (s.res res).id

abbrev pub live_ids : ResourceState → List ℕ
live_ids s = map (id_of s) (s.live 0)

-- The live resources are in the first list, once each, and hold the ids that the pool has given.
pub record IsLive (s : ResourceState) : Type 0 where
  pub initialized : s.initialized ≡ true
  pub first_only : (t : ℕ) → t ≢ 0 → s.live t ≡ []
  pub real : has null (s.live 0) ≡ false
  pub once : Distinct (s.live 0)
  pub ids_once : Distinct (live_ids s)
  pub serves : Serves s.pool (live_ids s)

-- The state after `resource_new` of a resource that gets `id`.
abbrev born :
    (res : Ptr) (type : ℕ) (data_ptr cleanup : Ptr) (id : ℕ) (pool : IdPool)
    → ResourceState
    → ResourceState
born res type data_ptr cleanup id pool s =
    enlist res type data_ptr cleanup
      (record s { pool = pool; res = update s.res res (record (s.res res) { id = id }) })

-- What `resource_new` leaves when it succeeds.
pub record New (res : Ptr) (type : ℕ) (data_ptr cleanup : Ptr) (s s' : ResourceState) : Type 0 where
  pub live : IsLive s'
  pub last : s'.live 0 ≡ s.live 0 ++ res ∷ []
  pub fresh : has (id_of s' res) (live_ids s) ≡ false
  pub in_range : (1 ≤ id_of s' res) × (id_of s' res ≤ s.pool.max)
  pub typed : (s'.res res).type ≡ type
  pub unused : (s'.res res).refcount ≡ 0
  pub argument : (s'.res res).data_ptr ≡ data_ptr
  pub destructor : (s'.res res).cleanup_resource ≡ cleanup
  pub others : (r : Ptr) → r ≢ res → s'.res r ≡ s.res r

module _ (res : Ptr) (type : ℕ) (data_ptr cleanup : Ptr) (s : ResourceState) where
  resource_new-born :
      (id : ℕ) (pool : IdPool)
      → s.initialized ≡ true
      → res ≢ null
      → type < res_max
      → id_pool_get s.pool ≡ ok (id, pool)
      → 1 ≤ id
      → id < 2 ^ 63
      → resource_new none res type data_ptr cleanup s
        ≡ ok (vaccel_ok, born res type data_ptr cleanup id pool s)
  unfolding resource_new obtain_id
  resource_new-born id pool up ne known got low high = ground (arith, got)

  born-New :
      (id : ℕ) (pool : IdPool)
      → IsLive s
      → res ≢ null
      → has res (s.live 0) ≡ false
      → Got s.pool (live_ids s) id pool
      → New res type data_ptr cleanup s (born res type data_ptr cleanup id pool s)
  unfolding enlist
  born-New id pool v ne new got = record {
    live = record {
      initialized = v.initialized;
      first_only = λ t n. ground (arith, v.first_only t n);
      real = ground (arith, has-append null (s.live 0) (res ∷ []), v.real);
      once = append-Distinct res (s.live 0) v.once new;
      ids_once = rw ids (append-Distinct id (live_ids s) v.ids_once got.fresh);
      serves = rw ids (
          Serves-reorder (id ∷ live_ids s) (live_ids s ++ id ∷ []) got.serves
            (append-Distinct id (live_ids s) v.ids_once got.fresh)
            (λ a. ground (arith, has-append a (live_ids s) (id ∷ [])))
            (omega (arith, length-append (live_ids s) (id ∷ []))));
    };
    last = refl;
    fresh = ground (arith, got.fresh);
    in_range = ground (arith, got.bounds);
    typed = ground arith;
    unused = ground arith;
    argument = ground arith;
    destructor = ground arith;
    others = λ r n. ground arith;
  }
    where
      s' : ResourceState
      s' = born res type data_ptr cleanup id pool s

      ids : live_ids s' ≡ live_ids s ++ id ∷ []
      ids =
          map-snoc (id_of s') (s.live 0) res
          ∙ ap₂ (λ l x. l ++ x ∷ [])
              (map-frame (id_of s) (id_of s') (s.live 0) (λ a i. ground arith)) (ground arith)

  -- Without a host, `resource_new` succeeds for a resource that is not live, with a known type,
  -- while fewer resources are live than the pool has ids: the resource becomes the last live one
  -- of the first list, whatever its type, with a reference count of 0, and an id that no live
  -- resource has.
  pub resource_new-New :
      IsLive s
      → res ≢ null
      → type < res_max
      → has res (s.live 0) ≡ false
      → length (s.live 0) < s.pool.max
      → (s' : ResourceState) × (resource_new none res type data_ptr cleanup s ≡ ok (vaccel_ok, s'))
        × New res type data_ptr cleanup s s'
  resource_new-New v ne known new room =
      let (id, pool, got) =
        id_pool_get-Got s.pool (live_ids s) v.serves
          (omega (arith, length-map (id_of s) (s.live 0))) in
      (
        born res type data_ptr cleanup id pool s,
        resource_new-born id pool v.initialized ne known got.runs got.bounds.0
            (omega (arith, got.bounds, v.serves.int)),
        born-New id pool v ne new got,
      )
