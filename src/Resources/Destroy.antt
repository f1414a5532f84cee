-- ===== src/Resources/Destroy.antt =====
-- Destroying live resources, one by one and all at the end.
use mathlib.Core.List.{append_assoc}
use vaccel_google_test.Common.{
  ℕ, zero, suc, ◌+◌, ◌≡◌, refl, ap, sym, ◌∙◌, subst, ◌≢◌, inl, inr, Bool-cases, true, Option, none,
  List, [], ◌∷◌, ◌++◌, arith, ◌==◌, ==_iff, if◌then◌else◌, has, has-append, remove, remove_middle,
  has-remove-le, remove-Distinct, Distinct,
}
use vaccel_google_test.Common.Code.{vaccel_ok, vaccel_ebusy}
use vaccel_google_test.Common.Memory.{Ptr, null, ok}
use vaccel_google_test.IdPool.{IdPool, id_pool_release, id_pool_destroy}
use vaccel_google_test.IdPool.Invariant.{free, held_bounds}
use vaccel_google_test.IdPool.Release.{id_pool_release-Serves}
use vaccel_google_test.Resources.State.{
  Resource, ResourceState, Host, return_id, delist, resource_destroy, destroy_list, destroy_from,
  resources_cleanup,
}
use vaccel_google_test.Resources.Ids.{has-map, map-remove}
use vaccel_google_test.Resources.Live.{id_of, live_ids, IsLive}

-- A resource that a session uses is not destroyed, and nothing changes.
pub resource_destroy-busy :
    (virtio : Option Host) (res : Ptr) (s : ResourceState)
    → s.initialized ≡ true
    → res ≢ null
    → (s.res res).refcount ≢ 0
    → resource_destroy virtio res s ≡ ok (vaccel_ebusy, s)
unfolding resource_destroy
resource_destroy-busy virtio res s up ne busy = ground arith

-- What destroying an unused live resource leaves.
pub record Destroyed (res : Ptr) (s s' : ResourceState) : Type 0 where
  pub live : IsLive s'
  pub gone : s'.live 0 ≡ remove res (s.live 0)
  pub returned : free s'.pool ≡ id_of s res ∷ free s.pool
  pub memory : s'.res ≡ s.res

module _ (res : Ptr) (s : ResourceState) where
  resource_destroy-delist :
      (pool : IdPool)
      → s.initialized ≡ true
      → res ≢ null
      → (s.res res).refcount ≡ 0
      → id_of s res ≢ 0
      → id_pool_release (id_of s res) s.pool ≡ ok pool
      → resource_destroy none res s ≡ ok (vaccel_ok, delist res (record s { pool = pool }))
  unfolding resource_destroy return_id
  resource_destroy-delist pool up ne unused id released = ground (arith, released)

  -- Without a host, destroying a live resource that no session uses succeeds: it is live no more,
  -- its id is the next one that the pool gives, and the other resources stay live in their order
  -- with their ids.
  pub resource_destroy-Destroyed :
      IsLive s
      → has res (s.live 0) ≡ true
      → (s.res res).refcount ≡ 0
      → (s' : ResourceState) × (resource_destroy none res s ≡ ok (vaccel_ok, s'))
        × Destroyed res s s'
  unfolding delist
  resource_destroy-Destroyed v member unused =
      let held = has-map (id_of s) res (s.live 0) member in
      let (pool, released, serves, front, _) =
        id_pool_release-Serves (id_of s res) s.pool (live_ids s) v.serves held in
      let range = held_bounds (id_of s res) v.serves held in
      let ids = map-remove (id_of s) res (s.live 0) v.ids_once member in
      (
        delist res (record s { pool = pool }),
        resource_destroy-delist pool v.initialized (λ z. ground (arith, v.real)) unused
            (omega (arith, range)) released,
        record {
          live = record {
            initialized = v.initialized;
            first_only = λ t n. rw (v.first_only t n) refl;
            real = has-remove-le res null (s.live 0) v.real;
            once = remove-Distinct res (s.live 0) v.once;
            ids_once = rw ids (remove-Distinct (id_of s res) (live_ids s) v.ids_once);
            serves = rw ids serves;
          };
          gone = refl;
          returned = front;
          memory = refl;
        },
      )

-- The resources that sessions use.
abbrev pub used : (Ptr → Resource) → List Ptr → List Ptr
used mem [] = []
used mem (r ∷ rs) = if (mem r).refcount == 0 then used mem rs else r ∷ used mem rs

-- The loop over the suffix `rest` of the live resources, of which those in front are all in use.
destroy_list-IsLive :
    (before rest : List Ptr) (s : ResourceState)
    → IsLive s
    → s.live 0 ≡ before ++ rest
    → (s' : ResourceState) × (destroy_list none rest s ≡ ok s')
      × IsLive s'
      × (s'.live 0 ≡ before ++ used s.res rest)
      × (s'.res ≡ s.res)
unfolding destroy_list
destroy_list-IsLive before [] s v e = (s, refl, v, e, refl)
destroy_list-IsLive before (r ∷ rest) s v e = elim (Bool-cases ((s.res r).refcount == 0)) [
  | inl unused ↦
      let member : has r (s.live 0) ≡ true =
        rw e (ground (arith, has-append r before (r ∷ rest))) in
      let (s₁, runs, d) = resource_destroy-Destroyed r s v member ((==_iff _ 0).0 unused) in
      let left = d.gone ∙ ap (remove r) e ∙ remove_middle r before rest (subst Distinct e v.once) in
      let (s', more, live, kept, mem) = destroy_list-IsLive before rest s₁ d.live left in
      (
        s',
        rw runs more,
        live,
        rw unused (kept ∙ ap (λ m. before ++ used m rest) d.memory),
        mem ∙ d.memory,
      )
  | inr busy ↦
      let real : r ≢ null = λ z. ground (arith, e, v.real, z, has-append null before (r ∷ rest)) in
      let runs = resource_destroy-busy none r s v.initialized real (λ z. ground (arith, busy, z)) in
      let (s', more, live, kept, mem) =
        destroy_list-IsLive (before ++ r ∷ []) rest s v
          (e ∙ sym (append_assoc before (r ∷ []) rest)) in
      (s', rw runs more, live, rw busy (kept ∙ append_assoc before (r ∷ []) (used s.res rest)), mem)
]

-- The lists behind the first are empty, so the loop over them does nothing.
destroy_from-empty :
    (k t : ℕ) (s : ResourceState) → IsLive s → t ≢ 0 → destroy_from none k t s ≡ ok s
unfolding destroy_from destroy_list
destroy_from-empty zero t s v n = refl
destroy_from-empty (suc k) t s v n =
    rw (v.first_only t n) (destroy_from-empty k (t + 1) s v (omega arith))

-- From a state of live resources with distinct ids and without a host, `resources_cleanup` runs
-- to its end, and destroys every live resource that no session uses, and only those; it leaves
-- `initialized` set.
pub resources_cleanup-used :
    (s : ResourceState)
    → IsLive s
    → (s' : ResourceState) × (resources_cleanup none s ≡ ok (vaccel_ok, s'))
      × (s'.live 0 ≡ used s.res (s.live 0))
      × (s'.initialized ≡ true)
unfolding resources_cleanup destroy_from id_pool_destroy
resources_cleanup-used s v =
    let (s', runs, live, kept, mem) = destroy_list-IsLive [] (s.live 0) s v refl in
    let rest = destroy_from-empty 5 1 s' live (omega arith) in
    (
      record s' { pool = record s'.pool { ids = [] } },
      ground (arith, runs, rest),
      kept,
      live.initialized,
    )
