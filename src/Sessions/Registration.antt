-- ===== src/Sessions/Registration.antt =====
-- Registering resources with sessions: the calls as a whole.
use vaccel_google_test.Common.{
  ◌^◌, ◌≤◌, ◌<◌, ◌≡◌, ◌≢◌, ◌⊎◌, inl, inr, Option-cases, Bool, true, false, Option, none, some, List,
  [], ◌∷◌, ◌++◌, arith, has, has-append, Distinct,
}
use vaccel_google_test.Common.Code.{Code, vaccel_ok, vaccel_ebusy}
use vaccel_google_test.Common.Memory.{Ptr, null, update, ok}
use vaccel_google_test.Resources.{
  Host, res_max, resource_refcount_inc, resource_refcount_dec, resource_destroy,
}
use vaccel_google_test.Resources.Destroy.{resource_destroy-busy}
use vaccel_google_test.Sessions.State.{
  SessionResources, Sessions, HostSessions, attach, detach, find_registered_resource,
  vaccel_sess_register, vaccel_sess_unregister, vaccel_sess_has_resource,
}
use vaccel_google_test.Sessions.Occurrences.{remove_first-snoc, registrations, total, total_pos}
use vaccel_google_test.Sessions.Counted.{IsCounted, attach-IsCounted, detach-IsCounted}

module _ (sess res : Ptr) (s : Sessions) where
  register_known :
      (virtio : Option HostSessions) (malloc_ok : Bool) (r : SessionResources)
      → (s.sess sess).resources ≡ some r
      → ((vaccel_sess_register virtio malloc_ok sess res s).1 ≡ s)
          × ((vaccel_sess_register virtio malloc_ok sess res s).0 ≢ vaccel_ok)
        ⊎ (vaccel_sess_register virtio malloc_ok sess res s ≡ (vaccel_ok, attach sess res r s))
          × (sess ≢ null)
          × (res ≢ null)
          × ((s.resources.res res).type < res_max)
  unfolding vaccel_sess_register
  register_known virtio malloc_ok r known = ground arith

  unregister_without :
      (c : Code) (s' : Sessions)
      → (s.sess sess).resources ≡ none
      → vaccel_sess_unregister sess res s ≡ ok (c, s')
      → s' ≡ s
  unfolding vaccel_sess_unregister
  unregister_without c s' missing e = ground arith

  unregister_known :
      (c : Code) (s' : Sessions) (r : SessionResources)
      → (s.sess sess).resources ≡ some r
      → vaccel_sess_unregister sess res s ≡ ok (c, s')
      → (s' ≡ s)
        ⊎ (s' ≡ detach sess res r s)
          × (has res (r.registered (s.resources.res res).type) ≡ true)
          × (res ≢ null)
  unfolding vaccel_sess_unregister
  unregister_known c s' r known e = ground arith

  -- A registration fails and changes nothing, or it succeeds and adds one container.
  vaccel_sess_register_cases :
      (virtio : Option HostSessions) (malloc_ok : Bool)
      → ((vaccel_sess_register virtio malloc_ok sess res s).1 ≡ s)
          × ((vaccel_sess_register virtio malloc_ok sess res s).0 ≢ vaccel_ok)
        ⊎ ((r : SessionResources) × ((s.sess sess).resources ≡ some r)
            × (vaccel_sess_register virtio malloc_ok sess res s ≡ (vaccel_ok, attach sess res r s))
            × (sess ≢ null)
            × (res ≢ null)
            × ((s.resources.res res).type < res_max))
  unfolding vaccel_sess_register
  vaccel_sess_register_cases virtio malloc_ok = elim (Option-cases (s.sess sess).resources) [
    | inl missing ↦ inl (ground arith, ground arith)
    | inr (r, known) ↦ elim (register_known virtio malloc_ok r known) [
      | inl failed ↦ inl failed
      | inr (e, n, m, t) ↦ inr (r, known, e, n, m, t)
    ]
  ]

  -- If the reference count of every resource is the number of its registrations with the sessions
  -- of a list, modulo 2^32, and the session is in the list, once, then the counts are right after
  -- `vaccel_sess_register`, whatever the host and the allocator answer and whether it succeeds.
  pub vaccel_sess_register-IsCounted :
      (virtio : Option HostSessions) (malloc_ok : Bool) (ss : List Ptr)
      → Distinct ss
      → has sess ss ≡ true
      → IsCounted ss s
      → IsCounted ss (vaccel_sess_register virtio malloc_ok sess res s).1
  vaccel_sess_register-IsCounted virtio malloc_ok ss d i c =
      elim (vaccel_sess_register_cases virtio malloc_ok) [
        | inl (same, _) ↦ rw same c
        | inr (r, known, e, _, n, _) ↦ rw e (attach-IsCounted sess res r s known ss d i n c)
      ]

  -- If the reference count of every resource is the number of its registrations with the sessions
  -- of a list, modulo 2^32, the session is in the list, once, and `vaccel_sess_unregister`
  -- returns, with success or not, then the counts are right afterwards.
  pub vaccel_sess_unregister-IsCounted :
      (ss : List Ptr) (c : Code) (s' : Sessions)
      → Distinct ss
      → has sess ss ≡ true
      → IsCounted ss s
      → vaccel_sess_unregister sess res s ≡ ok (c, s')
      → IsCounted ss s'
  vaccel_sess_unregister-IsCounted ss c s' d i counted e =
      elim (Option-cases (s.sess sess).resources) [
        | inl missing ↦ rw (unregister_without c s' missing e) counted
        | inr (r, known) ↦ elim (unregister_known c s' r known e) [
          | inl same ↦ rw same counted
          | inr (undone, member, n) ↦
              rw undone (detach-IsCounted sess res r s known ss d i n member counted)
        ]
      ]

  -- Where the reference counts are right and fewer than 2^32 registrations of a resource exist,
  -- one of them with a session of the list, `resource_destroy` refuses the resource with EBUSY
  -- and changes nothing, with or without a host.
  pub resource_destroy-registered :
      (virtio : Option Host) (ss : List Ptr)
      → IsCounted ss s
      → total s res ss < 2 ^ 32
      → has sess ss ≡ true
      → 1 ≤ registrations s res sess
      → s.resources.initialized ≡ true
      → res ≢ null
      → resource_destroy virtio res s.resources ≡ ok (vaccel_ebusy, s.resources)
  resource_destroy-registered virtio ss c small i one up n =
      resource_destroy-busy virtio res s.resources up n
        (λ z. ground (arith, c res, z, total_pos s res sess ss i one))

  has_resource-attach :
      (r : SessionResources) → vaccel_sess_has_resource sess res (attach sess res r s) ≡ ok true
  unfolding vaccel_sess_has_resource find_registered_resource attach resource_refcount_inc
  has_resource-attach r =
      ground (arith, has-append res (r.registered (s.resources.res res).type) (res ∷ []))

  -- After a registration that succeeds the session has the resource.
  pub vaccel_sess_has_resource-register :
      (virtio : Option HostSessions) (malloc_ok : Bool)
      → (vaccel_sess_register virtio malloc_ok sess res s).0 ≡ vaccel_ok
      → vaccel_sess_has_resource sess res (vaccel_sess_register virtio malloc_ok sess res s).1
        ≡ ok true
  vaccel_sess_has_resource-register virtio malloc_ok done =
      elim (vaccel_sess_register_cases virtio malloc_ok) [
        | inl (_, failed) ↦ absurd (failed done)
        | inr (r, known, e, _, _, _) ↦ rw e (has_resource-attach r)
      ]

  -- What undoing a registration leaves.
  abbrev Undone : Sessions → Type 0
  Undone s' =
      ((q x : Ptr) → registrations s' x q ≡ registrations s x q)
      × ((x : Ptr) → (s'.resources.res x).refcount ≡ (s.resources.res x).refcount)

  detach-attach :
      (r : SessionResources)
      → (s.sess sess).resources ≡ some r
      → has res (r.registered (s.resources.res res).type) ≡ false
      → (s.resources.res res).refcount < 2 ^ 32
      → sess ≢ null
      → res ≢ null
      → (s.resources.res res).type < res_max
      → (s' : Sessions) × (vaccel_sess_unregister sess res (attach sess res r s)
          ≡ ok (vaccel_ok, s'))
        × Undone s'
  unfolding vaccel_sess_unregister detach attach resource_refcount_inc resource_refcount_dec
  detach-attach r known new small n m t =
      let type = (s.resources.res res).type in
      let l = r.registered type in
      let r' = record r { registered = update r.registered type (l ++ res ∷ []) } in
      (
        detach sess res r' (attach sess res r s),
        ground (arith, has-append res l (res ∷ [])),
        (λ q x. ground (arith, known, remove_first-snoc res l new), λ x. ground arith),
      )

  -- Unregistering a resource right after a registration that succeeded undoes it, if the session
  -- did not have the resource before and its reference count fits 32 bits: the call succeeds, and
  -- all registrations and reference counts are as they were.
  pub vaccel_sess_unregister-register :
      (virtio : Option HostSessions) (malloc_ok : Bool) (r : SessionResources)
      → (s.sess sess).resources ≡ some r
      → has res (r.registered (s.resources.res res).type) ≡ false
      → (s.resources.res res).refcount < 2 ^ 32
      → (vaccel_sess_register virtio malloc_ok sess res s).0 ≡ vaccel_ok
      → (s' : Sessions) × (vaccel_sess_unregister sess res
            (vaccel_sess_register virtio malloc_ok sess res s).1
          ≡ ok (vaccel_ok, s'))
        × Undone s'
  vaccel_sess_unregister-register virtio malloc_ok r known new small done =
      elim (register_known virtio malloc_ok r known) [
        | inl (_, failed) ↦ absurd (failed done)
        | inr (e, n, m, t) ↦ rw e (detach-attach r known new small n m t)
      ]
