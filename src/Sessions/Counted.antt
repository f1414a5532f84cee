-- ===== src/Sessions/Counted.antt =====
-- One container more or less in a session: the reference counts follow.
use vaccel_google_test.Common.{
  ◌+◌, ◌-◌, ◌%◌, ◌^◌, ◌≡◌, ◌≢◌, true, some, List, arith, ◌==◌, if◌then◌else◌, has, Distinct,
}
use vaccel_google_test.Common.Memory.{Ptr, null}
use vaccel_google_test.Resources.{resource_refcount_inc, resource_refcount_dec}
use vaccel_google_test.Sessions.State.{SessionResources, Sessions, attach, detach}
use vaccel_google_test.Sessions.Occurrences.{
  occurrences-snoc, occurrences-remove_first, registrations, total, total-change,
}

-- Every reference count is the number of registrations with the sessions of `ss`, modulo 2^32.
abbrev pub IsCounted : List Ptr → Sessions → Type 0
IsCounted ss s = (res : Ptr) → (s.resources.res res).refcount ≡ total s res ss % 2 ^ 32

module _ (sess res : Ptr) (r : SessionResources) (s : Sessions)
    (has_r : (s.sess sess).resources ≡ some r) where
  attach-registrations :
      (x : Ptr)
      → registrations (attach sess res r s) x sess + 0
        ≡ registrations s x sess + (if res == x then 1 else 0)
  unfolding attach resource_refcount_inc
  attach-registrations x =
      ground (arith, has_r, occurrences-snoc x res (r.registered (s.resources.res res).type))

  attach-others :
      (x q : Ptr) → q ≢ sess → registrations (attach sess res r s) x q ≡ registrations s x q
  unfolding attach resource_refcount_inc
  attach-others x q n = ground arith

  attach-refcount :
      (x : Ptr)
      → res ≢ null
      → ((attach sess res r s).resources.res x).refcount ≡ (
          if res == x
          then ((s.resources.res x).refcount + 1) % 2 ^ 32
          else (s.resources.res x).refcount)
  unfolding attach resource_refcount_inc
  attach-refcount x n = ground arith

  detach-registrations :
      (x : Ptr)
      → has res (r.registered (s.resources.res res).type) ≡ true
      → registrations (detach sess res r s) x sess + (if res == x then 1 else 0)
        ≡ registrations s x sess + 0
  unfolding detach resource_refcount_dec
  detach-registrations x i =
      ground
        (arith, has_r, occurrences-remove_first x res (r.registered (s.resources.res res).type) i)

  detach-others :
      (x q : Ptr) → q ≢ sess → registrations (detach sess res r s) x q ≡ registrations s x q
  unfolding detach resource_refcount_dec
  detach-others x q n = ground arith

  detach-refcount :
      (x : Ptr)
      → res ≢ null
      → ((detach sess res r s).resources.res x).refcount ≡ (
          if res == x
          then ((s.resources.res x).refcount + (2 ^ 32 - 1)) % 2 ^ 32
          else (s.resources.res x).refcount)
  unfolding detach resource_refcount_dec
  detach-refcount x n = ground arith

  pub attach-IsCounted :
      (ss : List Ptr)
      → Distinct ss
      → has sess ss ≡ true
      → res ≢ null
      → IsCounted ss s
      → IsCounted ss (attach sess res r s)
  attach-IsCounted ss d i n c x = ground (
    arith,
    c x,
    attach-refcount x n,
    total-change s (attach sess res r s) x sess (if res == x then 1 else 0) 0 ss d i
        (attach-registrations x) (attach-others x),
  )

  pub detach-IsCounted :
      (ss : List Ptr)
      → Distinct ss
      → has sess ss ≡ true
      → res ≢ null
      → has res (r.registered (s.resources.res res).type) ≡ true
      → IsCounted ss s
      → IsCounted ss (detach sess res r s)
  detach-IsCounted ss d i n member c x = ground (
    arith,
    c x,
    detach-refcount x n,
    total-change s (detach sess res r s) x sess 0 (if res == x then 1 else 0) ss d i
        (detach-registrations x member) (detach-others x),
  )
