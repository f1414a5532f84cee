-- ===== src/Sessions/Free.antt =====
-- Freeing a session of a library that has no VirtIO plugin.
use vaccel_google_test.Common.{
  ℕ, ◌+◌, ◌-◌, ◌%◌, ◌^◌, ◌≤◌, ◌≡◌, refl, ap, sym, ◌∙◌, subst, ◌≢◌, inl, inr, Bool-cases, true,
  false, none, some, List, [], arith, ◌==◌, leb, has, remove, Distinct,
}
use vaccel_google_test.Common.Code.{vaccel_ok}
use vaccel_google_test.Common.Memory.{Ptr, null, update, ok}
use vaccel_google_test.IdPool.{IdPool, id_pool_release}
use vaccel_google_test.IdPool.Invariant.{Serves, held_bounds}
use vaccel_google_test.IdPool.Release.{id_pool_release-Serves}
use vaccel_google_test.Resources.{res_max}
use vaccel_google_test.Sessions.State.{
  SessionResources, Sessions, unregister_from, drop_resources, cleanup_session_resources,
  return_session, set_running, vaccel_sess_free, max_sessions,
}
use vaccel_google_test.Sessions.Occurrences.{registrations, total-frame}
use vaccel_google_test.Sessions.Counted.{IsCounted}
use vaccel_google_test.Sessions.Init.{IsRunning}
use vaccel_google_test.Sessions.Emptied.{IsTyped, unregister_from_lem}

-- What freeing a session leaves.
pub record Freed (sess : Ptr) (ss held : List ℕ) (s s' : Sessions) : Type 0 where
  pub resources : (s'.sess sess).resources ≡ none
  pub counted : IsCounted ss s'
  pub running : IsRunning s' (remove (s.sess sess).session_id held)
  pub entry : s'.running ((s.sess sess).session_id - 1) ≡ null
  pub others : (q : Ptr) → q ≢ sess → s'.sess q ≡ s.sess q

module _ (sess : Ptr) (ss : List Ptr) (once : Distinct ss) (member : has sess ss ≡ true)
    (ne : sess ≢ null) where
  no_registrations :
      (s : Sessions) (r : SessionResources) (x : Ptr)
      → (s.sess sess).resources ≡ some r
      → ((t : ℕ) → r.registered t ≡ [])
      → registrations s x sess ≡ 0
  no_registrations s r x has_r empty =
      let none_left = empty (s.resources.res x).type in rw (has_r, none_left)

  drop-registrations :
      (s : Sessions) (r0 r : SessionResources) (x q : Ptr)
      → (s.sess sess).resources ≡ some r
      → ((t : ℕ) → r.registered t ≡ [])
      → registrations (drop_resources sess r0 s) x q ≡ registrations s x q
  unfolding drop_resources
  drop-registrations s r0 r x q has_r empty =
      let gone = no_registrations s r x has_r empty in
      elim (Bool-cases (sess == q)) [
        | inl same ↦ let e : q ≡ sess = ground arith in rw e (ground (arith, gone))
        | inr other ↦ rw other
      ]

  drop-IsCounted :
      (s : Sessions) (r0 r : SessionResources)
      → (s.sess sess).resources ≡ some r
      → ((t : ℕ) → r.registered t ≡ [])
      → IsCounted ss s
      → IsCounted ss (drop_resources sess r0 s)
  unfolding drop_resources
  drop-IsCounted s r0 r has_r empty counted x =
      counted x
      ∙ ap (λ n. n % 2 ^ 32)
          (sym (
            total-frame s (drop_resources sess r0 s) x ss
              (λ q i. drop-registrations s r0 r x q has_r empty)))

  cleanup_lem :
      (s t : Sessions) (r : SessionResources)
      → (s.sess sess).resources ≡ some r
      → unregister_from res_max 0 sess s ≡ ok t
      → cleanup_session_resources sess s ≡ ok (vaccel_ok, drop_resources sess r t)
  unfolding cleanup_session_resources
  cleanup_lem s t r has_r runs =
      let given : (sess == null) ≡ false = ground arith in
      rw (cleanup_session_resources, given, has_r, runs)

  clear_lem :
      (id : ℕ) (t : Sessions)
      → 1 ≤ id
      → id ≤ max_sessions
      → set_running id null t ≡ ok (record t { running = update t.running (id - 1) null })
  unfolding set_running
  clear_lem id t low high =
      let back : (id + (2 ^ 32 - 1)) % 2 ^ 32 ≡ id - 1 = omega arith in
      let inside : leb max_sessions (id - 1) ≡ false = ground arith in rw (back, inside)

  free_lem :
      (s u : Sessions) (pool : IdPool) (id : ℕ)
      → s.initialized ≡ true
      → id_pool_release (s.sess sess).session_id s.ids ≡ ok pool
      → cleanup_session_resources sess (record s { ids = pool }) ≡ ok (vaccel_ok, u)
      → (u.sess sess).session_id ≡ id
      → 1 ≤ id
      → id ≤ max_sessions
      → vaccel_sess_free none sess s
        ≡ ok (vaccel_ok, record u { running = update u.running (id - 1) null })
  unfolding vaccel_sess_free return_session
  free_lem s u pool id up released cleaned same low high =
      let given : (sess == null) ≡ false = ground arith in
      rw (vaccel_sess_free, given, released, cleaned, up, same, clear_lem id u low high)

  -- Without a VirtIO plugin, let the id pool serve the sessions that run, the session hold an id
  -- of the pool and have resources under their types in its lists, and let the reference counts
  -- be right for a list of different sessions that contains the session. Then `vaccel_sess_free`
  -- succeeds: the reference counts are right, the session has no resources, its id is held no
  -- more, its entry in the table is NULL, and other sessions are untouched.
  pub vaccel_sess_free-Freed :
      (s : Sessions) (r : SessionResources) (held : List ℕ)
      → IsRunning s held
      → has (s.sess sess).session_id held ≡ true
      → (s.sess sess).resources ≡ some r
      → ((t : ℕ) → IsTyped s t (r.registered t))
      → ((t : ℕ) → res_max ≤ t → r.registered t ≡ [])
      → IsCounted ss s
      → (s' : Sessions) × (vaccel_sess_free none sess s ≡ ok (vaccel_ok, s'))
        × Freed sess ss held s s'
  unfolding drop_resources
  vaccel_sess_free-Freed s r held up holds has_r typed beyond counted =
      let id = (s.sess sess).session_id in
      let (pool, released, serves, first, size) =
        id_pool_release-Serves id s.ids held up.serves holds in
      let range = held_bounds id up.serves holds in
      let s1 = record s { ids = pool } in
      let (t, r', runs, has_r', empty, counted', kept) =
        unregister_from_lem sess ss once member ne res_max 0 s1 r refl has_r typed
          (λ u h. elim h [ inl below ↦ elim below [ ] | inr above ↦ beyond u above ]) counted in
      let u = drop_resources sess r t in
      let same : (u.sess sess).session_id ≡ id = ground (arith, kept.id) in
      (
        record u { running = update u.running (id - 1) null },
        free_lem s u pool id up.initialized released (cleanup_lem s1 t r has_r runs) same range.0
            (omega (arith, range.1, up.size)),
        record {
          resources = ground arith;
          counted = drop-IsCounted t r r' has_r' empty counted';
          running = record {
            initialized = kept.initialized ∙ up.initialized;
            serves = subst (λ p. Serves p (remove id held)) (sym kept.ids) serves;
            size = rw kept.ids (omega (arith, size, up.size));
          };
          entry = ground arith;
          others = λ q n. ground (arith, kept.others q n);
        },
      )
