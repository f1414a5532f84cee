-- ===== src/Sessions/Init.antt =====
-- Starting a session of a library that has no VirtIO plugin.
use vaccel_google_test.Common.{
  ℕ, ◌+◌, ◌-◌, ◌%◌, ◌^◌, ◌≤◌, ◌<◌, ◌≡◌, refl, ap, subst, ◌≢◌, ◌⊎◌, inl, inr, Bool-cases, take, true,
  false, none, some, List, [], ◌∷◌, ◌++◌, arith, ◌==◌, leb, has, length, remove, remove_absent,
}
use vaccel_google_test.Common.Code.{Code, vaccel_ok, vaccel_enomem, vaccel_enametoolong}
use vaccel_google_test.Common.Memory.{Ptr, null, update, ok}
use vaccel_google_test.IdPool.{IdPool, id_pool_get, id_pool_release}
use vaccel_google_test.IdPool.Invariant.{Serves, Got, id_pool_get-Got}
use vaccel_google_test.IdPool.Release.{id_pool_release-Serves}
use vaccel_google_test.Sessions.State.{
  SessionResources, Sessions, Os, max_sessions, max_session_rundir, session_infix, obtain_session,
  return_session, set_running, write_sess, initialize_session_resources, vaccel_sess_init,
}

-- The session memory and the id pool after an id was given out.
abbrev named : (sess : Ptr) (id : ℕ) (ids : IdPool) → Sessions → Sessions
named sess id ids s =
    write_sess sess (record (s.sess sess) { session_id = id }) (record s { ids = ids })

-- The id pool, of at most 1024 ids, serves the sessions that run.
pub record IsRunning (s : Sessions) (held : List ℕ) : Type 0 where
  pub initialized : s.initialized ≡ true
  pub serves : Serves s.ids held
  pub size : s.ids.max ≤ max_sessions

-- The path of a session's directory, before `snprintf` cuts it, and after.
abbrev pub rundir_text : Os → (sess_id : ℕ) → List ℕ
rundir_text os sess_id = os.root_rundir ++ (session_infix ++ os.print_id sess_id)

abbrev pub session_rundir : Os → (sess_id : ℕ) → List ℕ
session_rundir os sess_id = take (max_session_rundir - 1) (rundir_text os sess_id)

-- The session has the resources `r`: empty lists, and the directory that its id names, which `mkdir`
-- was asked for once, and made.
pub record Equipped (os : Os) (sess : Ptr) (s s' : Sessions) (r : SessionResources) : Type 0 where
  pub stored : (s'.sess sess).resources ≡ some r
  pub rundir : r.rundir ≡ session_rundir os (s'.sess sess).session_id
  pub allowed : length (rundir_text os (s'.sess sess).session_id) ≢ max_session_rundir
  pub granted : os.mkdir_ok r.rundir ≡ true
  pub made : s'.made ≡ s.made ++ r.rundir ∷ []
  pub empty : (t : ℕ) → r.registered t ≡ []

-- What a successful `vaccel_sess_init` leaves.
pub record Started (os : Os) (sess : Ptr) (flags : ℕ) (held : List ℕ) (s s' : Sessions)
    : Type 0 where
  pub fresh : has (s'.sess sess).session_id held ≡ false
  pub running : IsRunning s' ((s'.sess sess).session_id ∷ held)
  pub entry : s'.running ((s'.sess sess).session_id - 1) ≡ sess
  pub hinted : (s'.sess sess).hint ≡ flags
  pub equipped : (r : SessionResources) × Equipped os sess s s' r
  pub others : (q : Ptr) → q ≢ sess → s'.sess q ≡ s.sess q

-- What a failed `vaccel_sess_init` leaves: the id is back in the pool.
pub record Undone (sess : Ptr) (held : List ℕ) (s s' : Sessions) : Type 0 where
  pub running : IsRunning s' held
  pub entries : s'.running ≡ s.running
  pub made : s'.made ≡ s.made
  pub others : (q : Ptr) → q ≢ sess → s'.sess q ≡ s.sess q

back_lem : (id : ℕ) (held : List ℕ) → has id held ≡ false → remove id (id ∷ held) ≡ held
back_lem id held absent = ground (arith, remove_absent id held absent)

module _ (os : Os) (sess : Ptr) (flags : ℕ) (s : Sessions) where
  obtained :
      (id : ℕ) (ids : IdPool)
      → id_pool_get s.ids ≡ ok (id, ids)
      → 1 ≤ id
      → id ≤ max_sessions
      → obtain_session none sess flags s ≡ ok (vaccel_ok, named sess id ids s)
  unfolding obtain_session
  obtained id ids got low high =
      let wrap : id % 2 ^ 32 ≡ id = omega arith in
      let some_id : (id == 0) ≡ false = ground arith in rw (got, wrap, some_id)

  set :
      (id : ℕ) (t : Sessions)
      → 1 ≤ id
      → id ≤ max_sessions
      → set_running id sess t ≡ ok (record t { running = update t.running (id - 1) sess })
  unfolding set_running
  set id t low high =
      let back : (id + (2 ^ 32 - 1)) % 2 ^ 32 ≡ id - 1 = omega arith in
      let inside : leb max_sessions (id - 1) ≡ false = ground arith in rw (back, inside)

  init_made :
      (id : ℕ) (ids : IdPool) (t : Sessions)
      → sess ≢ null
      → s.initialized ≡ true
      → id_pool_get s.ids ≡ ok (id, ids)
      → 1 ≤ id
      → id ≤ max_sessions
      → initialize_session_resources os sess (named sess id ids s) ≡ (vaccel_ok, t)
      → (t.sess sess).session_id ≡ id
      → vaccel_sess_init none os sess flags s
        ≡ ok (
          vaccel_ok,
          record (write_sess sess (record (t.sess sess) { hint = flags }) t) {
            running = update t.running (id - 1) sess;
          },
        )
  unfolding vaccel_sess_init
  init_made id ids t ne up got low high made kept =
      let given : (sess == null) ≡ false = ground arith in
      let stored =
        set (t.sess sess).session_id (write_sess sess (record (t.sess sess) { hint = flags }) t)
          (omega arith) (omega arith) in
      rw (given, obtained id ids got low high, made, up, stored, kept)

  init_failed :
      (id : ℕ) (ids back : IdPool) (c : Code) (t : Sessions)
      → sess ≢ null
      → s.initialized ≡ true
      → id_pool_get s.ids ≡ ok (id, ids)
      → 1 ≤ id
      → id ≤ max_sessions
      → initialize_session_resources os sess (named sess id ids s) ≡ (c, t)
      → c ≢ vaccel_ok
      → (t.sess sess).session_id ≡ id
      → id_pool_release id t.ids ≡ ok back
      → vaccel_sess_init none os sess flags s ≡ ok (c, record t { ids = back })
  unfolding vaccel_sess_init return_session
  init_failed id ids back c t ne up got low high failed bad kept released =
      let given : (sess == null) ≡ false = ground arith in
      let bad' : (c == vaccel_ok) ≡ false = ground arith in
      rw (given, obtained id ids got low high, failed, up, bad', kept, released)

  abbrev equipped_lists : Sessions → SessionResources
  equipped_lists t = record {
    rundir = session_rundir os (t.sess sess).session_id;
    registered = λ _. [];
  }

  -- The session after `initialize_session_resources`.
  abbrev equipped : Sessions → Sessions
  equipped t =
      write_sess sess (record (t.sess sess) { resources = some (equipped_lists t) })
        (record t { made = t.made ++ (equipped_lists t).rundir ∷ [] })

  initialize_lem :
      (t : Sessions)
      → sess ≢ null
      → ((initialize_session_resources os sess t ≡ (vaccel_ok, equipped t))
          × (length (rundir_text os (t.sess sess).session_id) ≢ max_session_rundir)
          × (os.mkdir_ok (session_rundir os (t.sess sess).session_id) ≡ true))
        ⊎ ((c : Code) × (c ≢ vaccel_ok) × (initialize_session_resources os sess t ≡ (c, t)))
  unfolding initialize_session_resources
  initialize_lem t ne = elim (Bool-cases os.malloc_ok) [
    | inr m ↦ inr (vaccel_enomem, ground arith, ground arith)
    | inl m ↦
        elim (Bool-cases (length (rundir_text os (t.sess sess).session_id) == max_session_rundir)) [
          | inl l ↦ inr (vaccel_enametoolong, ground arith, ground arith)
          | inr l ↦ elim (Bool-cases (os.mkdir_ok (session_rundir os (t.sess sess).session_id))) [
            | inr k ↦ inr (2 ^ 32 - 1, ground arith, ground arith)
            | inl k ↦ inl (ground arith, ground arith, k)
          ]
        ]
  ]

  started_lem :
      (held : List ℕ)
      → IsRunning s held
      → sess ≢ null
      → length held < s.ids.max
      → (id : ℕ) × (ids : IdPool) × Got s.ids held id ids
        × (ids.max ≡ s.ids.max)
        × (1 ≤ id)
        × (id ≤ max_sessions)
  started_lem held up ne room =
      let (id, ids, got) = id_pool_get-Got s.ids held up.serves room in
      (id, ids, got, got.keeps, got.bounds.0, omega (arith, got.bounds.1, up.size))

  -- Without a VirtIO plugin, where the pool serves the held ids and while fewer ids are held than
  -- it has, `vaccel_sess_init` of a session runs. Either it succeeds: the session has an id that
  -- nobody held, is in the table of running sessions at this id, and has its hint and empty
  -- lists; `mkdir` made one directory, which the root directory and the id name, of at most 511
  -- characters, and which the session remembers. Or it fails: the id is back in the pool, the
  -- table is as it was, and no directory was made. Other sessions are untouched.
  pub vaccel_sess_init-Outcome :
      (held : List ℕ)
      → IsRunning s held
      → sess ≢ null
      → length held < s.ids.max
      → (c : Code) × (s' : Sessions) × (vaccel_sess_init none os sess flags s ≡ ok (c, s'))
        × (((c ≡ vaccel_ok) × Started os sess flags held s s')
            ⊎ ((c ≢ vaccel_ok) × Undone sess held s s'))
  vaccel_sess_init-Outcome held up ne room =
      let (id, ids, got, keeps, low, high) = started_lem held up ne room in
      let t = named sess id ids s in
      let final = write_sess sess (record ((equipped t).sess sess) { hint = flags }) (equipped t) in
      let named_id : id ≡ (final.sess sess).session_id = ground arith in
      elim (initialize_lem t ne) [
        | inl (made, allowed, granted) ↦ (
          vaccel_ok,
          _,
          init_made id ids (equipped t) ne up.initialized got.runs low high made ground arith,
          inl (
            refl,
            record {
              fresh = ground (arith, got.fresh);
              running = record {
                initialized = up.initialized;
                serves = subst (λ n. Serves ids (n ∷ held)) named_id got.serves;
                size = omega (arith, keeps, up.size);
              };
              entry = ground arith;
              hinted = ground arith;
              equipped = (
                equipped_lists t,
                record {
                  stored = ground arith;
                  rundir = ap (λ n. session_rundir os n) ground arith;
                  allowed =
                      subst (λ n. length (rundir_text os n) ≢ max_session_rundir) ground arith
                        allowed;
                  granted = granted;
                  made = refl;
                  empty = λ _. refl;
                },
              );
              others = λ q n. ground arith;
            },
          ),
        )
        | inr (c, bad, failed) ↦
            let (back, runs, serves, first, size) =
              id_pool_release-Serves id ids (id ∷ held) got.serves ground arith in
            (
              c,
              record t { ids = back },
              init_failed id ids back c t ne up.initialized got.runs low high failed bad ground
                  arith runs,
              inr (
                bad,
                record {
                  running = record {
                    initialized = up.initialized;
                    serves = subst (Serves back) (back_lem id held got.fresh) serves;
                    size = omega (arith, size, keeps, up.size);
                  };
                  entries = refl;
                  made = refl;
                  others = λ q n. ground arith;
                },
              ),
            )
      ]
