-- ===== src/Sessions/Examples.antt =====
-- One session, 40 with the id 1, that has the resource 31 registered; the pool has four ids.
use vaccel_google_test.Common.{
  ℕ, ◌≡◌, ◌+◌, ◌≤◌, ◌≢◌, ◌⊎◌, refl, none, some, [], ◌∷◌, ◌==◌, if◌then◌else◌, arith, true, has,
}
use vaccel_google_test.Common.Code.{Code, vaccel_ok, vaccel_ebusy}
use vaccel_google_test.Common.Memory.{null, Ptr, ok}
use vaccel_google_test.Resources.{resource_destroy}
use vaccel_google_test.Sessions.{
  SessionResources, Sessions, vaccel_sess_register, vaccel_sess_unregister, vaccel_sess_init,
  vaccel_sess_free,
}
use vaccel_google_test.Sessions.State.{Os, detach}
use vaccel_google_test.Sessions.Occurrences.{registrations}
use vaccel_google_test.Sessions.Counted.{IsCounted}
use vaccel_google_test.Sessions.Registration.{
  vaccel_sess_register-IsCounted, vaccel_sess_unregister-IsCounted, resource_destroy-registered,
  vaccel_sess_unregister-register,
}
use vaccel_google_test.Sessions.Free.{Freed, vaccel_sess_free-Freed}
use vaccel_google_test.Sessions.Init.{IsRunning, Started, Undone, vaccel_sess_init-Outcome}

abbrev one_list : SessionResources
one_list = record { rundir = []; registered = λ t. if t == 0 then 31 ∷ [] else [] }

abbrev one_session : Sessions
one_session = record {
  initialized = true;
  ids = record { ids = 1 ∷ 0 ∷ 0 ∷ 0 ∷ []; max = 4; next = 1 };
  running = λ i. if i == 0 then 40 else 0;
  sess = λ q. record { session_id = 1; resources = some one_list; hint = 0 };
  resources = record {
    initialized = true;
    pool = record { ids = 1 ∷ 2 ∷ 0 ∷ 0 ∷ []; max = 4; next = 2 };
    live = λ t. if t == 0 then 30 ∷ 31 ∷ [] else [];
    res = λ r. record {
      id = if r == 30 then 1 else 2;
      type = 0;
      data_ptr = 5;
      cleanup_resource = 0;
      refcount = if 31 == r then 1 else 0;
      rundir = none;
    };
    cleaned = [];
    removed = [];
  };
  made = [];
  removed = [];
}

one_session-IsCounted : IsCounted (40 ∷ []) one_session
one_session-IsCounted res = ground arith

vaccel_sess_register-IsCounted_example :
    IsCounted (40 ∷ []) (vaccel_sess_register none true 40 30 one_session).1
vaccel_sess_register-IsCounted_example =
    vaccel_sess_register-IsCounted 40 30 one_session none true (40 ∷ []) (refl, tt) refl
      one_session-IsCounted

vaccel_sess_unregister-IsCounted_example : IsCounted (40 ∷ []) (detach 40 31 one_list one_session)
unfolding vaccel_sess_unregister
vaccel_sess_unregister-IsCounted_example =
    vaccel_sess_unregister-IsCounted 40 31 one_session (40 ∷ []) vaccel_ok
      (detach 40 31 one_list one_session) (refl, tt) refl one_session-IsCounted refl

resource_destroy-registered_example :
    resource_destroy none 31 one_session.resources ≡ ok (vaccel_ebusy, one_session.resources)
resource_destroy-registered_example =
    resource_destroy-registered 40 31 one_session none (40 ∷ []) one_session-IsCounted (omega arith)
      refl (omega arith) refl (ground arith)

vaccel_sess_unregister-register_example :
    (s' : Sessions) × (vaccel_sess_unregister 40 30
        (vaccel_sess_register none true 40 30 one_session).1
      ≡ ok (vaccel_ok, s'))
    × (((q x : Ptr) → registrations s' x q ≡ registrations one_session x q)
        × ((x : Ptr) → (s'.resources.res x).refcount ≡ (one_session.resources.res x).refcount))
unfolding vaccel_sess_register
vaccel_sess_unregister-register_example =
    vaccel_sess_unregister-register 40 30 one_session none true one_list refl refl (omega arith)
      refl

abbrev os : Os
os = record {
  malloc_ok = true;
  root_rundir = b'/' ∷ [];
  print_id = λ n. (b'0' + n) ∷ [];
  mkdir_ok = λ path. true;
}

four_bounds : (a : ℕ) → has a (2 ∷ 3 ∷ 4 ∷ 1 ∷ []) ≡ true → (1 ≤ a) × (a ≤ 4)
four_bounds a h = ground arith

one_session-IsRunning : IsRunning one_session (1 ∷ [])
one_session-IsRunning = record {
  initialized = refl;
  serves = record {
    size = refl;
    int = omega arith;
    counted = refl;
    within = omega arith;
    distinct = (refl, (refl, (refl, (refl, tt))));
    bounds = four_bounds;
  };
  size = omega arith;
}

vaccel_sess_init-Outcome_example :
    (c : Code) × (s' : Sessions) × (vaccel_sess_init none os 41 3 one_session ≡ ok (c, s'))
    × (((c ≡ vaccel_ok) × Started os 41 3 (1 ∷ []) one_session s')
        ⊎ ((c ≢ vaccel_ok) × Undone 41 (1 ∷ []) one_session s'))
vaccel_sess_init-Outcome_example =
    vaccel_sess_init-Outcome os 41 3 one_session (1 ∷ []) one_session-IsRunning (ground arith)
      (omega arith)

-- Only 31 is in a list, of its type.
listed : (t x : ℕ) → has x (one_list.registered t) ≡ true → (x ≢ null) × (0 ≡ t)
listed t x i = ground arith

beyond : (t : ℕ) → 6 ≤ t → one_list.registered t ≡ []
beyond t h = ground arith

vaccel_sess_free-Freed_example :
    (s' : Sessions) × (vaccel_sess_free none 40 one_session ≡ ok (vaccel_ok, s'))
    × Freed 40 (40 ∷ []) (1 ∷ []) one_session s'
vaccel_sess_free-Freed_example =
    vaccel_sess_free-Freed 40 (40 ∷ []) (refl, tt) refl (ground arith) one_session one_list (1 ∷ [])
      one_session-IsRunning refl refl listed beyond one_session-IsCounted
