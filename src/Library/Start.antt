-- ===== src/Library/Start.antt =====
-- The library after `vaccel_init`.
use vaccel_google_test.Common.{
  ℕ, ◌≡◌, ◌≤◌, ◌<◌, refl, ap, ◌∙◌, subst, inl, inr, arith, Bool-cases, Option-cases, Bool, true,
  false, [], ◌==◌,
}
use vaccel_google_test.Common.Code.{Code, vaccel_ok, vaccel_enomem}
use vaccel_google_test.Common.Memory.{null, Outcome, Outcome-cases, ok, fault}
use vaccel_google_test.IdPool.{id_pool_new}
use vaccel_google_test.IdPool.Invariant.{Serves, id_pool_new-Serves}
use vaccel_google_test.Resources.{ResourceState, resources_bootstrap, res_max, max_resources}
use vaccel_google_test.Resources.Live.{IsLive}
use vaccel_google_test.Sessions.{Sessions, sessions_bootstrap, max_sessions}
use vaccel_google_test.Library.State.{
  Library, Linker, Start, Started, started, exited, load_backend_plugins, create_vaccel_rundir,
  load_from_environment, boot, vaccel_init,
}

resources_bootstrap-IsLive :
    (s : ResourceState)
    → ((t : ℕ) → res_max ≤ t → s.live t ≡ [])
    → (resources_bootstrap true s).0 ≡ vaccel_ok
      × IsLive (resources_bootstrap true s).1
      × ((resources_bootstrap true s).1.live 0 ≡ [])
unfolding resources_bootstrap
resources_bootstrap-IsLive s bounded =
    let (fine, serves) = id_pool_new-Serves max_resources s.pool (omega arith) (omega arith) in
    rw fine (
      refl,
      record {
        initialized = refl;
        first_only = λ t n. ground (arith, bounded t);
        real = refl;
        once = tt;
        ids_once = tt;
        serves = serves;
      },
      refl,
    )

-- A session module that was set up, with no session and no resource.
pub record IsReset (s : Sessions) : Type 0 where
  pub initialized : s.initialized ≡ true
  pub ids : Serves s.ids []
  pub running : (i : ℕ) → i < max_sessions → s.running i ≡ null
  pub resources : IsLive s.resources
  pub no_resource : s.resources.live 0 ≡ []

sessions_bootstrap_lem :
    (s : Sessions)
    → let s' = (sessions_bootstrap true s).1 in
      ((sessions_bootstrap true s).0 ≡ vaccel_ok)
      × (s'.initialized ≡ true)
      × Serves s'.ids []
      × ((i : ℕ) → i < max_sessions → s'.running i ≡ null)
      × (s'.resources ≡ s.resources)
unfolding sessions_bootstrap
sessions_bootstrap_lem s =
    let (fine, serves) = id_pool_new-Serves max_sessions s.ids (omega arith) (omega arith) in
    rw fine (refl, refl, serves, λ i low. ground arith, refl)

-- Without memory both modules fail to start.
no_memory :
    (s : Sessions)
    → ((sessions_bootstrap false s).0 ≡ vaccel_enomem)
      × ((resources_bootstrap false s.resources).0 ≡ vaccel_enomem)
unfolding sessions_bootstrap resources_bootstrap id_pool_new
no_memory s = (refl, refl)

abbrev pub StartsReset : Outcome Started → Type 0
StartsReset o = (s' : Library) → o ≡ ok (started s') → IsReset s'.sessions

started-StartsReset : (s : Library) → IsReset s.sessions → StartsReset (ok (started s))
started-StartsReset s r s' e = let same : s ≡ s' = cc in subst (λ s. IsReset s.sessions) same r

exited-StartsReset : (c : Code) (s : Library) → StartsReset (ok (exited c s))
exited-StartsReset c s s' e = cc

fault-StartsReset : StartsReset fault
fault-StartsReset s' e = cc

load-StartsReset :
    (l : Linker) (e : Start) (s : Library)
    → IsReset s.sessions
    → StartsReset (load_from_environment l e s)
unfolding load_from_environment
load-StartsReset l e s r = elim (Option-cases e.backends) [
  | inl unset ↦ rw unset (started-StartsReset s r)
  | inr (plugins, set) ↦
      elim (Outcome-cases (load_backend_plugins l e.strdup_ok plugins s.plugins)) [
        | inl stuck ↦ rw (set, stuck) fault-StartsReset
        | inr ((c, p), runs) ↦ rw (set, runs) (started-StartsReset (record s { plugins = p }) r)
      ]
]

create_vaccel_rundir_frame :
    (e : Start) (s : Library) → (create_vaccel_rundir e s).1.sessions ≡ s.sessions
unfolding create_vaccel_rundir
create_vaccel_rundir_frame e s = ground arith

boot-StartsReset :
    (b c : Bool) (l : Linker) (e : Start) (s : Library)
    → ((t : ℕ) → res_max ≤ t → s.sessions.resources.live t ≡ [])
    → StartsReset (boot b c l e s)
unfolding boot
boot-StartsReset false c l e s bounded = rw (no_memory s.sessions).0 (exited-StartsReset _ _)
boot-StartsReset true c l e s bounded =
    let (fine, up, ids, running, same) = sessions_bootstrap_lem s.sessions in
    let s' = (sessions_bootstrap true s.sessions).1 in
    go c fine up ids running
      (resources_bootstrap-IsLive s'.resources (λ t high. ap (λ r. r.live t) same ∙ bounded t high))
  where
    go :
        (c : Bool)
        → let s' = (sessions_bootstrap true s.sessions).1 in
          ((sessions_bootstrap true s.sessions).0 ≡ vaccel_ok)
          → s'.initialized ≡ true
          → Serves s'.ids []
          → ((i : ℕ) → i < max_sessions → s'.running i ≡ null)
          → ((resources_bootstrap true s'.resources).0 ≡ vaccel_ok)
            × IsLive (resources_bootstrap true s'.resources).1
            × ((resources_bootstrap true s'.resources).1.live 0 ≡ [])
          → StartsReset (boot true c l e s)
    go false fine up ids running live =
        rw (fine, (no_memory (sessions_bootstrap true s.sessions).1).1) (exited-StartsReset _ _)
    go true fine up ids running (good, live, none_live) =
        rw (fine, good)
          (load-StartsReset l e _ (record {
            initialized = up;
            ids = ids;
            running = running;
            resources = live;
            no_resource = none_live;
          }))

init-StartsReset :
    (l : Linker) (e : Start) (s : Library)
    → ((t : ℕ) → res_max ≤ t → s.sessions.resources.live t ≡ [])
    → StartsReset (vaccel_init l e s)
unfolding vaccel_init
init-StartsReset l e s bounded = elim (Bool-cases ((create_vaccel_rundir e s).0 == vaccel_ok)) [
  | inr a ↦ rw a (exited-StartsReset _ _)
  | inl a ↦ rw a (
      boot-StartsReset e.sessions_calloc_ok e.resources_calloc_ok l e (create_vaccel_rundir e s).1
        (λ t high. ap (λ s. s.resources.live t) (create_vaccel_rundir_frame e s) ∙ bounded t high))
]

-- When `vaccel_init` returns, the process was not ended, and the lists behind the array of live
-- resources are empty, then sessions and resources are set up, with all their ids free, no
-- session running and no resource live, whatever plugins were loaded and wherever loading them
-- failed.
pub vaccel_init-IsReset :
    (l : Linker) (e : Start) (s s' : Library)
    → ((t : ℕ) → res_max ≤ t → s.sessions.resources.live t ≡ [])
    → vaccel_init l e s ≡ ok (started s')
    → IsReset s'.sessions
vaccel_init-IsReset l e s s' bounded runs = init-StartsReset l e s bounded s' runs
