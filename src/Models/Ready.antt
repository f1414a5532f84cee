-- ===== src/Models/Ready.antt =====
-- A resource that was just made for an object or a model, and destroying it again.
use vaccel_google_test.Common.{ℕ, ◌≡◌, arith, true, Option, none, List, [], ◌∷◌, has, has-append}
use vaccel_google_test.Common.Code.{vaccel_ok}
use vaccel_google_test.Common.Memory.{Ptr, Outcome, ok}
use vaccel_google_test.Resources.{ResourceState}
use vaccel_google_test.Resources.Live.{IsLive, New}
use vaccel_google_test.Resources.Destroy.{Destroyed, resource_destroy-Destroyed}
use vaccel_google_test.Resources.Rundir.{set_rundir, set_rundir-IsLive}
use vaccel_google_test.Files.State.{FileCall}
use vaccel_google_test.Models.State.{Env, World, destroy_with}

-- The resource at `res` is live and unused, and its destructor is called for the structure at
-- `self`.
pub record IsReady (destructor self res : Ptr) (s : ResourceState) : Type 0 where
  pub live : IsLive s
  pub member : has res (s.live 0) ≡ true
  pub unused : (s.res res).refcount ≡ 0
  pub handler : (s.res res).cleanup_resource ≡ destructor
  pub argument : (s.res res).data_ptr ≡ self

pub set_rundir-IsReady :
    (destructor self res : Ptr) (dir : Option (List ℕ)) (s : ResourceState)
    → IsReady destructor self res s
    → IsReady destructor self res (set_rundir res dir s)
set_rundir-IsReady destructor self res dir s r = record {
  live = set_rundir-IsLive res dir s r.live;
  member = r.member;
  unused = ground (arith, r.unused);
  handler = ground (arith, r.handler);
  argument = ground (arith, r.argument);
}

pub New-IsReady :
    (destructor self res : Ptr) (type : ℕ) (s s' : ResourceState)
    → New res type self destructor s s'
    → IsReady destructor self res s'
New-IsReady destructor self res type s s' n = record {
  live = n.live;
  member = rw n.last (ground (arith, has-append res (s.live 0) (res ∷ [])));
  unused = n.unused;
  handler = n.destructor;
  argument = n.argument;
}

-- `resource_destroy` of a resource that is ready, with a destructor that gives `(a', w')`.
pub destroy_with-Destroyed {ℓ} :
    {A : Type ℓ} (cleanup self : Ptr) (destructor : A → World → Outcome (A × World)) (e : Env)
    → (res : Ptr) (a a' : A) (w : World) (calls' : List FileCall) → e.virtio ≡ none
    → IsReady cleanup self res w.resources
    → ((s : ResourceState)
        → destructor a (record w { resources = s })
          ≡ ok (a', record w { resources = s; calls = calls' }))
    → (s : ResourceState) × (destroy_with cleanup self destructor e res a w
        ≡ ok (vaccel_ok, a', record w { resources = s; calls = calls' }))
      × Destroyed res w.resources s
unfolding destroy_with
destroy_with-Destroyed cleanup self destructor e res a a' w calls' alone r runs =
    let (s, destroys, gone) = resource_destroy-Destroyed res w.resources r.live r.member r.unused in
    (s, ground (arith, alone, destroys, runs s, r.handler, r.argument), gone)
