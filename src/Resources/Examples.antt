-- ===== src/Resources/Examples.antt =====
-- Two live resources, 30 with the id 1 and 31 with the id 2, of which a session uses the second;
-- the pool has four ids.
use vaccel_google_test.Common.{
  ℕ, ◌≡◌, ◌≤◌, refl, none, [], ◌∷◌, ◌==◌, if◌then◌else◌, arith, true, has,
}
use vaccel_google_test.Common.Code.{vaccel_ok}
use vaccel_google_test.Common.Memory.{ok}
use vaccel_google_test.Resources.{ResourceState, resource_new, resource_destroy, resources_cleanup}
use vaccel_google_test.Resources.Live.{IsLive, New, resource_new-New}
use vaccel_google_test.Resources.Destroy.{
  Destroyed, resource_destroy-Destroyed, resources_cleanup-used,
}

abbrev two_live : ResourceState
two_live = record {
  initialized = true;
  pool = record { ids = 1 ∷ 2 ∷ 0 ∷ 0 ∷ []; max = 4; next = 2 };
  live = λ t. if t == 0 then 30 ∷ 31 ∷ [] else [];
  res = λ r. record {
    id = if r == 30 then 1 else 2;
    type = 0;
    data_ptr = 5;
    cleanup_resource = 0;
    refcount = if r == 31 then 1 else 0;
    rundir = none;
  };
  cleaned = [];
  removed = [];
}

four_bounds : (a : ℕ) → has a (3 ∷ 4 ∷ 1 ∷ 2 ∷ []) ≡ true → (1 ≤ a) × (a ≤ 4)
four_bounds a h = ground arith

two_live-IsLive : IsLive two_live
two_live-IsLive = record {
  initialized = refl;
  first_only = λ t ne. ground arith;
  real = refl;
  once = (refl, (refl, tt));
  ids_once = (refl, (refl, tt));
  serves = record {
    size = refl;
    int = omega arith;
    counted = refl;
    within = omega arith;
    distinct = (refl, (refl, (refl, (refl, tt))));
    bounds = four_bounds;
  };
}

resource_new-New_example :
    (s' : ResourceState) × (resource_new none 32 1 7 8 two_live ≡ ok (vaccel_ok, s'))
    × New 32 1 7 8 two_live s'
resource_new-New_example =
    resource_new-New 32 1 7 8 two_live two_live-IsLive (ground arith) (omega arith) refl
      (omega arith)

resource_destroy-Destroyed_example :
    (s' : ResourceState) × (resource_destroy none 30 two_live ≡ ok (vaccel_ok, s'))
    × Destroyed 30 two_live s'
resource_destroy-Destroyed_example =
    resource_destroy-Destroyed 30 two_live two_live-IsLive refl refl

resources_cleanup-used_example :
    (s' : ResourceState) × (resources_cleanup none two_live ≡ ok (vaccel_ok, s'))
    × (s'.live 0 ≡ 31 ∷ [])
    × (s'.initialized ≡ true)
resources_cleanup-used_example = resources_cleanup-used two_live two_live-IsLive
