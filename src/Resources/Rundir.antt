-- ===== src/Resources/Rundir.antt =====
-- The directory of a live resource.
use vaccel_google_test.Common.{
  ℕ, ◌-◌, ◌≡◌, ◌≢◌, refl, ◌⊎◌, inl, inr, arith, Bool, Option, none, some, List, ◌==◌, length, take,
  Bool-cases,
}
use vaccel_google_test.Common.Code.{Code, vaccel_ok}
use vaccel_google_test.Common.Memory.{Ptr, null, update}
use vaccel_google_test.Resources.State.{
  ResourceState, resource_create_rundir, rundir_text, max_resource_rundir,
}
use vaccel_google_test.Resources.Ids.{map-frame}
use vaccel_google_test.Resources.Live.{IsLive, id_of, live_ids}

abbrev pub set_rundir : (res : Ptr) → Option (List ℕ) → ResourceState → ResourceState
set_rundir res dir s = record s { res = update s.res res (record (s.res res) { rundir = dir }) }

module _ (root : List ℕ) (print_id : ℕ → List ℕ) (mkdir : List ℕ → Code) (strndup_ok : Bool) where
  -- What `resource_create_rundir` does to a resource: it has a directory if the answer is OK, and
  -- otherwise everything is as before, but that the directory can have become NULL.
  abbrev pub Made : (res : Ptr) → ResourceState → Code × ResourceState → Type 0
  Made res s (c, s') =
      ((c ≡ vaccel_ok)
        × (s'
            ≡ set_rundir res
                (some (take (max_resource_rundir - 1) (rundir_text root print_id (s.res res).id)))
                s))
      ⊎ ((c ≢ vaccel_ok) × ((s' ≡ s) ⊎ (s' ≡ set_rundir res none s)))

  pub resource_create_rundir-Made :
      (res : Ptr) (s : ResourceState)
      → Made res s (resource_create_rundir root print_id mkdir strndup_ok res s)
  unfolding resource_create_rundir
  resource_create_rundir-Made res s =
      let text = rundir_text root print_id (s.res res).id in
      elim (Bool-cases (res == null)) [
        | inl a ↦ rw a (inr ((λ z. ground (arith, z)), inl refl))
        | inr a ↦ elim (Bool-cases (length text == max_resource_rundir)) [
          | inl b ↦ rw (a, b) (inr ((λ z. ground (arith, z)), inl refl))
          | inr b ↦ elim (Bool-cases (mkdir (take (max_resource_rundir - 1) text) == vaccel_ok)) [
            | inr c ↦ rw (a, b, c) (inr ((λ z. ground (arith, z, c)), inl refl))
            | inl c ↦ elim (Bool-cases strndup_ok) [
              | inr d ↦ simp (a, b, c, d) (inr ((λ z. ground (arith, z)), inr refl))
              | inl d ↦ simp (a, b, c, d) (inl (refl, refl))
            ]
          ]
        ]
      ]

pub set_rundir_own :
    (res : Ptr) (dir : Option (List ℕ)) (s : ResourceState)
    → (set_rundir res dir s).res res ≡ record (s.res res) { rundir = dir }
set_rundir_own res dir s = ground arith

pub set_rundir-IsLive :
    (res : Ptr) (dir : Option (List ℕ)) (s : ResourceState)
    → IsLive s
    → IsLive (set_rundir res dir s)
set_rundir-IsLive res dir s v = record {
  initialized = v.initialized;
  first_only = v.first_only;
  real = v.real;
  once = v.once;
  ids_once = rw ids v.ids_once;
  serves = rw ids v.serves;
}
  where
    ids : live_ids (set_rundir res dir s) ≡ live_ids s
    ids = map-frame (id_of s) (id_of (set_rundir res dir s)) (s.live 0) (λ a i. ground arith)
