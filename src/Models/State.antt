-- ===== src/Models/State.antt =====
-- What the resources with files share: the surroundings of a call, and `resource_destroy` together
-- with the destructor that it calls.
use vaccel_google_test.Common.{
  ℕ, ◌-◌, ◌^◌, Bool, ◌&&◌, Option, none, some, List, [], ◌∷◌, ◌++◌, ◌==◌, if◌then◌else◌, remove,
}
use vaccel_google_test.Common.Code.{Code, vaccel_ok}
use vaccel_google_test.Common.Memory.{Ptr, Outcome, ok, fault, ◌>>=◌}
use vaccel_google_test.Resources.{Host, ResourceState, resource_destroy, resource_create_rundir}
use vaccel_google_test.Files.State.{FileCall, FileOs, File, vaccel_file_destroy}

-- What a call depends on: the system's answers, a host if there is one, the address that `malloc`
-- gives (null if it fails), and what `resource_create_rundir` needs.
pub record Env : Type 0 where
  pub os : FileOs
  pub virtio : Option Host
  pub malloc : Ptr
  pub root : List ℕ
  pub print_id : ℕ → List ℕ
  pub mkdir : List ℕ → Code
  pub strndup_ok : Bool

-- The resources, the calls of the system for files so far, and the addresses of the resources that
-- were freed.
pub record World : Type 0 where
  pub resources : ResourceState
  pub calls : List FileCall
  pub freed : List Ptr

-- `malloc` may give an address that was freed.
abbrev pub malloc_resource : Ptr → World → World
malloc_resource res w = record w { freed = remove res w.freed }

abbrev pub free_resource : Ptr → World → World
free_resource res w = record w { freed = w.freed ++ res ∷ [] }

-- `(vaccel_id_t)-1`
abbrev pub no_id : ℕ
no_id = 2 ^ 64 - 1

-- The resource's directory; the empty string stands for NULL.
abbrev pub text_of : Option (List ℕ) → List ℕ
text_of none = []
text_of (some dir) = dir

-- `vaccel_file_destroy` of a file that is part of a structure; its code is not looked at.
unfoldable pub destroy_file_of : File → World → Outcome (File × World)
destroy_file_of f w = elim (vaccel_file_destroy (some f) w.calls) [
  | fault ↦ fault
  | ok (ret, none, calls) ↦ fault
  | ok (ret, some g, calls) ↦ ok (g, record w { calls = calls })
]

-- `resource_create_rundir(res)`
unfoldable pub create_rundir : Env → (res : Ptr) → World → Code × World
create_rundir e res w =
    let (ret, s) = resource_create_rundir e.root e.print_id e.mkdir e.strndup_ok res w.resources in
    (ret, record w { resources = s })

module _ {ℓ} {A : Type ℓ} where
  -- `resource_destroy`, in which the resource's destructor is called if it is `cleanup`, with the
  -- structure `a` at the address `self`. The calls of the destructor stand behind those of
  -- `resource_destroy`; the directory of the resource is removed after them.
  unfoldable pub destroy_with :
      (cleanup self : Ptr) (destructor : A → World → Outcome (A × World))
      → Env
      → (res : Ptr) → A
      → World
      → Outcome (Code × A × World)
  destroy_with cleanup self destructor e res a w =
      resource_destroy e.virtio res w.resources >>= λ (ret, s).
      let r = w.resources.res res in
      let w' = record w { resources = s } in
      if (ret == vaccel_ok) && ((r.cleanup_resource == cleanup) && (r.data_ptr == self))
      then (destructor a w' >>= λ (a', w''). ok (ret, a', w''))
      else ok (ret, a, w')
