-- ===== src/Models/TorchSaved.antt =====
-- src/resources/torch_saved_model.c.
use vaccel_google_test.Common.{
  ℕ, Bool, true, ◌||◌, not, Option, none, some, List, [], ◌∷◌, ◌==◌, leb, if◌then◌else◌, has,
  length,
}
use vaccel_google_test.Common.Code.{
  Code, vaccel_ok, vaccel_einval, vaccel_enomem, vaccel_enoent, vaccel_enametoolong,
}
use vaccel_google_test.Common.Memory.{Ptr, null, Outcome, ok, fault, ◌>>=◌}
use vaccel_google_test.Resources.{resource_new}
use vaccel_google_test.Files.State.{
  FileOs, File, Contents, dir_exists, vaccel_file_persist, vaccel_file_initialized,
}
use vaccel_google_test.Models.State.{
  Env, World, malloc_resource, free_resource, no_id, text_of, destroy_file_of, create_rundir,
  destroy_with,
}
use vaccel_google_test.Models.Saved.{
  SavedPath, no_saved_path, own_path, rundir_of_resource, is_unset, max_path, in_dir, variables,
  Dirs, file_from_regex, remove_variables, zero_file, set_file, get_file, id_of_resource,
}

-- `struct vaccel_torch_saved_model`
pub record TorchSavedModel : Type 0 where
  pub resource : Ptr
  pub path : SavedPath
  pub model : File

-- `VACCEL_RES_TORCH_MODEL`
abbrev pub res_torch_model : ℕ
res_torch_model = 4

-- "cnn_trace.pt"
abbrev pub cnn_trace : List ℕ
cnn_trace = b'c' ∷ b'n' ∷ b'n' ∷ b'_' ∷ b't' ∷ b'r' ∷ b'a' ∷ b'c' ∷ b'e' ∷ b'.' ∷ b'p' ∷ b't' ∷ []

unfoldable pub torch_model_destructor :
    FileOs → TorchSavedModel → World → Outcome (TorchSavedModel × World)
torch_model_destructor os m w = destroy_file_of m.model w >>= λ (a, w').
    remove_variables os m.resource w' >>= λ w''. ok (record m { model = a }, w'')

-- The same text as in tf_saved_model.c.
unfoldable pub torch_file_from_regex :
    FileOs → Dirs → File → (dirpath pattern : List ℕ) → Code × File
torch_file_from_regex = file_from_regex

unfoldable pub vaccel_torch_saved_model_new : (calloc_ok : Bool) → Option TorchSavedModel
vaccel_torch_saved_model_new calloc_ok =
    if not calloc_ok
    then none
    else some (record { resource = null; path = no_saved_path; model = zero_file })

-- That `strdup` failed does not change the answer.
unfoldable pub vaccel_torch_saved_model_set_path :
    FileOs
    → Dirs
    → (strdup_ok : Bool) → Option TorchSavedModel
    → (path : List ℕ) → Code × Option TorchSavedModel
vaccel_torch_saved_model_set_path os d strdup_ok none path = (vaccel_einval, none)
vaccel_torch_saved_model_set_path os d strdup_ok (some m) path =
    let (ret, a) = torch_file_from_regex os d m.model path cnn_trace in
    let m' = record m { model = a } in
    if not (dir_exists os path)
    then (vaccel_einval, some m)
    else if leb max_path (length (in_dir path variables))
    then (vaccel_enametoolong, some m)
    else if not (ret == vaccel_ok)
    then (vaccel_enoent, some m')
    else (
      vaccel_ok,
      some (record m' {
        path = if strdup_ok then own_path path else no_saved_path;
        resource = null;
      }),
    )

unfoldable pub vaccel_torch_saved_model_get_path : Option TorchSavedModel → SavedPath
vaccel_torch_saved_model_get_path none = no_saved_path
vaccel_torch_saved_model_get_path (some m) = m.path

unfoldable pub vaccel_torch_saved_model_set_model :
    FileOs → Option TorchSavedModel → (ptr : Ptr) (len : ℕ) → Code × Option TorchSavedModel
vaccel_torch_saved_model_set_model os none ptr len = (vaccel_einval, none)
vaccel_torch_saved_model_set_model os (some m) ptr len =
    let (ret, f) = set_file os m.model ptr len in (ret, some (record m { model = f }))

unfoldable pub vaccel_torch_saved_model_get_model :
    FileOs → Option TorchSavedModel → World → Outcome (Contents × Option TorchSavedModel × World)
vaccel_torch_saved_model_get_model os none w = ok (none, none, w)
vaccel_torch_saved_model_get_model os (some m) w =
    get_file os m.model w >>= λ (contents, f, w'). ok (contents, some (record m { model = f }), w')

module _ (destructor : Ptr) (e : Env) (self : Ptr) where
  -- The labels `destroy_resource` and `free_resource`.
  unfoldable pub abandon : Code → TorchSavedModel → World → Outcome (Code × TorchSavedModel × World)
  abandon ret m w =
      destroy_with destructor self (torch_model_destructor e.os) e e.malloc m w >>= λ (_, m', w').
      ok (ret, m', free_resource e.malloc w')

  unfoldable pub persist_model : TorchSavedModel → World → Outcome (Code × TorchSavedModel × World)
  persist_model m w =
      let (ret, w') = create_rundir e e.malloc w in
      let dir = text_of (w'.resources.res e.malloc).rundir in
      let (ret', a, calls) = vaccel_file_persist e.os m.model dir (some cnn_trace) true w'.calls in
      let m' = record m { model = a } in
      if not (ret == vaccel_ok)
      then abandon ret m w'
      else if not (ret' == vaccel_ok)
      then abandon ret' m' (record w' { calls = calls })
      else ok (
        vaccel_ok,
        record m' { path = rundir_of_resource e.malloc; resource = e.malloc },
        record w' { calls = calls },
      )

  unfoldable pub vaccel_torch_saved_model_register :
      TorchSavedModel → World → Outcome (Code × TorchSavedModel × World)
  vaccel_torch_saved_model_register m w =
      let w' = malloc_resource e.malloc w in
      if not (vaccel_file_initialized (some m.model))
      then ok (vaccel_einval, m, w)
      else if e.malloc == null
      then ok (vaccel_enomem, m, w)
      else (resource_new e.virtio e.malloc res_torch_model self destructor w.resources
          >>= λ (ret, s).
              let w'' = record w' { resources = s } in
              if not (ret == vaccel_ok)
              then ok (ret, m, free_resource e.malloc w'')
              else if not (is_unset m.path)
              then ok (vaccel_ok, record m { resource = e.malloc }, w'')
              else persist_model m w'')

  -- The resource is freed whatever `resource_destroy` answers.
  unfoldable pub vaccel_torch_saved_model_destroy :
      Option TorchSavedModel → World → Outcome (Code × Option TorchSavedModel × World)
  vaccel_torch_saved_model_destroy none w = ok (vaccel_einval, none, w)
  vaccel_torch_saved_model_destroy (some m) w =
      if (m.resource == null) || has m.resource w.freed
      then fault
      else (destroy_with destructor self (torch_model_destructor e.os) e m.resource m w
          >>= λ (_, m', w'). ok (vaccel_ok, some m', free_resource m.resource w'))

unfoldable pub vaccel_torch_saved_model_id : Option TorchSavedModel → World → Outcome ℕ
vaccel_torch_saved_model_id none w = ok no_id
vaccel_torch_saved_model_id (some m) w = id_of_resource m.resource w
