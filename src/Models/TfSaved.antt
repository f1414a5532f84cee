-- ===== src/Models/TfSaved.antt =====
-- src/resources/tf_saved_model.c.
use vaccel_google_test.Common.{
  ℕ, ◌-◌, ◌+◌, ◌^◌, Bool, true, false, ◌&&◌, ◌||◌, not, Option, none, some, List, [], ◌∷◌, ◌++◌,
  ◌==◌, leb, if◌then◌else◌, has, remove, length,
}
use vaccel_google_test.Common.Code.{
  Code, vaccel_ok, vaccel_einval, vaccel_enomem, vaccel_enoent, vaccel_enametoolong,
}
use vaccel_google_test.Common.Memory.{Ptr, null, Outcome, ok, fault, ◌>>=◌}
use vaccel_google_test.Resources.{Resource, Host, ResourceState, resource_new}
use vaccel_google_test.Files.State.{
  FileCall, made_dir, FileOs, File, Contents, dir_exists, vaccel_file_persist,
  vaccel_file_initialized,
}
use vaccel_google_test.Models.State.{
  Env, World, malloc_resource, free_resource, no_id, text_of, destroy_file_of, create_rundir,
  destroy_with,
}
use vaccel_google_test.Models.Saved.{
  SavedPath, no_saved_path, own_path, rundir_of_resource, is_unset, max_path, in_dir, variables,
  Dirs, file_from_regex, remove_variables, zero_file, set_file, get_file, id_of_resource,
}
pub mod Abandon
pub mod Stored
pub mod Persisting
pub mod Register
pub mod Find

-- `struct vaccel_tf_saved_model`
pub record TfSavedModel : Type 0 where
  pub resource : Ptr
  pub path : SavedPath
  pub model : File
  pub checkpoint : File
  pub var_index : File

-- The answers for the calls of each file: for the model those of `env`.
pub record SavedEnv : Type 0 where
  pub env : Env
  pub dirs : Dirs
  pub os_checkpoint : FileOs
  pub os_var_index : FileOs
  pub strdup_ok : Bool

-- `VACCEL_RES_TF_MODEL`
abbrev pub res_tf_model : ℕ
res_tf_model = 0

unfoldable pub destroy_files : TfSavedModel → World → Outcome (TfSavedModel × World)
destroy_files m w = destroy_file_of m.model w >>= λ (a, w₁).
    destroy_file_of m.checkpoint w₁ >>= λ (b, w₂). destroy_file_of m.var_index w₂ >>= λ (c, w₃).
    ok (record m { model = a; checkpoint = b; var_index = c }, w₃)

unfoldable pub tf_saved_model_destructor :
    FileOs → TfSavedModel → World → Outcome (TfSavedModel × World)
tf_saved_model_destructor os m w =
    destroy_files m w >>= λ (m', w'). remove_variables os m'.resource w' >>= λ w''. ok (m', w'')

unfoldable pub vaccel_tf_saved_model_new : (calloc_ok : Bool) → Option TfSavedModel
vaccel_tf_saved_model_new calloc_ok =
    if not calloc_ok
    then none
    else some (record {
      resource = null;
      path = no_saved_path;
      model = zero_file;
      checkpoint = zero_file;
      var_index = zero_file;
    })

-- "saved_model.pb$", "variables.data-*" and "variables.index"
pub record Patterns : Type 0 where
  pub model : List ℕ
  pub checkpoint : List ℕ
  pub var_index : List ℕ

abbrev pub patterns : Patterns
patterns = record {
  model =
      b's' ∷ b'a' ∷ b'v' ∷ b'e' ∷ b'd' ∷ b'_' ∷ b'm' ∷ b'o' ∷ b'd' ∷ b'e' ∷ b'l' ∷ b'.' ∷ b'p'
      ∷ b'b' ∷ b'$' ∷ [];
  checkpoint = variables ++ (b'.' ∷ b'd' ∷ b'a' ∷ b't' ∷ b'a' ∷ b'-' ∷ b'*' ∷ []);
  var_index = variables ++ (b'.' ∷ b'i' ∷ b'n' ∷ b'd' ∷ b'e' ∷ b'x' ∷ []);
}

-- The labels `destroy_var_index_file`, `destroy_ckpt_file` and `destroy_model_file`.
unfoldable pub drop_model :
    Code → TfSavedModel → World → Outcome (Code × Option TfSavedModel × World)
drop_model ret m w =
    destroy_file_of m.model w >>= λ (a, w'). ok (ret, some (record m { model = a }), w')

unfoldable pub drop_checkpoint :
    Code → TfSavedModel → World → Outcome (Code × Option TfSavedModel × World)
drop_checkpoint ret m w =
    destroy_file_of m.checkpoint w >>= λ (b, w'). drop_model ret (record m { checkpoint = b }) w'

unfoldable pub drop_var_index :
    Code → TfSavedModel → World → Outcome (Code × Option TfSavedModel × World)
drop_var_index ret m w =
    destroy_file_of m.var_index w >>= λ (c, w'). drop_checkpoint ret (record m { var_index = c }) w'

-- The part of `set_path` behind the checks of the path.
unfoldable pub find_files :
    SavedEnv
    → TfSavedModel
    → (path var_path : List ℕ) → World
    → Outcome (Code × Option TfSavedModel × World)
find_files e m path var_path w =
    let (ret, a) = file_from_regex e.env.os e.dirs m.model path patterns.model in
    let (ret₂, b) =
      file_from_regex e.os_checkpoint e.dirs m.checkpoint var_path patterns.checkpoint in
    let (ret₃, c) = file_from_regex e.os_var_index e.dirs m.var_index var_path patterns.var_index in
    let m₁ = record m { model = a } in
    let m₂ = record m₁ { checkpoint = b } in
    let m₃ = record m₂ { var_index = c } in
    if not (ret == vaccel_ok)
    then ok (vaccel_enoent, some m₁, w)
    else if not (ret₂ == vaccel_ok)
    then drop_model ret₂ m₂ w
    else if not (ret₃ == vaccel_ok)
    then drop_checkpoint ret₃ m₃ w
    else if not e.strdup_ok
    then drop_var_index vaccel_enomem (record m₃ { path = no_saved_path }) w
    else ok (vaccel_ok, some (record m₃ { path = own_path path; resource = null }), w)

unfoldable pub vaccel_tf_saved_model_set_path :
    SavedEnv
    → Option TfSavedModel
    → (path : List ℕ) → World
    → Outcome (Code × Option TfSavedModel × World)
vaccel_tf_saved_model_set_path e none path w = ok (vaccel_einval, none, w)
vaccel_tf_saved_model_set_path e (some m) path w =
    if not (dir_exists e.env.os path)
    then ok (vaccel_einval, some m, w)
    else if leb max_path (length (in_dir path variables))
    then ok (vaccel_enametoolong, some m, w)
    else find_files e m path (in_dir path variables) w

unfoldable pub vaccel_tf_saved_model_get_path : Option TfSavedModel → SavedPath
vaccel_tf_saved_model_get_path none = no_saved_path
vaccel_tf_saved_model_get_path (some m) = m.path

unfoldable pub vaccel_tf_saved_model_set_model :
    FileOs → Option TfSavedModel → (ptr : Ptr) (len : ℕ) → Code × Option TfSavedModel
vaccel_tf_saved_model_set_model os none ptr len = (vaccel_einval, none)
vaccel_tf_saved_model_set_model os (some m) ptr len =
    let (ret, f) = set_file os m.model ptr len in (ret, some (record m { model = f }))

unfoldable pub vaccel_tf_saved_model_get_model :
    FileOs → Option TfSavedModel → World → Outcome (Contents × Option TfSavedModel × World)
vaccel_tf_saved_model_get_model os none w = ok (none, none, w)
vaccel_tf_saved_model_get_model os (some m) w =
    get_file os m.model w >>= λ (contents, f, w'). ok (contents, some (record m { model = f }), w')

unfoldable pub vaccel_tf_saved_model_set_checkpoint :
    FileOs → Option TfSavedModel → (ptr : Ptr) (len : ℕ) → Code × Option TfSavedModel
vaccel_tf_saved_model_set_checkpoint os none ptr len = (vaccel_einval, none)
vaccel_tf_saved_model_set_checkpoint os (some m) ptr len =
    let (ret, f) = set_file os m.checkpoint ptr len in (ret, some (record m { checkpoint = f }))

unfoldable pub vaccel_tf_saved_model_get_checkpoint :
    FileOs → Option TfSavedModel → World → Outcome (Contents × Option TfSavedModel × World)
vaccel_tf_saved_model_get_checkpoint os none w = ok (none, none, w)
vaccel_tf_saved_model_get_checkpoint os (some m) w =
    get_file os m.checkpoint w >>= λ (contents, f, w').
    ok (contents, some (record m { checkpoint = f }), w')

unfoldable pub vaccel_tf_saved_model_set_var_index :
    FileOs → Option TfSavedModel → (ptr : Ptr) (len : ℕ) → Code × Option TfSavedModel
vaccel_tf_saved_model_set_var_index os none ptr len = (vaccel_einval, none)
vaccel_tf_saved_model_set_var_index os (some m) ptr len =
    let (ret, f) = set_file os m.var_index ptr len in (ret, some (record m { var_index = f }))

unfoldable pub vaccel_tf_saved_model_get_var_index :
    FileOs → Option TfSavedModel → World → Outcome (Contents × Option TfSavedModel × World)
vaccel_tf_saved_model_get_var_index os none w = ok (none, none, w)
vaccel_tf_saved_model_get_var_index os (some m) w =
    get_file os m.var_index w >>= λ (contents, f, w').
    ok (contents, some (record m { var_index = f }), w')

module _ (destructor : Ptr) (e : SavedEnv) (self : Ptr) where
  -- The labels `destroy_resource` and `free_resource`.
  unfoldable pub abandon : Code → TfSavedModel → World → Outcome (Code × TfSavedModel × World)
  abandon ret m w =
      destroy_with destructor self (tf_saved_model_destructor e.env.os) e.env e.env.malloc m w
      >>= λ (_, m', w'). ok (ret, m', free_resource e.env.malloc w')

  -- The three calls of `vaccel_file_persist`, and the end of the function.
  unfoldable pub persist_files :
      (dir var_dir : List ℕ) → TfSavedModel → World → Outcome (Code × TfSavedModel × World)
  persist_files dir var_dir m w =
      let (ret, a, calls) =
        vaccel_file_persist e.env.os m.model dir
          (some (
            b's' ∷ b'a' ∷ b'v' ∷ b'e' ∷ b'd' ∷ b'_' ∷ b'm' ∷ b'o' ∷ b'd' ∷ b'e' ∷ b'l' ∷ b'.' ∷ b'p'
            ∷ b'b' ∷ []))
          false w.calls in
      let (ret₂, b, calls₂) =
        vaccel_file_persist e.os_checkpoint m.checkpoint var_dir
          (some (
            variables
            ++ (b'.' ∷ b'd' ∷ b'a' ∷ b't' ∷ b'a' ∷ b'-' ∷ b'0' ∷ b'0' ∷ b'0' ∷ b'0' ∷ b'0' ∷ b'-'
                ∷ b'o' ∷ b'f' ∷ b'-' ∷ b'0' ∷ b'0' ∷ b'0' ∷ b'0' ∷ b'1' ∷ [])))
          false calls in
      let (ret₃, c, calls₃) =
        vaccel_file_persist e.os_var_index m.var_index var_dir
          (some (variables ++ (b'.' ∷ b'i' ∷ b'n' ∷ b'd' ∷ b'e' ∷ b'x' ∷ []))) false calls₂ in
      let m₁ = record m { model = a } in
      let m₂ = record m₁ { checkpoint = b } in
      let m₃ = record m₂ { var_index = c } in
      if not (ret == vaccel_ok)
      then abandon ret m₁ (record w { calls = calls })
      else if not (ret₂ == vaccel_ok)
      then abandon ret₂ m₂ (record w { calls = calls₂ })
      else if not (ret₃ == vaccel_ok)
      then abandon ret₃ m₃ (record w { calls = calls₃ })
      else ok (
        vaccel_ok,
        record m₃ { path = rundir_of_resource e.env.malloc; resource = e.env.malloc },
        record w { calls = calls₃ },
      )

  -- The directories, and then the files.
  unfoldable pub persist_model : TfSavedModel → World → Outcome (Code × TfSavedModel × World)
  persist_model m w =
      let (ret, w') = create_rundir e.env e.env.malloc w in
      let dir = text_of (w'.resources.res e.env.malloc).rundir in
      let var_dir = in_dir dir variables in
      let w'' = record w' { calls = w'.calls ++ made_dir var_dir ∷ [] } in
      if not (ret == vaccel_ok)
      then abandon ret m w'
      else if leb max_path (length var_dir)
      then abandon vaccel_enametoolong m w'
      else if not (e.env.mkdir var_dir == vaccel_ok)
      then abandon (e.env.mkdir var_dir) m w'
      else persist_files dir var_dir m w''

  unfoldable pub vaccel_tf_saved_model_register :
      TfSavedModel → World → Outcome (Code × TfSavedModel × World)
  vaccel_tf_saved_model_register m w =
      let w' = malloc_resource e.env.malloc w in
      if not (
        vaccel_file_initialized (some m.model)
        && (vaccel_file_initialized (some m.checkpoint)
            && vaccel_file_initialized (some m.var_index)))
      then ok (vaccel_einval, m, w)
      else if e.env.malloc == null
      then ok (vaccel_enomem, m, w)
      else (resource_new e.env.virtio e.env.malloc res_tf_model self destructor w.resources
          >>= λ (ret, s).
              let w'' = record w' { resources = s } in
              if not (ret == vaccel_ok)
              then ok (ret, m, free_resource e.env.malloc w'')
              else if not (is_unset m.path)
              then ok (vaccel_ok, record m { resource = e.env.malloc }, w'')
              else persist_model m w'')

  -- The resource is freed whatever `resource_destroy` answers.
  unfoldable pub vaccel_tf_saved_model_destroy :
      Option TfSavedModel → World → Outcome (Code × Option TfSavedModel × World)
  vaccel_tf_saved_model_destroy none w = ok (vaccel_einval, none, w)
  vaccel_tf_saved_model_destroy (some m) w =
      if (m.resource == null) || has m.resource w.freed
      then fault
      else (destroy_with destructor self (tf_saved_model_destructor e.env.os) e.env m.resource m w
          >>= λ (_, m', w'). ok (vaccel_ok, some m', free_resource m.resource w'))

unfoldable pub vaccel_tf_saved_model_id : Option TfSavedModel → World → Outcome ℕ
vaccel_tf_saved_model_id none w = ok no_id
vaccel_tf_saved_model_id (some m) w = id_of_resource m.resource w
