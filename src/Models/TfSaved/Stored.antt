-- ===== src/Models/TfSaved/Stored.antt =====
-- The files of a saved model, before and after they are persisted.
use vaccel_google_test.Common.{ℕ, ◌≡◌, ◌≢◌, ◌++◌, arith, false, List, [], ◌∷◌, ◌==◌}
use vaccel_google_test.Common.Code.{Code, vaccel_ok}
use vaccel_google_test.Common.Memory.{null}
use vaccel_google_test.Files.State.{FileCall, FilePath, path, no_path, freed, target}
use vaccel_google_test.Files.Ends.{Persisted}
use vaccel_google_test.Models.Saved.{no_saved_path, in_dir, variables}
use vaccel_google_test.Models.TfSaved.{TfSavedModel, SavedEnv}

-- "saved_model.pb", "variables.data-00000-of-00001" and "variables.index"
abbrev pub saved_model_pb : List ℕ
saved_model_pb =
    b's' ∷ b'a' ∷ b'v' ∷ b'e' ∷ b'd' ∷ b'_' ∷ b'm' ∷ b'o' ∷ b'd' ∷ b'e' ∷ b'l' ∷ b'.' ∷ b'p' ∷ b'b'
    ∷ []

abbrev pub variables_data : List ℕ
variables_data =
    variables
    ++ (b'.' ∷ b'd' ∷ b'a' ∷ b't' ∷ b'a' ∷ b'-' ∷ b'0' ∷ b'0' ∷ b'0' ∷ b'0' ∷ b'0' ∷ b'-' ∷ b'o'
        ∷ b'f' ∷ b'-' ∷ b'0' ∷ b'0' ∷ b'0' ∷ b'0' ∷ b'1' ∷ [])

abbrev pub variables_index : List ℕ
variables_index = variables ++ (b'.' ∷ b'i' ∷ b'n' ∷ b'd' ∷ b'e' ∷ b'x' ∷ [])

-- The three files are in the directory `dir` and its directory "variables", made in this order.
pub record IsStored (e : SavedEnv) (dir : List ℕ) (m' : TfSavedModel) (calls calls' : List FileCall)
    : Type 0 where
  pub calls₁ : List FileCall
  pub calls₂ : List FileCall
  pub model : Persisted e.env.os (target e.env.os dir saved_model_pb false) calls m'.model calls₁
  pub checkpoint :
      Persisted e.os_checkpoint
        (target e.os_checkpoint (in_dir dir variables) variables_data false)
        calls₁
        m'.checkpoint
        calls₂
  pub var_index :
      Persisted e.os_var_index
        (target e.os_var_index (in_dir dir variables) variables_index false)
        calls₂
        m'.var_index
        calls'

-- A model that was made of buffers only, and was not registered.
pub record IsBuffered (m : TfSavedModel) : Type 0 where
  pub resource : m.resource ≡ null
  pub path : m.path ≡ no_saved_path
  pub model : m.model.path ≡ no_path
  pub checkpoint : m.checkpoint.path ≡ no_path
  pub var_index : m.var_index.path ≡ no_path

-- A path that is not freed.
pub unfreed_no_path : (q : FilePath) → q ≡ no_path → q ≢ freed
unfreed_no_path q e z = ground (arith, e, z)

pub unfreed_path : (q : FilePath) (p : List ℕ) → q ≡ path p → q ≢ freed
unfreed_path q p e z = ground (arith, e, z)

pub not_ok : (c : Code) → c ≢ vaccel_ok → (c == vaccel_ok) ≡ false
not_ok c bad = ground arith
