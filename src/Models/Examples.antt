-- ===== src/Models/Examples.antt =====
-- An empty library with a pool of four ids, and a system in which every call succeeds.
use vaccel_google_test.Common.{
  ℕ, ◌≡◌, ◌≢◌, ◌≤◌, ◌⊎◌, ◌++◌, refl, arith, true, false, none, some, List, [], ◌∷◌, has,
}
use vaccel_google_test.Common.Code.{Code, vaccel_ok}
use vaccel_google_test.Common.Memory.{Ptr, null, ok}
use vaccel_google_test.Resources.{ResourceState}
use vaccel_google_test.Resources.Live.{IsLive}
use vaccel_google_test.Files.State.{
  FileOs, File, no_path, path, vaccel_file_initialized, vaccel_file_new, dir_exists,
}
use vaccel_google_test.Models.State.{Env, World}
use vaccel_google_test.Models.Object.{
  Object, tf_model, vaccel_tf_model_new_from_buffer, vaccel_shared_object_new,
  vaccel_shared_object_destroy,
}
use vaccel_google_test.Models.Buffer.{Stored, Undone, vaccel_tf_model_new_from_buffer-Outcome}
use vaccel_google_test.Models.Lifetime.{vaccel_shared_object_new-destroy}
use vaccel_google_test.Models.Saved.{no_saved_path, own_path, first_match, file_from_regex}
use vaccel_google_test.Models.TfSaved.{
  TfSavedModel, SavedEnv, find_files, vaccel_tf_saved_model_register,
  vaccel_tf_saved_model_set_path,
}
use vaccel_google_test.Models.TfSaved.Stored.{IsBuffered}
use vaccel_google_test.Models.TfSaved.Register.{
  Registered, Unregistered, vaccel_tf_saved_model_register-Outcome,
}
use vaccel_google_test.Models.TfSaved.Find.{Found, vaccel_tf_saved_model_set_path-Found}

abbrev no_resources : ResourceState
no_resources = record {
  initialized = true;
  pool = record { ids = 0 ∷ 0 ∷ 0 ∷ 0 ∷ []; max = 4; next = 0 };
  live = λ t. [];
  res = λ r. record {
    id = 0;
    type = 0;
    data_ptr = 0;
    cleanup_resource = 0;
    refcount = 0;
    rundir = none;
  };
  cleaned = [];
  removed = [];
}

four_bounds : (a : ℕ) → has a (1 ∷ 2 ∷ 3 ∷ 4 ∷ []) ≡ true → (1 ≤ a) × (a ≤ 4)
four_bounds a h = ground arith

no_resources-IsLive : IsLive no_resources
no_resources-IsLive = record {
  initialized = refl;
  first_only = λ t ne. refl;
  real = refl;
  once = tt;
  ids_once = tt;
  serves = record {
    size = refl;
    int = omega arith;
    counted = refl;
    within = omega arith;
    distinct = (refl, (refl, (refl, (refl, tt))));
    bounds = four_bounds;
  };
}

abbrev good_os : FileOs
good_os = record {
  access = λ p. 0;
  strdup_ok = true;
  malloc_ok = true;
  opendir_ok = λ dir. true;
  mkstemp = λ template. some template;
  fdopen = λ p. 0;
  fopen = λ p. 0;
  fwrite = λ n. n;
  open_read = λ p. 0;
  fstat = λ p. 0;
  st_size = λ p. 3;
  mmap = λ p size. 4096;
  rmdir = λ dir. 0;
}

-- `malloc` gives 64.
abbrev good : Env
good = record {
  os = good_os;
  virtio = none;
  malloc = 64;
  root = b'/' ∷ b'r' ∷ [];
  print_id = λ id. b'0' ∷ [];
  mkdir = λ dir. 0;
  strndup_ok = true;
}

abbrev start : World
start = record { resources = no_resources; calls = []; freed = [] }

abbrev zero_object : Object
zero_object = record {
  resource = 0;
  file = record { path = no_path; path_owned = false; contents = 0; size = 0 };
}

-- A model at 16, of a buffer of three bytes at 32, with the destructor at 8.
vaccel_tf_model_new_from_buffer-Outcome_example :
    (c : Code) × (model' : Object) × (w' : World) × (vaccel_tf_model_new_from_buffer 8 good 16
        (some zero_object)
        32
        3
        start
      ≡ ok (c, some model', w'))
    × (((c ≡ vaccel_ok) × Stored (tf_model 8) good 16 start model' w')
        ⊎ ((c ≢ vaccel_ok) × Undone (tf_model 8) good zero_object start model' w'))
vaccel_tf_model_new_from_buffer-Outcome_example =
    vaccel_tf_model_new_from_buffer-Outcome 8 good 16 zero_object 32 3 start refl (ground arith)
      (ground arith) (ground arith) no_resources-IsLive refl (omega arith)

vaccel_shared_object_new-destroy_example :
    (o₁ o₂ : Object) × (w₁ w₂ : World) × (vaccel_shared_object_new 8 good 16 zero_object
        (some (b'l' ∷ []))
        start
      ≡ ok (vaccel_ok, o₁, w₁))
    × (vaccel_shared_object_destroy 8 good 16 (some o₁) w₁ ≡ ok (vaccel_ok, some o₂, w₂))
    × (w₁.resources.live 0 ≡ 64 ∷ [])
    × (w₂.resources.live 0 ≡ [])
    × IsLive w₂.resources
    × (w₂.calls ≡ [])
vaccel_shared_object_new-destroy_example =
    vaccel_shared_object_new-destroy 8 good 16 zero_object (b'l' ∷ []) start refl refl refl
      (ground arith) no_resources-IsLive refl (omega arith)

-- Every directory holds the name "m", which matches every pattern.
abbrev good_saved : SavedEnv
good_saved = record {
  env = good;
  dirs = record {
    regcomp_ok = λ pattern. true;
    regexec = λ pattern name. true;
    readdir = λ dir. (b'm' ∷ []) ∷ [];
  };
  os_checkpoint = good_os;
  os_var_index = good_os;
  strdup_ok = true;
}

abbrev buffer : Ptr → File
buffer p = record { path = no_path; path_owned = false; contents = p; size = 3 }

abbrev three_buffers : TfSavedModel
three_buffers = record {
  resource = null;
  path = no_saved_path;
  model = buffer 32;
  checkpoint = buffer 36;
  var_index = buffer 40;
}

three_buffers-IsBuffered : IsBuffered three_buffers
three_buffers-IsBuffered = record {
  resource = refl;
  path = refl;
  model = refl;
  checkpoint = refl;
  var_index = refl;
}

initialized : (p : Ptr) → p ≢ null → vaccel_file_initialized (some (buffer p)) ≡ true
unfolding vaccel_file_initialized
initialized p n = ground arith

vaccel_tf_saved_model_register-Outcome_example :
    (c : Code) × (m' : TfSavedModel) × (w' : World) × (vaccel_tf_saved_model_register 8 good_saved
        16 three_buffers start
      ≡ ok (c, m', w'))
    × (((c ≡ vaccel_ok) × Registered good_saved start m' w')
        ⊎ ((c ≢ vaccel_ok) × Unregistered good_saved start m' w'))
vaccel_tf_saved_model_register-Outcome_example =
    vaccel_tf_saved_model_register-Outcome 8 good_saved 16 three_buffers start refl (ground arith)
      three_buffers-IsBuffered (initialized 32 (ground arith)) (initialized 36 (ground arith))
      (initialized 40 (ground arith)) no_resources-IsLive refl (omega arith)

-- The file "m" in a directory.
abbrev found_in : List ℕ → File
found_in dir = record {
  path = path (dir ++ (b'/' ∷ b'm' ∷ []));
  path_owned = false;
  contents = 0;
  size = 0;
}

abbrev found_model : TfSavedModel
found_model = record {
  resource = null;
  path = own_path (b'd' ∷ []);
  model = found_in (b'd' ∷ []);
  checkpoint =
      found_in (b'd' ∷ b'/' ∷ b'v' ∷ b'a' ∷ b'r' ∷ b'i' ∷ b'a' ∷ b'b' ∷ b'l' ∷ b'e' ∷ b's' ∷ []);
  var_index =
      found_in (b'd' ∷ b'/' ∷ b'v' ∷ b'a' ∷ b'r' ∷ b'i' ∷ b'a' ∷ b'b' ∷ b'l' ∷ b'e' ∷ b's' ∷ []);
}

set_path_runs :
    vaccel_tf_saved_model_set_path good_saved (some three_buffers) (b'd' ∷ []) start
    ≡ ok (vaccel_ok, some found_model, start)
unfolding vaccel_tf_saved_model_set_path find_files file_from_regex first_match vaccel_file_new
    dir_exists
set_path_runs = refl

vaccel_tf_saved_model_set_path-Found_example :
    Found good_saved three_buffers (b'd' ∷ []) start found_model start
vaccel_tf_saved_model_set_path-Found_example =
    vaccel_tf_saved_model_set_path-Found good_saved three_buffers found_model (b'd' ∷ []) start
      start set_path_runs
