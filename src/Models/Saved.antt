-- ===== src/Models/Saved.antt =====
-- What src/resources/tf_saved_model.c and src/resources/torch_saved_model.c share.
use vaccel_google_test.Common.{
  ℕ, Bool, true, false, ◌||◌, not, Option, none, some, List, [], ◌∷◌, ◌++◌, ◌==◌, leb,
  if◌then◌else◌, has, length,
}
use vaccel_google_test.Common.Code.{Code, vaccel_ok, vaccel_einval, vaccel_enametoolong}
use vaccel_google_test.Common.Memory.{Ptr, null, Outcome, ok, fault, ◌>>=◌}
use vaccel_google_test.Files.State.{
  removed_dir, FileOs, File, no_path, dir_exists, vaccel_file_new, vaccel_file_from_buffer,
  vaccel_file_data, Contents,
}
use vaccel_google_test.Models.State.{World, no_id}

-- `char *path` of a saved model: NULL, a copy of its own, or the directory of a resource, which the
-- resource owns.
pub data SavedPath : Type 0 where
  no_saved_path : SavedPath
  own_path : List ℕ → SavedPath
  rundir_of_resource : (res : Ptr) → SavedPath

abbrev pub is_unset : SavedPath → Bool
is_unset no_saved_path = true
is_unset (own_path p) = false
is_unset (rundir_of_resource res) = false

-- `MAX_PATH`
abbrev pub max_path : ℕ
max_path = 1024

-- "%s/%s"
abbrev pub in_dir : (dir name : List ℕ) → List ℕ
in_dir dir name = dir ++ (b'/' ∷ name)

-- "variables"
abbrev pub variables : List ℕ
variables = b'v' ∷ b'a' ∷ b'r' ∷ b'i' ∷ b'a' ∷ b'b' ∷ b'l' ∷ b'e' ∷ b's' ∷ []

-- The answers of the system about directories and patterns: `readdir` gives the names in a
-- directory in order.
pub record Dirs : Type 0 where
  pub regcomp_ok : (pattern : List ℕ) → Bool
  pub regexec : (pattern name : List ℕ) → Bool
  pub readdir : (dir : List ℕ) → List (List ℕ)

unfoldable pub first_match : Dirs → (pattern : List ℕ) → List (List ℕ) → Option (List ℕ)
first_match d pattern [] = none
first_match d pattern (name ∷ names) =
    let rest = first_match d pattern names in if d.regexec pattern name then some name else rest

abbrev pub file_or : File → Option File → File
file_or f none = f
file_or f (some g) = g

-- A directory in which nothing matches leaves the file as it was.
unfoldable pub file_from_regex : FileOs → Dirs → File → (dirpath pattern : List ℕ) → Code × File
unfolding first_match
file_from_regex os d file dirpath pattern =
    if not (d.regcomp_ok pattern)
    then (vaccel_einval, file)
    else if not (os.opendir_ok dirpath)
    then (vaccel_einval, file)
    else elim (first_match d pattern (d.readdir dirpath)) [
      | none ↦ (vaccel_ok, file)
      | some name ↦
          let path = in_dir dirpath name in
          let (ret, opened) = vaccel_file_new os (some file) (some path) in
          if leb max_path (length path)
          then (vaccel_enametoolong, file)
          else (ret, file_or file opened)
    ]

-- The end of the destructors: "variables" in the directory of the resource is removed, if it is
-- there. To read a resource that was freed is a fault.
unfoldable pub remove_variables : FileOs → (res : Ptr) → World → Outcome World
remove_variables os res w =
    if res == null
    then ok w
    else if has res w.freed
    then fault
    else elim (w.resources.res res).rundir [
      | none ↦ ok w
      | some dir ↦
          let path = in_dir dir variables in
          if leb max_path (length path)
          then ok w
          else if dir_exists os path
          then ok (record w { calls = w.calls ++ removed_dir path ∷ [] })
          else ok w
    ]

-- `calloc` of a file.
abbrev pub zero_file : File
zero_file = record { path = no_path; path_owned = false; contents = null; size = 0 }

-- The setters and getters of the files of a model.
abbrev pub set_file : FileOs → File → (ptr : Ptr) (len : ℕ) → Code × File
set_file os file ptr len =
    let (ret, f, calls) = vaccel_file_from_buffer os (some file) ptr len none false [] false [] in
    if (ptr == null) || (len == 0) then (vaccel_einval, file) else (ret, file_or file f)

abbrev pub get_file : FileOs → File → World → Outcome (Contents × File × World)
get_file os file w = vaccel_file_data os (some file) w.calls >>= λ (contents, f, calls).
    ok (contents, file_or file f, record w { calls = calls })

abbrev pub id_of_resource : (res : Ptr) → World → Outcome ℕ
id_of_resource res w =
    if res == null then ok no_id else if has res w.freed then fault else ok (w.resources.res res).id
