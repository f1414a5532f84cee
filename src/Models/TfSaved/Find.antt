-- ===== src/Models/TfSaved/Find.antt =====
-- Finding the files of a saved model in its directory.
use vaccel_google_test.Common.{
  ℕ, ◌≡◌, ◌<◌, inl, inr, refl, sym, arith, Bool-cases, false, Option, none, some, List, length,
  ◌==◌, leb,
}
use vaccel_google_test.Common.Code.{Code, vaccel_ok, vaccel_enomem}
use vaccel_google_test.Common.Memory.{null, Outcome, Outcome-cases, ok}
use vaccel_google_test.Files.State.{File, FileOs, path, vaccel_file_new, dir_exists}
use vaccel_google_test.Models.State.{World, destroy_file_of}
use vaccel_google_test.Models.Saved.{
  no_saved_path, own_path, in_dir, variables, max_path, Dirs, first_match, file_from_regex,
}
use vaccel_google_test.Models.TfSaved.{
  TfSavedModel, SavedEnv, patterns, find_files, vaccel_tf_saved_model_set_path, drop_model,
  drop_checkpoint, drop_var_index,
}

-- The file `g` that a search of `dir` leaves where `f` was: if no name matches, `f` itself, and
-- otherwise a new file, with no contents yet, at the first name that matches.
pub record IsFound (d : Dirs) (dir pattern : List ℕ) (f g : File) : Type 0 where
  pub kept : first_match d pattern (d.readdir dir) ≡ none → g ≡ f
  pub found :
      (name : List ℕ)
      → first_match d pattern (d.readdir dir) ≡ some name
      → (g ≡ record { path = path (in_dir dir name); path_owned = false; contents = 0; size = 0 })
        × (length (in_dir dir name) < max_path)

file_from_regex-IsFound :
    (os : FileOs) (d : Dirs) (f : File) (dir pattern : List ℕ)
    → (file_from_regex os d f dir pattern).0 ≡ vaccel_ok
    → IsFound d dir pattern f (file_from_regex os d f dir pattern).1
unfolding file_from_regex vaccel_file_new
file_from_regex-IsFound os d f dir pattern h = record {
  kept = λ e. ground (arith, h, e);
  found = λ name e. (ground (arith, h, e), ground (arith, h, e));
}

module _ (c : Code) (m' : TfSavedModel) (w' : World) where
  drop_model-code :
      (ret : Code) (m : TfSavedModel) (w : World)
      → drop_model ret m w ≡ ok (c, some m', w')
      → c ≡ ret
  unfolding drop_model
  drop_model-code ret m w h = elim (Outcome-cases (destroy_file_of m.model w)) [
    | inl stuck ↦ ground (arith, h, stuck)
    | inr ((f, w₁), e) ↦ ground (arith, h, e)
  ]

  drop_checkpoint-code :
      (ret : Code) (m : TfSavedModel) (w : World)
      → drop_checkpoint ret m w ≡ ok (c, some m', w')
      → c ≡ ret
  unfolding drop_checkpoint
  drop_checkpoint-code ret m w h = elim (Outcome-cases (destroy_file_of m.checkpoint w)) [
    | inl stuck ↦ ground (arith, h, stuck)
    | inr ((f, w₁), e) ↦ drop_model-code ret (record m { checkpoint = f }) w₁ (ground (arith, h, e))
  ]

  drop_var_index-code :
      (ret : Code) (m : TfSavedModel) (w : World)
      → drop_var_index ret m w ≡ ok (c, some m', w')
      → c ≡ ret
  unfolding drop_var_index
  drop_var_index-code ret m w h = elim (Outcome-cases (destroy_file_of m.var_index w)) [
    | inl stuck ↦ ground (arith, h, stuck)
    | inr ((f, w₁), e) ↦
        drop_checkpoint-code ret (record m { var_index = f }) w₁ (ground (arith, h, e))
  ]

-- What a successful search leaves.
abbrev pub Found : SavedEnv → TfSavedModel → (dir : List ℕ) → World → TfSavedModel → World → Type 0
Found e m dir w m' w' =
    (m'.path ≡ own_path dir)
    × (m'.resource ≡ null)
    × (w' ≡ w)
    × IsFound e.dirs dir patterns.model m.model m'.model
    × IsFound e.dirs (in_dir dir variables) patterns.checkpoint m.checkpoint m'.checkpoint
    × IsFound e.dirs (in_dir dir variables) patterns.var_index m.var_index m'.var_index

find_files-Found :
    (e : SavedEnv) (m m' : TfSavedModel) (dir : List ℕ) (w w' : World)
    → find_files e m dir (in_dir dir variables) w ≡ ok (vaccel_ok, some m', w')
    → Found e m dir w m' w'
unfolding find_files
find_files-Found e m m' dir w w' h =
    let A = file_from_regex e.env.os e.dirs m.model dir patterns.model in
    let B =
      file_from_regex e.os_checkpoint e.dirs m.checkpoint (in_dir dir variables)
        patterns.checkpoint in
    let C =
      file_from_regex e.os_var_index e.dirs m.var_index (in_dir dir variables) patterns.var_index in
    elim (Bool-cases (A.0 == vaccel_ok)) [
      | inr a ↦ ground (arith, h, a)
      | inl a ↦ elim (Bool-cases (B.0 == vaccel_ok)) [
        | inr b ↦ ground (
          arith,
          drop_model-code vaccel_ok m' w' B.0 (record m { model = A.1; checkpoint = B.1 }) w
              (rw (sym h) (rw (a, b) refl)),
          b,
        )
        | inl b ↦ elim (Bool-cases (C.0 == vaccel_ok)) [
          | inr c ↦ ground (
            arith,
            drop_checkpoint-code vaccel_ok m' w' C.0
                (record m { model = A.1; checkpoint = B.1; var_index = C.1 }) w
                (rw (sym h) (rw (a, b, c) refl)),
            c,
          )
          | inl c ↦ elim (Bool-cases e.strdup_ok) [
            | inr d ↦ ground (
              arith,
              drop_var_index-code vaccel_ok m' w' vaccel_enomem
                  (record m {
                    model = A.1;
                    checkpoint = B.1;
                    var_index = C.1;
                    path = no_saved_path;
                  })
                  w (rw (sym h) (rw (a, b, c, d) refl)),
            )
            | inl d ↦
                let M : TfSavedModel = record {
                  resource = null;
                  path = own_path dir;
                  model = A.1;
                  checkpoint = B.1;
                  var_index = C.1;
                } in
                let M' : Outcome (Code × Option TfSavedModel × World) = ok (vaccel_ok, some M, w) in
                let same : M' ≡ ok (vaccel_ok, some m', w') = rw (sym h) (rw (a, b, c, d) refl) in
                let (is, kept) : (m' ≡ M) × (w' ≡ w) = (cc, cc) in
                rw is (
                  refl,
                  refl,
                  kept,
                  file_from_regex-IsFound e.env.os e.dirs m.model dir patterns.model
                      (ground (arith, a)),
                  file_from_regex-IsFound e.os_checkpoint e.dirs m.checkpoint (in_dir dir variables)
                      patterns.checkpoint (ground (arith, b)),
                  file_from_regex-IsFound e.os_var_index e.dirs m.var_index (in_dir dir variables)
                      patterns.var_index (ground (arith, c)),
                )
          ]
        ]
      ]
    ]

-- `vaccel_tf_saved_model_set_path` answers OK only after it set the path, with no resource; each
-- of the three files was looked for in the directory, or in its directory "variables". A file for
-- which nothing matches stays as it was, and a file for which a name matches is at the first such
-- name, which makes a path of less than 1024 characters.
pub vaccel_tf_saved_model_set_path-Found :
    (e : SavedEnv) (m m' : TfSavedModel) (dir : List ℕ) (w w' : World)
    → vaccel_tf_saved_model_set_path e (some m) dir w ≡ ok (vaccel_ok, some m', w')
    → Found e m dir w m' w'
unfolding vaccel_tf_saved_model_set_path
vaccel_tf_saved_model_set_path-Found e m m' dir w w' h =
    elim (Bool-cases (dir_exists e.env.os dir)) [
      | inr a ↦ ground (arith, h, a)
      | inl a ↦ elim (Bool-cases (leb max_path (length (in_dir dir variables)))) [
        | inl b ↦ ground (arith, h, a, b)
        | inr b ↦ find_files-Found e m m' dir w w' (ground (arith, h, a, b))
      ]
    ]
