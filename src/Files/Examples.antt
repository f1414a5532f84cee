-- ===== src/Files/Examples.antt =====
-- A file with data, and a system in which every call succeeds.
use vaccel_google_test.Common.{
  ◌≡◌, ◌≢◌, ◌⊎◌, ℕ, refl, true, false, none, Option, some, List, [], ◌∷◌,
}
use vaccel_google_test.Common.Code.{Code, vaccel_ok}
use vaccel_google_test.Common.Memory.{ok}
use vaccel_google_test.Files.State.{
  FileOs, File, FileCall, no_path, path, freed, created, mmap_called, closed, munmap_called,
  removed, open_target, target, dir_exists, read_file, persist_at, vaccel_file_persist,
  vaccel_file_destroy,
}
use vaccel_google_test.Files.Ends.{Persisted, Unchanged}
use vaccel_google_test.Files.Persist.{vaccel_file_persist-Outcome, vaccel_file_destroy-persist}

abbrev good : FileOs
good = record {
  access = λ p. 0;
  strdup_ok = true;
  malloc_ok = true;
  opendir_ok = λ dir. true;
  mkstemp = λ template. some template;
  fdopen = λ p. 0;
  fopen = λ p. 0;
  fwrite = λ n. n;
  open_read = λ p. 0;
  fstat = λ p. 0;
  st_size = λ p. 3;
  mmap = λ p size. 4096;
  rmdir = λ dir. 0;
}

abbrev full : File
full = record { path = no_path; path_owned = false; contents = 32; size = 3 }

-- "d/f"
abbrev stored : File
stored = record {
  path = path (b'd' ∷ b'/' ∷ b'f' ∷ []);
  path_owned = true;
  contents = 4096;
  size = 3;
}

abbrev name_f : Option (List ℕ)
name_f = some (b'f' ∷ [])

vaccel_file_persist-Outcome_example :
    (c : Code) × (g : File) × (calls' : List FileCall) × (vaccel_file_persist good full
        (b'd' ∷ [])
        name_f
        false
        []
      ≡ (c, g, calls'))
    × (((name_f ≡ none) × (c ≢ vaccel_ok) × (g ≡ full) × (calls' ≡ []))
        ⊎ ((name : List ℕ) × (name_f ≡ some name)
            × (((c ≡ vaccel_ok) × Persisted good (target good (b'd' ∷ []) name false) [] g calls')
                ⊎ ((c ≢ vaccel_ok)
                    × Unchanged false (open_target good (b'd' ∷ []) name false) full [] g calls'))))
vaccel_file_persist-Outcome_example =
    vaccel_file_persist-Outcome good full (b'd' ∷ []) name_f false []

persist_runs : vaccel_file_persist good full (b'd' ∷ []) (some (b'f' ∷ [])) false [] ≡ (
  vaccel_ok,
  stored,
  created (b'd' ∷ b'/' ∷ b'f' ∷ []) ∷ mmap_called 4096 3 ∷ closed (b'd' ∷ b'/' ∷ b'f' ∷ []) ∷ [],
)
unfolding vaccel_file_persist persist_at open_target read_file dir_exists
persist_runs = refl

vaccel_file_destroy-persist_example :
    vaccel_file_destroy (some stored) (
      created (b'd' ∷ b'/' ∷ b'f' ∷ [])
      ∷ mmap_called 4096 3
      ∷ closed (b'd' ∷ b'/' ∷ b'f' ∷ [])
      ∷ [])
    ≡ ok (
      vaccel_ok,
      some (record stored { path = freed }),
      created (b'd' ∷ b'/' ∷ b'f' ∷ [])
          ∷ mmap_called 4096 3
          ∷ closed (b'd' ∷ b'/' ∷ b'f' ∷ [])
          ∷ munmap_called 4096 3
          ∷ removed (b'd' ∷ b'/' ∷ b'f' ∷ [])
          ∷ [],
    )
unfolding open_target
vaccel_file_destroy-persist_example =
    vaccel_file_destroy-persist good full stored (b'd' ∷ []) (b'f' ∷ []) false []
      (created (b'd' ∷ b'/' ∷ b'f' ∷ [])
        ∷ mmap_called 4096 3
        ∷ closed (b'd' ∷ b'/' ∷ b'f' ∷ [])
        ∷ [])
      persist_runs
