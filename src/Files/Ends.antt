-- ===== src/Files/Ends.antt =====
-- What persisting a file leaves.
use vaccel_google_test.Common.{ℕ, ◌≡◌, ◌≢◌, ◌⊎◌, Bool, true, some, List, [], ◌∷◌, ◌++◌}
use vaccel_google_test.Common.Code.{Code, vaccel_ok}
use vaccel_google_test.Common.Memory.{null}
use vaccel_google_test.Files.State.{
  path, File, FileCall, created, closed, removed, mmap_called, FileOs, read_file, Opened,
}

-- A file that was persisted at `p`: it owns the path, and its contents are what `mmap` of the file
-- answered, with the size of the file: not NULL, but MAP_FAILED where `mmap` failed.
pub record Persisted (os : FileOs) (p : List ℕ) (calls : List FileCall) (g : File)
    (calls' : List FileCall) : Type 0 where
  pub at_path : g.path ≡ path p
  pub owned : g.path_owned ≡ true
  pub read : read_file os p ≡ (vaccel_ok, some (g.contents, g.size))
  pub real : g.contents ≢ null
  pub log : calls' ≡ calls ++ (created p ∷ mmap_called g.contents g.size ∷ closed p ∷ [])

-- What is left of a file that could not be persisted: nothing was made, what was made was closed
-- and removed, or `fdopen` failed for a random name, and the file is still there.
pub data Leftover (randomize : Bool) (o : Opened) (calls calls' : List FileCall) : Type 0 where
  untouched : calls' ≡ calls → Leftover randomize o calls calls'
  undone :
      o.error ≡ vaccel_ok
      → calls' ≡ calls ++ (created o.at ∷ closed o.at ∷ removed o.at ∷ [])
      → Leftover randomize o calls calls'
  left_behind :
      randomize ≡ true
      → o.error ≢ vaccel_ok
      → calls' ≡ calls ++ created o.at ∷ []
      → Leftover randomize o calls calls'

-- A file that was not persisted: its path and contents are as before.
pub record Unchanged (randomize : Bool) (o : Opened) (f : File) (calls : List FileCall) (g : File)
    (calls' : List FileCall) : Type 0 where
  pub same_path : g.path ≡ f.path
  pub contents : g.contents ≡ f.contents
  pub size : g.size ≡ f.size
  pub log : Leftover randomize o calls calls'

abbrev pub Result :
    FileOs
    → (randomize : Bool) (o : Opened) → File
    → List FileCall
    → Code × File × List FileCall
    → Type 0
Result os randomize o f calls (c, g, calls') =
    ((c ≡ vaccel_ok) × Persisted os o.at calls g calls')
    ⊎ ((c ≢ vaccel_ok) × Unchanged randomize o f calls g calls')
