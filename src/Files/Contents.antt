-- ===== src/Files/Contents.antt =====
-- Reading the contents of a file, and what goes wrong.
use vaccel_google_test.Common.{
  ℕ, ◌≡◌, ◌≢◌, refl, sym, Bool, true, false, Option, some, List, [], ◌∷◌, ◌++◌, arith, ◌==◌,
  if◌then◌else◌,
}
use vaccel_google_test.Common.Code.{vaccel_ok}
use vaccel_google_test.Common.Memory.{null, ok, fault}
use vaccel_google_test.Files.State.{
  no_path, path, freed, File, FileCall, created, closed, removed, mmap_called, munmap_called,
  FileOs, dir_exists, read_file, map_failed, open_target, target, persist_at, lacks_contents,
  vaccel_file_persist, destroy_file, vaccel_file_destroy, vaccel_file_read, vaccel_file_data,
}

-- Destroying a file with a path leaves the address of the path that was freed behind: destroying it
-- again is a fault.
pub vaccel_file_destroy_twice :
    (f : File) (p : List ℕ) (calls calls' : List FileCall)
    → f.path ≡ path p
    → (g : Option File) × (log : List FileCall) × (vaccel_file_destroy (some f) calls
        ≡ ok (vaccel_ok, g, log))
      × (vaccel_file_destroy g calls' ≡ fault)
unfolding vaccel_file_destroy destroy_file
vaccel_file_destroy_twice f p calls calls' e = (
  some (record f { path = freed }),
  calls
      ++ ((if f.contents == null then [] else munmap_called f.contents f.size ∷ [])
          ++ (if f.path_owned then removed p ∷ [] else [])),
  ground (arith, e),
  refl,
)

-- Reading the contents of a file twice gives the same contents and makes no further call of the
-- system, if the first reading gave a size that is not zero.
pub vaccel_file_data_again :
    (os os' : FileOs) (f : File) (calls calls' log : List FileCall) (ptr size : ℕ) (g : Option File)
    → vaccel_file_data os (some f) calls ≡ ok (some (ptr, size), g, calls')
    → size ≢ 0
    → vaccel_file_data os' g log ≡ ok (some (ptr, size), g, log)
unfolding vaccel_file_data vaccel_file_read read_file
vaccel_file_data_again os os' f calls calls' log ptr size g e n = ground (arith, e)

-- A file whose data are still in the stream's buffer when `vaccel_file_persist` maps it has size 0,
-- and `mmap` answers MAP_FAILED for that: the persisting succeeds, and leaves the file with the
-- contents MAP_FAILED and the size 0.
pub vaccel_file_persist-unflushed :
    (os : FileOs) (f : File) (dir name p : List ℕ) (randomize : Bool) (calls : List FileCall)
    → lacks_contents f ≡ false
    → f.path ≡ no_path
    → os.opendir_ok dir ≡ true
    → os.malloc_ok ≡ true
    → p ≡ target os dir name randomize
    → (open_target os dir name randomize).error ≡ vaccel_ok
    → os.fwrite f.size ≡ f.size
    → os.open_read p ≡ vaccel_ok
    → os.fstat p ≡ vaccel_ok
    → os.st_size p ≡ 0
    → os.mmap p 0 ≡ map_failed
    → vaccel_file_persist os f dir (some name) randomize calls ≡ (
      vaccel_ok,
      record { path = path p; path_owned = true; contents = map_failed; size = 0 },
      calls ++ (created p ∷ mmap_called (map_failed) 0 ∷ closed p ∷ []),
    )
unfolding vaccel_file_persist persist_at read_file dir_exists
vaccel_file_persist-unflushed os f dir name p randomize calls has unset d m t c w o s z bad =
    simp (sym t, has, unset, d, m, c, w, o, s, z, bad) (ground arith)
