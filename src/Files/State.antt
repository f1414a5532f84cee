-- ===== src/Files/State.antt =====
-- The functions of src/resources/file.c and of src/utils.c.
use vaccel_google_test.Common.{
  ℕ, ◌-◌, ◌^◌, Bool, true, false, ◌&&◌, ◌||◌, not, Option, none, some, List, [], ◌∷◌, ◌++◌, ◌==◌,
  if◌then◌else◌,
}
use vaccel_google_test.Common.Code.{
  Code, vaccel_ok, vaccel_enoent, vaccel_eio, vaccel_enomem, vaccel_eexists, vaccel_einval,
}
use vaccel_google_test.Common.Memory.{Ptr, null, Outcome, ok, fault}

-- `char *path`: NULL, an allocated string, or memory that was freed.
pub data FilePath : Type 0 where
  no_path : FilePath
  path : List ℕ → FilePath
  freed : FilePath

-- `struct vaccel_file`; `contents` is its field `data`.
pub record File : Type 0 where
  pub path : FilePath
  pub path_owned : Bool
  pub contents : Ptr
  pub size : ℕ

-- Calls of the system that leave something behind: a file that `fopen` or `mkstemp` made, its
-- stream closed, a file removed, a call of `mmap` with its answer, which can be MAP_FAILED, a call
-- of `munmap`, a directory made and removed.
pub data FileCall : Type 0 where
  created : List ℕ → FileCall
  closed : List ℕ → FileCall
  removed : List ℕ → FileCall
  mmap_called : (answer size : ℕ) → FileCall
  munmap_called : (address size : ℕ) → FileCall
  made_dir : List ℕ → FileCall
  removed_dir : List ℕ → FileCall

-- MAP_FAILED, the pointer `(void *)-1` that a failing `mmap` answers, and EBADF.
abbrev pub map_failed : Ptr
map_failed = 2 ^ 64 - 1

abbrev pub ebadf : Code
ebadf = 9

-- The answers of the system during one call. `access`, `fopen` and `fdopen` for writing, `open` and
-- `fstat` give their error number, or 0. `mkstemp` gives the name that it made of the template, or
-- nothing where it fails; `fdopen` is asked for the descriptor that it opened.
pub record FileOs : Type 0 where
  pub access : List ℕ → Code
  pub strdup_ok : Bool
  pub malloc_ok : Bool
  pub opendir_ok : List ℕ → Bool
  pub mkstemp : List ℕ → Option (List ℕ)
  pub fdopen : List ℕ → Code
  pub fopen : List ℕ → Code
  pub fwrite : ℕ → ℕ
  pub open_read : List ℕ → Code
  pub fstat : List ℕ → Code
  pub st_size : List ℕ → ℕ
  pub mmap : (path : List ℕ) (size : ℕ) → Ptr
  pub rmdir : List ℕ → Code

unfoldable pub dir_exists : FileOs → List ℕ → Bool
dir_exists os dir = os.opendir_ok dir

unfoldable pub cleanup_rundir : FileOs → List ℕ → Code
cleanup_rundir os dir = os.rmdir dir

-- The code, and what is stored through `data` and `size` on success. Only NULL counts as a failure
-- of `mmap`: MAP_FAILED is stored like an address.
unfoldable pub read_file : FileOs → List ℕ → Code × Option (Ptr × ℕ)
read_file os p =
    let ptr = os.mmap p (os.st_size p) in
    if not (os.open_read p == vaccel_ok)
    then (os.open_read p, none)
    else if not (os.fstat p == vaccel_ok)
    then (os.fstat p, none)
    else if ptr == null
    then (vaccel_enomem, none)
    else (vaccel_ok, some (ptr, os.st_size p))

-- The call of `mmap` of a successful `read_file`.
abbrev pub mapping : Option (Ptr × ℕ) → List FileCall
mapping none = []
mapping (some (ptr, size)) = mmap_called ptr size ∷ []

-- What `read_file` stores in a file.
abbrev pub store_contents : Option (Ptr × ℕ) → File → File
store_contents none f = f
store_contents (some (ptr, size)) f = record f { contents = ptr; size = size }

unfoldable pub vaccel_file_new : FileOs → Option File → Option (List ℕ) → Code × Option File
vaccel_file_new os none p = (vaccel_einval, none)
vaccel_file_new os (some f) none = (vaccel_einval, some f)
vaccel_file_new os (some f) (some p) =
    if not (os.access p == vaccel_ok)
    then (os.access p, some f)
    else if not os.strdup_ok
    then (vaccel_enomem, some (record f { path = no_path }))
    else (vaccel_ok, some (record { path = path p; path_owned = false; contents = null; size = 0 }))

-- "%s/%s" and "%s/%s.XXXXXX"
abbrev pub file_name : (dir filename : List ℕ) (randomize : Bool) → List ℕ
file_name dir filename randomize =
    dir
    ++ (b'/' ∷ filename
        ++ (if randomize then b'.' ∷ b'X' ∷ b'X' ∷ b'X' ∷ b'X' ∷ b'X' ∷ b'X' ∷ [] else []))

-- What opening the file comes to: the error number, or 0, the path, and whether there is a file.
pub record Opened : Type 0 where
  pub error : Code
  pub at : List ℕ
  pub exists : Bool

-- `fdopen` of the descriptor -1, where `mkstemp` failed, sets EBADF.
unfoldable pub open_random : FileOs → (template : List ℕ) → Opened
open_random os template = elim (os.mkstemp template) [
  | none ↦ record { error = ebadf; at = template; exists = false }
  | some p ↦ record { error = os.fdopen p; at = p; exists = true }
]

unfoldable pub open_target : FileOs → (dir filename : List ℕ) (randomize : Bool) → Opened
open_target os dir filename randomize =
    let name = file_name dir filename randomize in
    if randomize
    then open_random os name
    else record { error = os.fopen name; at = name; exists = os.fopen name == vaccel_ok }

-- The path that is opened.
abbrev pub target : FileOs → (dir filename : List ℕ) (randomize : Bool) → List ℕ
target os dir filename randomize = (open_target os dir filename randomize).at

abbrev pub is_no_path : FilePath → Bool
is_no_path no_path = true
is_no_path (path p) = false
is_no_path freed = false

-- The part of `vaccel_file_persist` behind the opening. Where `fdopen` fails, the file that
-- `mkstemp` made stays.
unfoldable pub persist_at : FileOs → Opened → File → List FileCall → Code × File × List FileCall
persist_at os o f calls =
    let p = o.at in
    let f' = record f { path = path p; path_owned = true } in
    let back = record f' { path = no_path } in
    let (ret, m) = read_file os p in
    if not (o.error == vaccel_ok)
    then (o.error, back, if o.exists then calls ++ created p ∷ [] else calls)
    else if not (os.fwrite f.size == f.size)
    then (vaccel_eio, back, calls ++ (created p ∷ closed p ∷ removed p ∷ []))
    else if not (ret == vaccel_ok)
    then (ret, back, calls ++ (created p ∷ closed p ∷ removed p ∷ []))
    else (vaccel_ok, store_contents m f', calls ++ (created p ∷ (mapping m ++ closed p ∷ [])))

-- `!file->data | !file->size`
abbrev pub lacks_contents : File → Bool
lacks_contents f = (f.contents == null) || (f.size == 0)

unfoldable pub vaccel_file_persist :
    FileOs
    → File
    → (dir : List ℕ) (filename : Option (List ℕ)) (randomize : Bool) → List FileCall
    → Code × File × List FileCall
vaccel_file_persist os f dir filename randomize calls =
    if lacks_contents f
    then (vaccel_einval, f, calls)
    else if not (dir_exists os dir)
    then (vaccel_enoent, f, calls)
    else elim filename [
      | none ↦ (vaccel_einval, f, calls)
      | some name ↦
          if not (is_no_path f.path)
          then (vaccel_eexists, f, calls)
          else if not os.malloc_ok
          then (vaccel_enomem, f, calls)
          else persist_at os (open_target os dir name randomize) f calls
    ]

unfoldable pub vaccel_file_from_buffer :
    FileOs
    → Option File
    → (buff : Ptr) (size : ℕ) (filename : Option (List ℕ)) (persist : Bool)
    → (dir : List ℕ) (randomize : Bool) → List FileCall
    → Code × Option File × List FileCall
vaccel_file_from_buffer os none buff size filename persist dir randomize calls =
    (vaccel_einval, none, calls)
vaccel_file_from_buffer os (some f) buff size filename persist dir randomize calls =
    let f' = record f { path = no_path; contents = buff; size = size } in
    let (ret, g, calls') = vaccel_file_persist os f' dir filename randomize calls in
    if (buff == null) || (size == 0)
    then (vaccel_einval, some f, calls)
    else if persist
    then (ret, some g, calls')
    else (vaccel_ok, some f', calls)

-- A destroyed file keeps the address of the path that was freed; to use it again is a fault.
unfoldable pub destroy_file : File → List FileCall → Outcome (File × List FileCall)
destroy_file f calls = elim f.path [
  | no_path ↦ ok (f, calls)
  | freed ↦ fault
  | path p ↦ ok (
    record f { path = freed },
    calls
        ++ ((if f.contents == null then [] else munmap_called f.contents f.size ∷ [])
            ++ (if f.path_owned then removed p ∷ [] else [])),
  )
]

unfoldable pub vaccel_file_destroy :
    Option File → List FileCall → Outcome (Code × Option File × List FileCall)
vaccel_file_destroy none calls = ok (vaccel_einval, none, calls)
vaccel_file_destroy (some f) calls = elim (destroy_file f calls) [
  | fault ↦ fault
  | ok (f', calls') ↦ ok (vaccel_ok, some f', calls')
]

unfoldable pub vaccel_file_initialized : Option File → Bool
vaccel_file_initialized none = false
vaccel_file_initialized (some f) =
    not (is_no_path f.path) || (not (f.contents == null) && not (f.size == 0))

-- Reading through a path that was freed is a fault.
unfoldable pub vaccel_file_read :
    FileOs → Option File → List FileCall → Outcome (Code × Option File × List FileCall)
vaccel_file_read os none calls = ok (vaccel_einval, none, calls)
vaccel_file_read os (some f) calls =
    if not (f.contents == null) then ok (vaccel_ok, some f, calls) else elim f.path [
      | no_path ↦ ok (vaccel_einval, some f, calls)
      | freed ↦ fault
      | path p ↦
          let (ret, m) = read_file os p in ok (ret, some (store_contents m f), calls ++ mapping m)
    ]

-- What a call of `vaccel_file_data` gives: the pointer and, unless it is NULL, the size.
abbrev pub Contents : Type 0
Contents = Option (Ptr × ℕ)

abbrev pub contents_of : Option File → Contents
contents_of none = none
contents_of (some f) = some (f.contents, f.size)

unfoldable pub vaccel_file_data :
    FileOs → Option File → List FileCall → Outcome (Contents × Option File × List FileCall)
vaccel_file_data os none calls = ok (none, none, calls)
vaccel_file_data os (some f) calls =
    if lacks_contents f
    then elim (vaccel_file_read os (some f) calls) [
      | fault ↦ fault
      | ok (ret, g, calls') ↦
          if not (ret == vaccel_ok) then ok (none, g, calls') else ok (contents_of g, g, calls')
    ]
    else ok (some (f.contents, f.size), some f, calls)

unfoldable pub vaccel_file_path : Option File → FilePath
vaccel_file_path none = no_path
vaccel_file_path (some f) = f.path
