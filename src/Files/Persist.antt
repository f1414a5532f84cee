-- ===== src/Files/Persist.antt =====
-- Persisting and destroying a file.
use vaccel_google_test.Common.{
  ℕ, ◌≡◌, ◌≢◌, refl, ap, sym, subst, ◌∙◌, ◌⊎◌, inl, inr, Bool-cases, Bool, true, false, Option,
  none, some, List, [], ◌∷◌, ◌++◌, arith, ◌==◌,
}
use mathlib.Core.List.{append_assoc}
use vaccel_google_test.Common.Code.{
  Code, vaccel_ok, vaccel_enoent, vaccel_enomem, vaccel_eexists, vaccel_einval,
}
use vaccel_google_test.Common.Memory.{Ptr, null, ok}
use vaccel_google_test.Files.State.{
  FilePath, no_path, path, freed, File, FileCall, created, closed, removed, mmap_called,
  munmap_called, FileOs, dir_exists, read_file, is_no_path, Opened, open_target, target, persist_at,
  lacks_contents, vaccel_file_persist, destroy_file, vaccel_file_destroy,
}
use vaccel_google_test.Files.Ends.{Persisted, untouched, undone, left_behind, Unchanged, Result}

no_path_lem : (q : FilePath) → is_no_path q ≡ true → q ≡ no_path
no_path_lem no_path h = refl
no_path_lem (path p) h = cc
no_path_lem freed h = cc

-- A successful `read_file` gives a pointer that is not NULL.
pub read_file_real :
    (os : FileOs) (p : List ℕ)
    → (read_file os p).0 ≡ vaccel_ok
    → (ptr : Ptr) × (size : ℕ) × (read_file os p ≡ (vaccel_ok, some (ptr, size))) × (ptr ≢ null)
unfolding read_file
read_file_real os p h = (os.mmap p (os.st_size p), os.st_size p, ground arith, ground arith)

-- Where opening fails and leaves a file, the name is random.
open_target_left :
    (os : FileOs) (dir name : List ℕ) (randomize : Bool)
    → ((open_target os dir name randomize).error == vaccel_ok) ≡ false
    → (open_target os dir name randomize).exists ≡ true
    → randomize ≡ true
unfolding open_target
open_target_left os dir name true failed left = refl
open_target_left os dir name false failed left = cc

module _ (os : FileOs) (f : File) (dir name : List ℕ) (randomize : Bool)
    (calls : List FileCall) where
  abbrev opened : Opened
  opened = open_target os dir name randomize

  not_opened :
      f.path ≡ no_path
      → (opened.error == vaccel_ok) ≡ false
      → Result os randomize opened f calls (persist_at os opened f calls)
  unfolding persist_at
  not_opened unset failed = elim (Bool-cases opened.exists) [
    | inl left ↦
        let random = open_target_left os dir name randomize failed left in
        rw (failed, left)
          (inr (
            ground arith,
            record {
              same_path = sym unset;
              contents = refl;
              size = refl;
              log = left_behind random (ground arith) refl;
            },
          ))
    | inr none_left ↦
        rw (failed, none_left)
          (inr (
            ground arith,
            record { same_path = sym unset; contents = refl; size = refl; log = untouched refl },
          ))
  ]

  persist_at-Result :
      f.path ≡ no_path → Result os randomize opened f calls (persist_at os opened f calls)
  unfolding persist_at
  persist_at-Result unset = elim (Bool-cases (opened.error == vaccel_ok)) [
    | inr c ↦ not_opened unset c
    | inl c ↦ elim (Bool-cases (os.fwrite f.size == f.size)) [
      | inr w ↦
          rw (c, w)
            (inr (
              ground arith,
              record {
                same_path = sym unset;
                contents = refl;
                size = refl;
                log = undone (ground arith) refl;
              },
            ))
      | inl w ↦ elim (Bool-cases ((read_file os opened.at).0 == vaccel_ok)) [
        | inr r ↦
            rw (c, w, r)
              (inr (
                ground arith,
                record {
                  same_path = sym unset;
                  contents = refl;
                  size = refl;
                  log = undone (ground arith) refl;
                },
              ))
        | inl r ↦
            let (ptr, size, e, real) = read_file_real os opened.at (ground arith) in
            rw (c, w, e)
              (inl
                (refl, record { at_path = refl; owned = refl; read = e; real = real; log = refl }))
      ]
    ]
  ]

  refused_early : (c : Code) → c ≢ vaccel_ok → Result os randomize opened f calls (c, f, calls)
  refused_early c n =
      inr (n, record { same_path = refl; contents = refl; size = refl; log = untouched refl })

  persist-Result :
      Result os randomize opened f calls (vaccel_file_persist os f dir (some name) randomize calls)
  unfolding vaccel_file_persist
  persist-Result = elim (Bool-cases (lacks_contents f)) [
    | inl a ↦ rw a (refused_early vaccel_einval (ground arith))
    | inr a ↦ elim (Bool-cases (dir_exists os dir)) [
      | inr b ↦ rw (a, b) (refused_early vaccel_enoent (ground arith))
      | inl b ↦ elim (Bool-cases (is_no_path f.path)) [
        | inr c ↦ rw (a, b, c) (refused_early vaccel_eexists (ground arith))
        | inl c ↦ elim (Bool-cases os.malloc_ok) [
          | inr d ↦ simp (a, b, c, d) (refused_early vaccel_enomem (ground arith))
          | inl d ↦ simp (a, b, c, d) (persist_at-Result (no_path_lem f.path c))
        ]
      ]
    ]
  ]

  -- The ends of `vaccel_file_persist` with a name.
  pub persist_named :
      (c : Code) × (g : File) × (calls' : List FileCall) × (vaccel_file_persist os f dir
          (some name)
          randomize
          calls
        ≡ (c, g, calls'))
      × (((c ≡ vaccel_ok) × Persisted os opened.at calls g calls')
          ⊎ ((c ≢ vaccel_ok) × Unchanged randomize opened f calls g calls'))
  persist_named = (_, _, _, refl, persist-Result)

-- Without a name nothing happens.
persist_unnamed :
    (os : FileOs) (f : File) (dir : List ℕ) (randomize : Bool) (calls : List FileCall)
    → (c : Code) × (c ≢ vaccel_ok)
      × (vaccel_file_persist os f dir none randomize calls ≡ (c, f, calls))
unfolding vaccel_file_persist
persist_unnamed os f dir randomize calls = elim (Bool-cases (lacks_contents f)) [
  | inl a ↦ (vaccel_einval, ground arith, rw a)
  | inr a ↦ elim (Bool-cases (dir_exists os dir)) [
    | inl b ↦ (vaccel_einval, ground arith, rw (a, b))
    | inr b ↦ (vaccel_enoent, ground arith, rw (a, b))
  ]
]

-- `vaccel_file_persist` without a name answers an error and does nothing. With a name it ends in
-- one of two ways. Either it answers OK, the file owns the path that was opened, and its contents
-- and size are those that `read_file` of the path gave, not NULL. Or it answers an error, and the
-- file has its path and contents of before: no file was made, or it was closed and removed, or,
-- only for a random name, `fdopen` failed and the file that `mkstemp` made is left behind.
pub vaccel_file_persist-Outcome :
    (os : FileOs) (f : File) (dir : List ℕ) (filename : Option (List ℕ)) (randomize : Bool)
    → (calls : List FileCall)
    → (c : Code) × (g : File) × (calls' : List FileCall) × (vaccel_file_persist os f dir filename
          randomize calls
        ≡ (c, g, calls'))
      × (((filename ≡ none) × (c ≢ vaccel_ok) × (g ≡ f) × (calls' ≡ calls))
          ⊎ ((name : List ℕ) × (filename ≡ some name)
              × (((c ≡ vaccel_ok) × Persisted os (target os dir name randomize) calls g calls')
                  ⊎ ((c ≢ vaccel_ok)
                      × Unchanged randomize (open_target os dir name randomize) f calls g calls'))))
vaccel_file_persist-Outcome os f dir none randomize calls =
    let (c, bad, e) = persist_unnamed os f dir randomize calls in
    (c, f, calls, e, inl (refl, bad, refl, refl))
vaccel_file_persist-Outcome os f dir (some name) randomize calls =
    let (c, g, calls', e, ends) = persist_named os f dir name randomize calls in
    (c, g, calls', e, inr (name, refl, ends))

destroy_owned :
    (g : File) (p : List ℕ) (calls : List FileCall)
    → g.path ≡ path p
    → g.path_owned ≡ true
    → g.contents ≢ null
    → vaccel_file_destroy (some g) calls
      ≡ ok (
        vaccel_ok,
        some (record g { path = freed }),
        calls ++ (munmap_called g.contents g.size ∷ removed p ∷ []),
      )
unfolding vaccel_file_destroy destroy_file
destroy_owned g p calls e owned real = ground arith

-- Destroying a file that was persisted takes back all that persisting it made: the calls of both
-- are that the file was made, `mmap` was called, the file closed, `munmap` called and the file
-- removed, at the same path, address and size.
pub vaccel_file_destroy-persist :
    (os : FileOs) (f g : File) (dir name : List ℕ) (randomize : Bool) (calls calls' : List FileCall)
    → vaccel_file_persist os f dir (some name) randomize calls ≡ (vaccel_ok, g, calls')
    → let p = target os dir name randomize in
      vaccel_file_destroy (some g) calls'
      ≡ ok (
        vaccel_ok,
        some (record g { path = freed }),
        calls
            ++ (created p
                ∷ mmap_called g.contents g.size
                ∷ closed p
                ∷ munmap_called g.contents g.size
                ∷ removed p
                ∷ []),
      )
vaccel_file_destroy-persist os f g dir name randomize calls calls' e =
    let p = target os dir name randomize in
    elim (subst (Result os randomize (open_target os dir name randomize) f calls) e
      (persist-Result os f dir name randomize calls)) [
        | inr (bad, kept) ↦ absurd (bad refl)
        | inl (good, done) ↦
            destroy_owned g p calls' done.at_path done.owned done.real
            ∙ ap (λ cs. ok (vaccel_ok, some (record g { path = freed }), cs))
                (simp (done.log, append_assoc))
      ]
