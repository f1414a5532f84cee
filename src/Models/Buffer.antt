-- ===== src/Models/Buffer.antt =====
-- Making a shared object or a TensorFlow model from a buffer.
use vaccel_google_test.Common.{
  ℕ, ◌-◌, ◌<◌, ◌≡◌, ◌≢◌, refl, sym, ap, subst, ◌∙◌, ◌⊎◌, inl, inr, arith, true, false, not, none,
  some, List, [], ◌∷◌, ◌++◌, ◌==◌, if◌then◌else◌, has, remove, length, take, has-append,
  has-remove_self,
}
use vaccel_google_test.Common.Code.{Code, vaccel_ok}
use vaccel_google_test.Common.Memory.{Ptr, null, Outcome, ok, ◌>>=◌}
use vaccel_google_test.Resources.{ResourceState, res_max, resource_create_rundir}
use vaccel_google_test.Resources.Live.{IsLive, resource_new-New}
use vaccel_google_test.Resources.Destroy.{Destroyed, resource_destroy-Destroyed}
use vaccel_google_test.Resources.{rundir_text, max_resource_rundir}
use vaccel_google_test.Resources.Rundir.{set_rundir, resource_create_rundir-Made, set_rundir_own}
use vaccel_google_test.Files.State.{
  no_path, FileCall, Opened, File, vaccel_file_from_buffer, vaccel_file_persist, target,
}
use vaccel_google_test.Files.Ends.{Persisted, Leftover, untouched}
use vaccel_google_test.Files.Persist.{persist_named}
use vaccel_google_test.Models.Ready.{IsReady, New-IsReady, set_rundir-IsReady}
use vaccel_google_test.Models.State.{Env, World, destroy_with, create_rundir, text_of}
use vaccel_google_test.Models.Object.{
  Object, Kind, tf_model, object_from_buffer, persist_in_rundir, undo, tf_model_destructor,
  vaccel_tf_model_new_from_buffer,
}
use vaccel_google_test.Models.Lifetime.{
  Held, IsFileDestructor, tf_model_destructor-IsFileDestructor, destroy_file_of-no_path,
  remove_last,
}

-- What a failure leaves: the live resources are as before, the resource that was allocated is freed,
-- the object has no path, and a file that was made on the way was removed.
pub record Undone (k : Kind) (e : Env) (object : Object) (w : World) (object' : Object) (w' : World)
    : Type 0 where
  pub live : IsLive w'.resources
  pub same_live : w'.resources.live 0 ≡ w.resources.live 0
  pub freed : has e.malloc w'.freed ≡ true
  pub resource : object'.resource ≡ object.resource
  pub no_file : object'.file.path ≡ no_path
  pub log : (o : Opened) × Leftover k.randomize o w.calls w'.calls

-- The directory of a resource.
abbrev pub rundir_of : Env → (id : ℕ) → List ℕ
rundir_of e id = take (max_resource_rundir - 1) (rundir_text e.root e.print_id id)

-- What success leaves: the resource is the last live one, and the object's file is in its directory.
pub record Stored (k : Kind) (e : Env) (self : Ptr) (w : World) (object' : Object) (w' : World)
    : Type 0 where
  pub held : Held k self object' w'
  pub resource : object'.resource ≡ e.malloc
  pub last : w'.resources.live 0 ≡ w.resources.live 0 ++ e.malloc ∷ []
  pub rundir :
      (w'.resources.res e.malloc).rundir ≡ some (rundir_of e (w'.resources.res e.malloc).id)
  pub persisted :
      Persisted e.os
        (target e.os (rundir_of e (w'.resources.res e.malloc).id) k.filename k.randomize)
        w.calls
        object'.file
        w'.calls

module _ (d : Object → World → Outcome (Object × World)) (file_only : IsFileDestructor d) (k : Kind)
    (e : Env) (self : Ptr) (alone : e.virtio ≡ none) where
  undo-Destroyed :
      (ret : Code) (object : Object) (w : World)
      → IsReady k.destructor self e.malloc w.resources
      → object.file.path ≡ no_path
      → (s : ResourceState) × (undo d k e self ret object w
          ≡ ok (
            ret,
            object,
            record { resources = s; calls = w.calls; freed = w.freed ++ e.malloc ∷ [] },
          ))
        × Destroyed e.malloc w.resources s
  unfolding undo destroy_with
  undo-Destroyed ret object w r empty =
      let (s, runs, gone) =
        resource_destroy-Destroyed e.malloc w.resources r.live r.member r.unused in
      let w' : World = record w { resources = s } in
      let none_left = destroy_file_of-no_path object.file w' empty in
      let shut =
        file_only object w'
        ∙ ap (λ m. m >>= λ (f, w'). ok (record object { file = f }, w')) none_left in
      (s, ground (arith, alone, runs, shut, none_left, r.handler, r.argument), gone)

  -- The failures of `persist_in_rundir`.
  record IsGone (object : Object) (w : World) (object' : Object) (w' : World) : Type 0 where
    s : ResourceState
    ready : IsReady k.destructor self e.malloc s
    listed : s.live ≡ w.resources.live
    resources : Destroyed e.malloc s w'.resources
    freed : w'.freed ≡ w.freed ++ e.malloc ∷ []
    resource : object'.resource ≡ object.resource
    no_file : object'.file.path ≡ no_path
    log : (o : Opened) × Leftover k.randomize o w.calls w'.calls

  abbrev Persisting : Object → World → Outcome (Code × Object × World) → Type 0
  Persisting object w result =
      (c : Code) × (object' : Object) × (w' : World) × (result ≡ ok (c, object', w'))
      × (((c ≡ vaccel_ok)
            × ((object'.resource ≡ e.malloc)
                × IsReady k.destructor self e.malloc w'.resources
                × (w'.resources.live ≡ w.resources.live)
                × (w'.freed ≡ w.freed)
                × ((w'.resources.res e.malloc).rundir
                    ≡ some (rundir_of e (w'.resources.res e.malloc).id))
                × Persisted e.os
                    (target e.os (rundir_of e (w'.resources.res e.malloc).id) k.filename
                      k.randomize)
                    w.calls object'.file w'.calls))
          ⊎ ((c ≢ vaccel_ok) × IsGone object w object' w'))

  failed :
      (ret : Code) (object object' : Object) (w w₁ : World)
      → ret ≢ vaccel_ok
      → IsReady k.destructor self e.malloc w₁.resources
      → w₁.resources.live ≡ w.resources.live
      → w₁.freed ≡ w.freed
      → object'.resource ≡ object.resource
      → object'.file.path ≡ no_path
      → (o : Opened) × Leftover k.randomize o w.calls w₁.calls
      → Persisting object w (undo d k e self ret object' w₁)
  failed ret object object' w w₁ bad r same kept owner empty log =
      let (s, runs, gone) = undo-Destroyed ret object' w₁ r empty in
      (
        ret,
        object',
        _,
        runs,
        inr (
          bad,
          record {
            s = w₁.resources;
            ready = r;
            listed = same;
            resources = gone;
            freed = ap (λ l. l ++ e.malloc ∷ []) kept;
            resource = owner;
            no_file = empty;
            log = log;
          },
        ),
      )

  -- No file was opened.
  none_left :
      {calls calls' : List FileCall}
      → calls' ≡ calls
      → (o : Opened) × Leftover k.randomize o calls calls'
  none_left same = (record { error = vaccel_ok; at = []; exists = false }, untouched same)

  not_ok : (c : Code) → c ≢ vaccel_ok → (c == vaccel_ok) ≡ false
  not_ok c bad = ground arith

  -- The part behind `resource_create_rundir`, when it succeeded.
  persist_result :
      (object : Object) (w : World) (s : ResourceState)
      → IsReady k.destructor self e.malloc s
      → object.file.path ≡ no_path
      → s.live ≡ w.resources.live
      → (s.res e.malloc).rundir ≡ some (rundir_of e (s.res e.malloc).id)
      → let (ret, f, calls) =
          vaccel_file_persist e.os object.file
            (text_of (s.res e.malloc).rundir)
            (some k.filename)
            k.randomize
            w.calls in
        Persisting object w (
          if not (ret == vaccel_ok)
          then undo d k e self ret
              (record object { file = f })
              (record w { resources = s; calls = calls })
          else ok (
            vaccel_ok,
            record { resource = e.malloc; file = f },
            record w { resources = s; calls = calls },
          ))
  persist_result object w s r empty same made =
      let dir = text_of (s.res e.malloc).rundir in
      let (c, f, calls, runs, outcome) =
        persist_named e.os object.file dir k.filename k.randomize w.calls in
      elim outcome [
        | inl (good, stored) ↦
            let dir_is : dir ≡ rundir_of e (s.res e.malloc).id = ap text_of made in
            rw (runs, good)
              (
                vaccel_ok,
                record { resource = e.malloc; file = f },
                record w { resources = s; calls = calls },
                refl,
                inl (
                  refl,
                  (
                    refl,
                    r,
                    same,
                    refl,
                    made,
                    subst
                        (λ dir.
                          Persisted e.os (target e.os dir k.filename k.randomize) w.calls f calls)
                        dir_is stored,
                  ),
                ),
              )
        | inr (bad, u) ↦
            rw (runs, not_ok c bad)
              (failed c object (record object { file = f }) w
                (record w { resources = s; calls = calls }) bad r same refl refl
                (u.same_path ∙ empty) (_, u.log))
      ]

  persist_in_rundir-Persisting :
      (object : Object) (w : World)
      → IsReady k.destructor self e.malloc w.resources
      → object.file.path ≡ no_path
      → Persisting object w (persist_in_rundir d k e self object w)
  unfolding persist_in_rundir create_rundir
  persist_in_rundir-Persisting object w r empty =
      let made =
        resource_create_rundir e.root e.print_id e.mkdir e.strndup_ok e.malloc w.resources in
      let dir = some (rundir_of e (w.resources.res e.malloc).id) in
      let fail : (s : ResourceState)
          → made.0 ≢ vaccel_ok
          → made.1 ≡ s
          → s.live ≡ w.resources.live
          → IsReady k.destructor self e.malloc s
          → Persisting object w (undo d k e self made.0 object (record w { resources = made.1 })) =
        λ s bad is same ready.
          failed made.0 object object w (record w { resources = made.1 }) bad
            (subst (IsReady k.destructor self e.malloc) (sym is) ready) (ap (λ s. s.live) is ∙ same)
            refl refl empty (none_left refl) in
      elim (resource_create_rundir-Made e.root e.print_id e.mkdir e.strndup_ok e.malloc
        w.resources) [
          | inr (bad, inl is) ↦ rw (not_ok made.0 bad) (fail w.resources bad is refl r)
          | inr (bad, inr is) ↦ rw (not_ok made.0 bad) (
              fail (set_rundir e.malloc none w.resources) bad is refl
                (set_rundir-IsReady k.destructor self e.malloc none w.resources r))
          | inl (good, is) ↦ rw good (
              persist_result object w made.1
                (subst (IsReady k.destructor self e.malloc) (sym is)
                  (set_rundir-IsReady k.destructor self e.malloc dir w.resources r))
                empty (ap (λ s. s.live) is)
                (subst (λ s. (s.res e.malloc).rundir ≡ some (rundir_of e (s.res e.malloc).id))
                  (sym is) (rw (set_rundir_own e.malloc dir w.resources) refl)))
        ]

  object_from_buffer-Outcome :
      (object : Object) (buff : Ptr) (size : ℕ) (w : World)
      → buff ≢ null
      → size ≢ 0
      → e.malloc ≢ null
      → k.type < res_max
      → IsLive w.resources
      → has e.malloc (w.resources.live 0) ≡ false
      → length (w.resources.live 0) < w.resources.pool.max
      → (c : Code) × (object' : Object) × (w' : World) × (object_from_buffer d k e self
            (some object)
            buff
            size
            w
          ≡ ok (c, some object', w'))
        × (((c ≡ vaccel_ok) × Stored k e self w object' w')
            ⊎ ((c ≢ vaccel_ok) × Undone k e object w object' w'))
  unfolding object_from_buffer vaccel_file_from_buffer
  object_from_buffer-Outcome object buff size w given filled real known v fresh room =
      let (s, runs, n) =
        resource_new-New e.malloc k.type self k.destructor w.resources v real known fresh room in
      let file : File = record object.file { path = no_path; contents = buff; size = size } in
      let w₁ : World = record { resources = s; calls = w.calls; freed = remove e.malloc w.freed } in
      let (c, object', w', ends, outcome) =
        persist_in_rundir-Persisting (record object { file = file }) w₁
          (New-IsReady k.destructor self e.malloc k.type w.resources s n) refl in
      (
        c,
        object',
        w',
        ground (arith, given, filled, real, alone, runs, ends),
        elim outcome [
          | inl (good, (owner, ready, same, kept, made, stored)) ↦ inl (
            good,
            record {
              held = record {
                live = ready.live;
                member = rw owner ready.member;
                allocated = rw (owner, kept) (has-remove_self e.malloc w.freed);
                unused = rw owner ready.unused;
                destructor = rw owner ready.handler;
                argument = rw owner ready.argument;
              };
              resource = owner;
              last = ap (λ l. l 0) same ∙ n.last;
              rundir = made;
              persisted = stored;
            },
          )
          | inr (bad, gone) ↦ inr (
            bad,
            record {
              live = gone.resources.live;
              same_live =
                  gone.resources.gone
                  ∙ ap (λ l. remove e.malloc (l 0)) gone.listed
                  ∙ ap (remove e.malloc) n.last
                  ∙ remove_last e.malloc (w.resources.live 0) fresh;
              freed =
                  rw gone.freed
                    (ground (arith, has-append e.malloc (remove e.malloc w.freed) (e.malloc ∷ [])));
              resource = gone.resource;
              no_file = gone.no_file;
              log = gone.log;
            },
          )
        ],
      )

-- Without a host, with memory for the resource at an address that is no live resource, and while
-- fewer resources are live than the pool has ids, a TensorFlow model is made of a buffer that is
-- neither NULL nor empty in one of two ways. If the answer is OK, its resource is the last live
-- one, with a directory named after its id, in which the file "model.pb" was made; the model owns
-- the file, and its contents are what `mmap` of the file answered, which is not NULL but can be
-- MAP_FAILED. If the answer is an error, the live resources are as before, the resource that was
-- allocated is freed, the model has no path, and a file that was made on the way was closed and
-- removed.
pub vaccel_tf_model_new_from_buffer-Outcome :
    (destructor : Ptr) (e : Env) (self : Ptr) (model : Object) (buff : Ptr) (size : ℕ) (w : World)
    → e.virtio ≡ none
    → buff ≢ null
    → size ≢ 0
    → e.malloc ≢ null
    → IsLive w.resources
    → has e.malloc (w.resources.live 0) ≡ false
    → length (w.resources.live 0) < w.resources.pool.max
    → (c : Code) × (model' : Object) × (w' : World) × (vaccel_tf_model_new_from_buffer destructor e
          self
          (some model)
          buff
          size
          w
        ≡ ok (c, some model', w'))
      × (((c ≡ vaccel_ok) × Stored (tf_model destructor) e self w model' w')
          ⊎ ((c ≢ vaccel_ok) × Undone (tf_model destructor) e model w model' w'))
unfolding vaccel_tf_model_new_from_buffer
vaccel_tf_model_new_from_buffer-Outcome destructor e self model buff size w alone given filled
      real =
    object_from_buffer-Outcome tf_model_destructor tf_model_destructor-IsFileDestructor
      (tf_model destructor) e self alone model buff size w given filled real (omega arith)
