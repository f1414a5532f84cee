-- ===== src/Models/Lifetime.antt =====
-- Making and destroying a shared object or a TensorFlow model from a path.
use vaccel_google_test.Common.{
  ℕ, ◌<◌, ◌≡◌, ◌≢◌, refl, ap, ◌∙◌, arith, true, false, none, some, List, [], ◌∷◌, ◌++◌, ◌==◌,
  if◌then◌else◌, has, remove, length, has-append, has-remove_self, remove-append, ap₂,
  remove_absent,
}
use mathlib.Core.List.{append-nil}
use vaccel_google_test.Common.Code.{vaccel_ok}
use vaccel_google_test.Common.Memory.{Ptr, null, Outcome, ok, ◌>>=◌}
use vaccel_google_test.Resources.{res_max}
use vaccel_google_test.Resources.Live.{IsLive, resource_new-New}
use vaccel_google_test.Resources.Destroy.{
  Destroyed, resource_destroy-Destroyed, resource_destroy-busy,
}
use vaccel_google_test.Files.State.{
  no_path, path, freed, FileCall, removed, munmap_called, File, vaccel_file_new, destroy_file,
  vaccel_file_destroy,
}
use vaccel_google_test.Models.State.{Env, World, free_resource, destroy_file_of, destroy_with}
use vaccel_google_test.Models.Object.{
  Object, Kind, shared_object, tf_model, object_new, object_destroy, shared_object_destructor,
  tf_model_destructor, vaccel_shared_object_new, vaccel_shared_object_destroy,
  vaccel_tf_model_destroy,
}

-- An object whose resource is live, with its own destructor, and which no session uses.
pub record Held (k : Kind) (self : Ptr) (object : Object) (w : World) : Type 0 where
  pub live : IsLive w.resources
  pub member : has object.resource (w.resources.live 0) ≡ true
  pub allocated : has object.resource w.freed ≡ false
  pub unused : (w.resources.res object.resource).refcount ≡ 0
  pub destructor : (w.resources.res object.resource).cleanup_resource ≡ k.destructor
  pub argument : (w.resources.res object.resource).data_ptr ≡ self

pub remove_last : (a : ℕ) (xs : List ℕ) → has a xs ≡ false → remove a (xs ++ a ∷ []) ≡ xs
remove_last a xs h = ground (arith, remove-append a xs (a ∷ []), remove_absent a xs, append-nil xs)

-- What making an object of the file at `p` leaves.
pub record Opened (k : Kind) (e : Env) (self : Ptr) (p : List ℕ) (w : World) (object' : Object)
    (w' : World) : Type 0 where
  pub file : object'.file ≡ record { path = path p; path_owned = false; contents = null; size = 0 }
  pub calls : w'.calls ≡ w.calls
  pub resource : object'.resource ≡ e.malloc
  pub last : w'.resources.live 0 ≡ w.resources.live 0 ++ e.malloc ∷ []
  pub held : Held k self object' w'

-- What destroying a file with the path `p` calls.
abbrev pub closing : File → (p : List ℕ) → List FileCall
closing f p =
    (if f.contents == null then [] else munmap_called f.contents f.size ∷ [])
    ++ (if f.path_owned then removed p ∷ [] else [])

-- What destroying an object leaves that was held and had a file at `p`: the path of the file is
-- freed, and the object keeps the address of its resource, which is freed too.
pub record Closed (p : List ℕ) (object : Object) (w : World) (object' : Object) (w' : World)
    : Type 0 where
  pub file : object'.file ≡ record object.file { path = freed }
  pub calls : w'.calls ≡ w.calls ++ closing object.file p
  pub resources : Destroyed object.resource w.resources w'.resources
  pub freed : w'.freed ≡ w.freed ++ object.resource ∷ []
  pub dangling : object'.resource ≡ object.resource

destroy_file_of-path :
    (f : File) (p : List ℕ) (w : World)
    → f.path ≡ path p
    → destroy_file_of f w
      ≡ ok (record f { path = freed }, record w { calls = w.calls ++ closing f p })
unfolding destroy_file_of vaccel_file_destroy destroy_file
destroy_file_of-path f p w e = ground (arith, e)

pub destroy_file_of-no_path :
    (f : File) (w : World) → f.path ≡ no_path → destroy_file_of f w ≡ ok (f, w)
unfolding destroy_file_of vaccel_file_destroy destroy_file
destroy_file_of-no_path f w e = ground (arith, e)

-- The destructor of an object destroys its file.
abbrev pub IsFileDestructor : (Object → World → Outcome (Object × World)) → Type 0
IsFileDestructor destructor =
    (o : Object) (w : World)
    → destructor o w ≡ (destroy_file_of o.file w >>= λ (f, w'). ok (record o { file = f }, w'))

module _ (k : Kind) (e : Env) (self : Ptr) (object : Object) where
  object_new-Opened :
      (p : List ℕ) (w : World)
      → e.virtio ≡ none
      → e.os.access p ≡ vaccel_ok
      → e.os.strdup_ok ≡ true
      → e.malloc ≢ null
      → k.type < res_max
      → IsLive w.resources
      → has e.malloc (w.resources.live 0) ≡ false
      → length (w.resources.live 0) < w.resources.pool.max
      → (object' : Object) × (w' : World) × (object_new k e self object (some p) w
          ≡ ok (vaccel_ok, object', w'))
        × Opened k e self p w object' w'
  unfolding object_new vaccel_file_new
  object_new-Opened p w alone access dup real known v fresh room =
      let (s, runs, n) =
        resource_new-New e.malloc k.type self k.destructor w.resources v real known fresh room in
      (
        record {
          resource = e.malloc;
          file = record { path = path p; path_owned = false; contents = null; size = 0 };
        },
        record { resources = s; calls = w.calls; freed = remove e.malloc w.freed },
        ground (arith, alone, access, dup, real, runs),
        record {
          file = refl;
          calls = refl;
          resource = refl;
          last = n.last;
          held = record {
            live = n.live;
            member =
                rw n.last
                  (ground (arith, has-append e.malloc (w.resources.live 0) (e.malloc ∷ [])));
            allocated = has-remove_self e.malloc w.freed;
            unused = n.unused;
            destructor = n.destructor;
            argument = n.argument;
          };
        },
      )

  object_destroy-Closed :
      (destructor : Object → World → Outcome (Object × World)) (p : List ℕ) (w : World)
      → IsFileDestructor destructor
      → e.virtio ≡ none
      → Held k self object w
      → object.file.path ≡ path p
      → (object' : Object) × (w' : World) × (object_destroy destructor k e self (some object) w
          ≡ ok (vaccel_ok, some object', w'))
        × Closed p object w object' w'
  unfolding object_destroy destroy_with
  object_destroy-Closed destructor p w file_only alone h at_path =
      let (s, runs, d) =
        resource_destroy-Destroyed object.resource w.resources h.live h.member h.unused in
      let real : (object.resource == null) ≡ false = ground (arith, h.member, h.live.real) in
      let shut =
        file_only object (record w { resources = s })
        ∙ ap (λ m. m >>= λ (f, w'). ok (record object { file = f }, w'))
            (destroy_file_of-path object.file p (record w { resources = s }) at_path) in
      (
        record object { file = record object.file { path = freed } },
        record {
          resources = s;
          calls = w.calls ++ closing object.file p;
          freed = w.freed ++ object.resource ∷ [];
        },
        ground (arith, real, alone, runs, shut, h.allocated, h.destructor, h.argument),
        record { file = refl; calls = refl; resources = d; freed = refl; dangling = refl },
      )

  object_destroy-busy :
      (destructor : Object → World → Outcome (Object × World)) (w : World)
      → w.resources.initialized ≡ true
      → object.resource ≢ null
      → has object.resource w.freed ≡ false
      → (w.resources.res object.resource).refcount ≢ 0
      → object_destroy destructor k e self (some object) w
        ≡ ok (vaccel_ok, some object, free_resource object.resource w)
  unfolding object_destroy destroy_with
  object_destroy-busy destructor w up real allocated busy =
      ground
        (arith, resource_destroy-busy e.virtio object.resource w.resources up real busy, allocated)

shared_object_destructor-IsFileDestructor : IsFileDestructor shared_object_destructor
unfolding shared_object_destructor
shared_object_destructor-IsFileDestructor o w = refl

pub tf_model_destructor-IsFileDestructor : IsFileDestructor tf_model_destructor
unfolding tf_model_destructor
tf_model_destructor-IsFileDestructor o w = refl

-- A round trip, without a host. The path can be accessed, strdup and malloc answer, fewer
-- resources are live than the pool has ids, and the address that malloc gives is no live
-- resource. Then a shared object is made of the path, and destroying it at once answers OK,
-- destroys the resource and leaves the live resources as they were, and no file was mapped or
-- removed.
pub vaccel_shared_object_new-destroy :
    (destructor : Ptr) (e : Env) (self : Ptr) (object : Object) (p : List ℕ) (w : World)
    → e.virtio ≡ none
    → e.os.access p ≡ vaccel_ok
    → e.os.strdup_ok ≡ true
    → e.malloc ≢ null
    → IsLive w.resources
    → has e.malloc (w.resources.live 0) ≡ false
    → length (w.resources.live 0) < w.resources.pool.max
    → (o₁ o₂ : Object) × (w₁ w₂ : World) × (vaccel_shared_object_new destructor e self object
          (some p)
          w
        ≡ ok (vaccel_ok, o₁, w₁))
      × (vaccel_shared_object_destroy destructor e self (some o₁) w₁ ≡ ok (vaccel_ok, some o₂, w₂))
      × (w₁.resources.live 0 ≡ w.resources.live 0 ++ e.malloc ∷ [])
      × (w₂.resources.live 0 ≡ w.resources.live 0)
      × IsLive w₂.resources
      × (w₂.calls ≡ w.calls)
unfolding vaccel_shared_object_new vaccel_shared_object_destroy
vaccel_shared_object_new-destroy destructor e self object p w alone access dup real v fresh room =
    let k = shared_object destructor in
    let (o₁, w₁, runs, opened) =
      object_new-Opened k e self object p w alone access dup real (omega arith) v fresh room in
    let (o₂, w₂, closes, closed) =
      object_destroy-Closed k e self o₁ shared_object_destructor p w₁
        shared_object_destructor-IsFileDestructor alone opened.held
        (ap (λ f. f.path) opened.file) in
    (
      o₁,
      o₂,
      w₁,
      w₂,
      runs,
      closes,
      opened.last,
      closed.resources.gone
          ∙ ap₂ remove opened.resource opened.last
          ∙ remove_last e.malloc (w.resources.live 0) fresh,
      closed.resources.live,
      closed.calls
          ∙ ap (λ f. w₁.calls ++ closing f p) opened.file
          ∙ append-nil w₁.calls
          ∙ opened.calls,
    )

-- A session uses the model's resource. Then `vaccel_tf_model_destroy` answers OK and frees the
-- resource, though the resource is not destroyed: it stays where it was in the lists of live
-- resources, and the model keeps its address.
pub vaccel_tf_model_destroy-busy :
    (destructor : Ptr) (e : Env) (self : Ptr) (model : Object) (w : World)
    → w.resources.initialized ≡ true
    → model.resource ≢ null
    → has model.resource w.freed ≡ false
    → (w.resources.res model.resource).refcount ≢ 0
    → vaccel_tf_model_destroy destructor e self (some model) w
      ≡ ok (vaccel_ok, some model, free_resource model.resource w)
unfolding vaccel_tf_model_destroy
vaccel_tf_model_destroy-busy destructor e self model w up real allocated busy =
    object_destroy-busy (tf_model destructor) e self model tf_model_destructor w up real allocated
      busy
