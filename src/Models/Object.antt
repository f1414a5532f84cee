-- ===== src/Models/Object.antt =====
-- src/resources/shared_object.c and src/resources/tf_model.c, whose functions differ in a few
-- constants only.
use vaccel_google_test.Common.{
  ℕ, Bool, true, false, ◌||◌, not, Option, none, some, List, [], ◌∷◌, ◌==◌, if◌then◌else◌, has,
}
use vaccel_google_test.Common.Code.{Code, vaccel_ok, vaccel_einval, vaccel_enomem}
use vaccel_google_test.Common.Memory.{Ptr, null, Outcome, ok, fault, ◌>>=◌}
use vaccel_google_test.Resources.{resource_new}
use vaccel_google_test.Files.State.{
  File, Contents, vaccel_file_new, vaccel_file_from_buffer, vaccel_file_persist, vaccel_file_data,
}
use vaccel_google_test.Models.State.{
  Env, World, malloc_resource, free_resource, no_id, text_of, destroy_file_of, create_rundir,
  destroy_with,
}

-- `struct vaccel_shared_object` and `struct vaccel_tf_model`
pub record Object : Type 0 where
  pub resource : Ptr
  pub file : File

-- What the two kinds differ in: the type that is registered, the name of the file, whether the name
-- is randomized, and the destructor's address.
pub record Kind : Type 0 where
  pub type : ℕ
  pub filename : List ℕ
  pub randomize : Bool
  pub destructor : Ptr

-- `VACCEL_RES_SHARED_OBJ` and "lib.so", `VACCEL_RES_TF_MODEL` and "model.pb"
abbrev pub shared_object : (destructor : Ptr) → Kind
shared_object destructor = record {
  type = 3;
  filename = b'l' ∷ b'i' ∷ b'b' ∷ b'.' ∷ b's' ∷ b'o' ∷ [];
  randomize = true;
  destructor = destructor;
}

abbrev pub tf_model : (destructor : Ptr) → Kind
tf_model destructor = record {
  type = 0;
  filename = b'm' ∷ b'o' ∷ b'd' ∷ b'e' ∷ b'l' ∷ b'.' ∷ b'p' ∷ b'b' ∷ [];
  randomize = false;
  destructor = destructor;
}

-- A result of `Option File`; the functions of file.c keep the structure they get.
abbrev file_or : File → Option File → File
file_or f none = f
file_or f (some g) = g

unfoldable pub shared_object_destructor : Object → World → Outcome (Object × World)
shared_object_destructor object w =
    destroy_file_of object.file w >>= λ (f, w'). ok (record object { file = f }, w')

unfoldable pub tf_model_destructor : Object → World → Outcome (Object × World)
tf_model_destructor model w =
    destroy_file_of model.file w >>= λ (f, w'). ok (record model { file = f }, w')

-- `self` is the address of the object.
unfoldable pub object_new :
    Kind
    → Env
    → (self : Ptr) → Object
    → (path : Option (List ℕ)) → World
    → Outcome (Code × Object × World)
object_new k e self object path w =
    let (ret, opened) = vaccel_file_new e.os (some object.file) path in
    let object' = record object { file = file_or object.file opened } in
    let w' = malloc_resource e.malloc w in
    if e.malloc == null
    then ok (vaccel_enomem, object, w)
    else if not (ret == vaccel_ok)
    then ok (ret, object', free_resource e.malloc w')
    else (resource_new e.virtio e.malloc k.type self k.destructor w.resources >>= λ (ret', s).
        let w'' = record w' { resources = s } in
        if not (ret' == vaccel_ok)
        then (destroy_file_of object'.file w'' >>= λ (f, w3).
            ok (ret', record object' { file = f }, free_resource e.malloc w3))
        else ok (vaccel_ok, record object' { resource = e.malloc }, w''))

-- The labels `destroy_resource`, `destroy_file` and `free_resource`.
unfoldable pub undo :
    (Object → World → Outcome (Object × World))
    → Kind
    → Env
    → (self : Ptr) (ret : Code) → Object
    → World
    → Outcome (Code × Object × World)
undo destructor k e self ret object w =
    destroy_with k.destructor self destructor e e.malloc object w >>= λ (_, object', w').
    destroy_file_of object'.file w' >>= λ (f, w'').
    ok (ret, record object' { file = f }, free_resource e.malloc w'')

-- The part of `new_from_buffer` behind `resource_new`.
unfoldable pub persist_in_rundir :
    (Object → World → Outcome (Object × World))
    → Kind
    → Env
    → (self : Ptr) → Object
    → World
    → Outcome (Code × Object × World)
persist_in_rundir destructor k e self object w =
    let (ret, w') = create_rundir e e.malloc w in
    let dir = text_of (w'.resources.res e.malloc).rundir in
    let (ret', f, calls) =
      vaccel_file_persist e.os object.file dir (some k.filename) k.randomize w'.calls in
    let object' = record object { file = f } in
    let w'' = record w' { calls = calls } in
    if not (ret == vaccel_ok)
    then undo destructor k e self ret object w'
    else if not (ret' == vaccel_ok)
    then undo destructor k e self ret' object' w''
    else ok (vaccel_ok, record object' { resource = e.malloc }, w'')

unfoldable pub object_from_buffer :
    (Object → World → Outcome (Object × World))
    → Kind
    → Env
    → (self : Ptr) (object : Option Object) (buff : Ptr) (size : ℕ) → World
    → Outcome (Code × Option Object × World)
object_from_buffer destructor k e self none buff size w = ok (vaccel_einval, none, w)
object_from_buffer destructor k e self (some object) buff size w =
    let (ret, filled, calls) =
      vaccel_file_from_buffer e.os (some object.file) buff size none false [] false w.calls in
    let object' = record object { file = file_or object.file filled } in
    let w' = record (malloc_resource e.malloc w) { calls = calls } in
    if (buff == null) || (size == 0)
    then ok (vaccel_einval, some object, w)
    else if e.malloc == null
    then ok (vaccel_enomem, some object, w)
    else if not (ret == vaccel_ok)
    then ok (ret, some object', free_resource e.malloc w')
    else (resource_new e.virtio e.malloc k.type self k.destructor w'.resources >>= λ (ret', s).
        let w'' = record w' { resources = s } in
        if not (ret' == vaccel_ok)
        then (destroy_file_of object'.file w'' >>= λ (f, w3).
            ok (ret', some (record object' { file = f }), free_resource e.malloc w3))
        else (persist_in_rundir destructor k e self object' w'' >>= λ (ret'', object'', w3).
            ok (ret'', some object'', w3)))

-- The resource is freed whatever `resource_destroy` answers. Its id is printed first: that the
-- object has no resource, or one that was freed, is a fault.
unfoldable pub object_destroy :
    (Object → World → Outcome (Object × World))
    → Kind
    → Env
    → (self : Ptr) → Option Object
    → World
    → Outcome (Code × Option Object × World)
object_destroy destructor k e self none w = ok (vaccel_einval, none, w)
object_destroy destructor k e self (some object) w =
    if (object.resource == null) || has object.resource w.freed
    then fault
    else (destroy_with k.destructor self destructor e object.resource object w
        >>= λ (_, object', w'). ok (vaccel_ok, some object', free_resource object.resource w'))

unfoldable pub object_get_id : Option Object → World → Outcome ℕ
object_get_id none w = ok no_id
object_get_id (some object) w =
    if object.resource == null
    then ok no_id
    else if has object.resource w.freed
    then fault
    else ok (w.resources.res object.resource).id

module _ (destructor : Ptr) where
  unfoldable pub vaccel_shared_object_new :
      Env
      → (self : Ptr) → Object
      → (path : Option (List ℕ)) → World
      → Outcome (Code × Object × World)
  vaccel_shared_object_new = object_new (shared_object destructor)

  unfoldable pub vaccel_shared_object_new_from_buffer :
      Env
      → (self : Ptr) → Option Object
      → (buff : Ptr) (size : ℕ) → World
      → Outcome (Code × Option Object × World)
  vaccel_shared_object_new_from_buffer =
      object_from_buffer shared_object_destructor (shared_object destructor)

  unfoldable pub vaccel_shared_object_destroy :
      Env → (self : Ptr) → Option Object → World → Outcome (Code × Option Object × World)
  vaccel_shared_object_destroy = object_destroy shared_object_destructor (shared_object destructor)

  unfoldable pub vaccel_tf_model_new :
      Env
      → (self : Ptr) → Object
      → (path : Option (List ℕ)) → World
      → Outcome (Code × Object × World)
  vaccel_tf_model_new = object_new (tf_model destructor)

  unfoldable pub vaccel_tf_model_new_from_buffer :
      Env
      → (self : Ptr) → Option Object
      → (buff : Ptr) (size : ℕ) → World
      → Outcome (Code × Option Object × World)
  vaccel_tf_model_new_from_buffer = object_from_buffer tf_model_destructor (tf_model destructor)

  unfoldable pub vaccel_tf_model_destroy :
      Env → (self : Ptr) → Option Object → World → Outcome (Code × Option Object × World)
  vaccel_tf_model_destroy = object_destroy tf_model_destructor (tf_model destructor)

unfoldable pub vaccel_shared_object_get_id : Option Object → World → Outcome ℕ
vaccel_shared_object_get_id = object_get_id

unfoldable pub vaccel_tf_model_get_id : Option Object → World → Outcome ℕ
vaccel_tf_model_get_id = object_get_id

unfoldable pub vaccel_shared_object_get :
    Env → Option Object → World → Outcome (Contents × Option Object × World)
vaccel_shared_object_get e none w = ok (none, none, w)
vaccel_shared_object_get e (some object) w =
    vaccel_file_data e.os (some object.file) w.calls >>= λ (contents, f, calls).
    ok (contents, some (record object { file = file_or object.file f }), record w { calls = calls })
