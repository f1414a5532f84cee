-- ===== src/Resources/State.antt =====
-- The state of src/resources.c and its functions.
use vaccel_google_test.Common.{
  ℕ, zero, suc, ◌+◌, ◌-◌, ◌%◌, ◌^◌, Bool, true, ◌||◌, not, Option, none, some, List, [], ◌∷◌, ◌++◌,
  ltb, leb, ◌==◌, if◌then◌else◌, length, take, remove,
}
use vaccel_google_test.Common.Code.{
  Code, vaccel_ok, vaccel_einval, vaccel_eperm, vaccel_eusers, vaccel_ebusy, vaccel_enomem,
  vaccel_enametoolong,
}
use vaccel_google_test.Common.Memory.{Ptr, null, update, Outcome, ok, ◌>>=◌}
use vaccel_google_test.IdPool.{
  IdPool, is_negative_id, id_pool_new, id_pool_get, id_pool_release, id_pool_destroy,
}

-- `VACCEL_RES_MAX` and `MAX_RESOURCES`
abbrev pub res_max : ℕ
res_max = 6

abbrev pub max_resources : ℕ
max_resources = 2048

-- `struct vaccel_resource`; the list entry is represented by the lists of live resources.
pub record Resource : Type 0 where
  pub id : ℕ
  pub type : ℕ
  pub data_ptr : Ptr
  pub cleanup_resource : Ptr
  pub refcount : ℕ
  pub rundir : Option (List ℕ)

-- The static variables of resources.c and the memory of the resources. `cleaned` holds the calls
-- of destructors so far (the destructor and its argument), `removed` the directories that
-- `cleanup_rundir` was called for.
pub record ResourceState : Type 0 where
  pub initialized : Bool
  pub pool : IdPool
  pub live : ℕ → List Ptr
  pub res : Ptr → Resource
  pub cleaned : List (Ptr × Ptr)
  pub removed : List (List ℕ)

-- The part of a VirtIO plugin's info that resources.c calls. `resource_new` returns its code and,
-- on success, the id that it stored.
pub record Host : Type 0 where
  pub resource_new : (type : ℕ) → (data_ptr : Ptr) → Code × ℕ
  pub resource_destroy : (id : ℕ) → Code

unfoldable pub resources_bootstrap : (calloc_ok : Bool) → ResourceState → Code × ResourceState
resources_bootstrap calloc_ok s =
    let (ret, pool) = id_pool_new max_resources calloc_ok s.pool in
    if not (ret == vaccel_ok) then (ret, record s { pool = pool }) else (
      vaccel_ok,
      record s {
        pool = pool;
        live = λ t. if ltb t res_max then [] else s.live t;
        initialized = true;
      },
    )

-- `res->id <= 0` for a signed 64-bit id.
abbrev pub is_bad_id : ℕ → Bool
is_bad_id id = (id == 0) || is_negative_id id

-- The id of a new resource: from the host, or from the pool.
unfoldable pub obtain_id :
    Option Host → (type : ℕ) (data_ptr : Ptr) (old : ℕ) → IdPool → Outcome (Code × ℕ × IdPool)
obtain_id (some h) type data_ptr old pool =
    let (err, id) = h.resource_new type data_ptr in
    if err == vaccel_ok then ok (vaccel_ok, id, pool) else ok (err, old, pool)
obtain_id none type data_ptr old pool =
    id_pool_get pool >>= λ (id, pool'). ok (vaccel_ok, id, pool')

-- What `resource_new` does once it has a good id. The entry goes to the first list, whatever the
-- type.
unfoldable pub enlist :
    (res : Ptr) (type : ℕ) (data_ptr cleanup_resource : Ptr) → ResourceState → ResourceState
enlist res type data_ptr cleanup_resource s = record s {
  res = update s.res res (record {
    id = (s.res res).id;
    type = type;
    data_ptr = data_ptr;
    cleanup_resource = cleanup_resource;
    refcount = 0;
    rundir = none;
  });
  live = update s.live 0 (s.live 0 ++ res ∷ []);
}

unfoldable pub resource_new :
    Option Host
    → (res : Ptr) (type : ℕ) (data_ptr cleanup_resource : Ptr) → ResourceState
    → Outcome (Code × ResourceState)
resource_new virtio res type data_ptr cleanup_resource s =
    if not s.initialized
    then ok (vaccel_eperm, s)
    else if (res == null) || leb res_max type
    then ok (vaccel_einval, s)
    else (obtain_id virtio type data_ptr (s.res res).id s.pool >>= λ (err, id, pool).
        let s' = record s {
          pool = pool;
          res = update s.res res (record (s.res res) { id = id });
        } in
        if not (err == vaccel_ok)
        then ok (err, s')
        else if is_bad_id id
        then ok (vaccel_eusers, s')
        else ok (vaccel_ok, enlist res type data_ptr cleanup_resource s'))

-- The first resource of a list with the id.
unfoldable pub find_id : (id : ℕ) → List Ptr → ResourceState → Option Ptr
find_id id [] s = none
find_id id (res ∷ rest) s = if id == (s.res res).id then some res else find_id id rest s

-- The lists from `n - k` on, `k` of them.
unfoldable pub find_from : (k type id : ℕ) → ResourceState → Option Ptr
find_from zero type id s = none
find_from (suc k) type id s =
    let later = find_from k (type + 1) id s in
    elim (find_id id (s.live type) s) [ some res ↦ some res | none ↦ later ]

-- The code and the value of `*resource` afterwards. `old` is its value before the call.
unfoldable pub resource_get_by_id : (old : Ptr) (id : ℕ) → ResourceState → Code × Ptr
resource_get_by_id old id s =
    if not s.initialized then (vaccel_eperm, old) else elim (find_from res_max 0 id s) [
      | some res ↦ (vaccel_ok, res)
      | none ↦ if not (old == null) then (vaccel_ok, old) else (vaccel_einval, old)
    ]

-- The id goes back to the host, whose answer is only logged, or to the pool.
unfoldable pub return_id : Option Host → (id : ℕ) → IdPool → Outcome IdPool
return_id (some h) id pool = ok pool
return_id none id pool = if id == 0 then ok pool else id_pool_release id pool

-- The entry leaves whatever list holds it, and the type-specific destructor and the directory are
-- dealt with.
unfoldable pub delist : Ptr → ResourceState → ResourceState
delist res s = record s {
  live = λ t. remove res (s.live t);
  cleaned =
      if (s.res res).cleanup_resource == null
      then s.cleaned
      else s.cleaned ++ ((s.res res).cleanup_resource, (s.res res).data_ptr) ∷ [];
  removed = elim (s.res res).rundir [ none ↦ s.removed | some dir ↦ s.removed ++ dir ∷ [] ];
}

unfoldable pub resource_destroy : Option Host → Ptr → ResourceState → Outcome (Code × ResourceState)
resource_destroy virtio res s =
    if not s.initialized
    then ok (vaccel_eperm, s)
    else if res == null
    then ok (vaccel_einval, s)
    else if not ((s.res res).refcount == 0)
    then ok (vaccel_ebusy, s)
    else (return_id virtio (s.res res).id s.pool >>= λ pool.
        ok (vaccel_ok, delist res (record s { pool = pool })))

-- The safe loop over one list; the results are not looked at.
unfoldable pub destroy_list : Option Host → List Ptr → ResourceState → Outcome ResourceState
destroy_list virtio [] s = ok s
destroy_list virtio (res ∷ rest) s =
    resource_destroy virtio res s >>= λ (_, s'). destroy_list virtio rest s'

unfoldable pub destroy_from : Option Host → (k type : ℕ) → ResourceState → Outcome ResourceState
destroy_from virtio zero type s = ok s
destroy_from virtio (suc k) type s =
    destroy_list virtio (s.live type) s >>= λ s'. destroy_from virtio k (type + 1) s'

unfoldable pub resources_cleanup : Option Host → ResourceState → Outcome (Code × ResourceState)
resources_cleanup virtio s =
    if not s.initialized
    then ok (vaccel_ok, s)
    else (destroy_from virtio res_max 0 s >>= λ s'.
        let (ret, pool) = id_pool_destroy s'.pool in ok (ret, record s' { pool = pool }))

-- The counters are unsigned 32-bit and wrap; a call with NULL is only logged.
unfoldable pub resource_refcount_inc : Ptr → ResourceState → ResourceState
resource_refcount_inc res s = if res == null then s else record s {
  res = update s.res res (record (s.res res) { refcount = ((s.res res).refcount + 1) % 2 ^ 32 });
}

unfoldable pub resource_refcount_dec : Ptr → ResourceState → ResourceState
resource_refcount_dec res s = if res == null then s else record s {
  res =
      update s.res res
        (record (s.res res) { refcount = ((s.res res).refcount + (2 ^ 32 - 1)) % 2 ^ 32 });
}

-- `MAX_RESOURCE_RUNDIR`
abbrev pub max_resource_rundir : ℕ
max_resource_rundir = 1024

-- "/resource."
abbrev pub rundir_infix : List ℕ
rundir_infix = b'/' ∷ b'r' ∷ b'e' ∷ b's' ∷ b'o' ∷ b'u' ∷ b'r' ∷ b'c' ∷ b'e' ∷ b'.' ∷ []

-- What the format "%s/resource.%lld" gives in full; `print_id` prints an id.
abbrev pub rundir_text : (root : List ℕ) (print_id : ℕ → List ℕ) (id : ℕ) → List ℕ
rundir_text root print_id id = root ++ (rundir_infix ++ print_id id)

-- `snprintf` returns the length of the full text, and the buffer holds as much of it as fits before
-- the final 0. `mkdir` answers with its error number, or 0.
unfoldable pub resource_create_rundir :
    (root : List ℕ) (print_id : ℕ → List ℕ) (mkdir : List ℕ → Code) (strndup_ok : Bool)
    → Ptr
    → ResourceState
    → Code × ResourceState
resource_create_rundir root print_id mkdir strndup_ok res s =
    let text = rundir_text root print_id (s.res res).id in
    let rundir = take (max_resource_rundir - 1) text in
    if res == null
    then (vaccel_einval, s)
    else if length text == max_resource_rundir
    then (vaccel_enametoolong, s)
    else if not (mkdir rundir == vaccel_ok)
    then (mkdir rundir, s)
    else if not strndup_ok
    then (vaccel_enomem, record s { res = update s.res res (record (s.res res) { rundir = none }) })
    else (
      vaccel_ok,
      record s { res = update s.res res (record (s.res res) { rundir = some rundir }) },
    )
