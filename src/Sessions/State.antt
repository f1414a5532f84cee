-- ===== src/Sessions/State.antt =====
-- The state of src/session.c and its functions.
use vaccel_google_test.Common.{
  ℕ, zero, suc, ◌+◌, ◌-◌, ◌%◌, ◌^◌, Bool, true, false, ◌||◌, not, Option, none, some, List, [], ◌∷◌,
  ◌++◌, ltb, leb, ◌==◌, if◌then◌else◌, has, length, take,
}
use vaccel_google_test.Common.Code.{
  Code, vaccel_ok, vaccel_einval, vaccel_enomem, vaccel_esess, vaccel_enametoolong,
}
use vaccel_google_test.Common.Memory.{Ptr, null, update, Outcome, ok, fault, ◌>>=◌}
use vaccel_google_test.IdPool.{IdPool, id_pool_new, id_pool_get, id_pool_release, id_pool_destroy}
use vaccel_google_test.Resources.{
  ResourceState, res_max, resource_refcount_inc, resource_refcount_dec,
}

-- `MAX_VACCEL_SESSIONS` and `MAX_SESSION_RUNDIR_PATH`
abbrev pub max_sessions : ℕ
max_sessions = 1024

abbrev pub max_session_rundir : ℕ
max_session_rundir = 512

-- `struct session_resources`
pub record SessionResources : Type 0 where
  pub rundir : List ℕ
  pub registered : ℕ → List Ptr

-- `struct vaccel_session`; `resources` is `none` for NULL.
pub record Session : Type 0 where
  pub session_id : ℕ
  pub resources : Option SessionResources
  pub hint : ℕ

-- `sessions`, the memory of the sessions, and the state of resources.c. `made` holds the
-- directories that `mkdir` made, `removed` those that `cleanup_rundir` was called for.
pub record Sessions : Type 0 where
  pub initialized : Bool
  pub ids : IdPool
  pub running : ℕ → Ptr
  pub sess : Ptr → Session
  pub resources : ResourceState
  pub made : List (List ℕ)
  pub removed : List (List ℕ)

-- The part of a VirtIO plugin's info that session.c calls. The first two may write to the session.
pub record HostSessions : Type 0 where
  pub sess_init : Session → (flags : ℕ) → Code × Session
  pub sess_update : Session → (flags : ℕ) → Code × Session
  pub sess_free : Session → Code
  pub sess_register : (sess_id resource_id : ℕ) → Code
  pub sess_unregister : (sess_id resource_id : ℕ) → Code

-- `*sess = v`
abbrev pub write_sess : Ptr → Session → Sessions → Sessions
write_sess p v s = record s { sess = update s.sess p v }

unfoldable pub sessions_bootstrap : (calloc_ok : Bool) → Sessions → Code × Sessions
sessions_bootstrap calloc_ok s =
    let (ret, ids) = id_pool_new max_sessions calloc_ok s.ids in
    if not (ret == vaccel_ok) then (ret, record s { ids = ids }) else (
      vaccel_ok,
      record s {
        ids = ids;
        running = λ i. if ltb i max_sessions then null else s.running i;
        initialized = true;
      },
    )

unfoldable pub sessions_cleanup : Sessions → Code × Sessions
sessions_cleanup s = (vaccel_ok, record s { ids = (id_pool_destroy s.ids).1; initialized = false })

-- The list of the resource's type, with one more or one less container.
abbrev pub with_registered : SessionResources → (type : ℕ) → List Ptr → SessionResources
with_registered r type l = record r { registered = update r.registered type l }

-- What `vaccel_sess_register` does once its checks are passed.
unfoldable pub attach : (sess res : Ptr) → SessionResources → Sessions → Sessions
attach sess res r s =
    let type = (s.resources.res res).type in
    record (write_sess sess
      (record (s.sess sess) {
        resources = some (with_registered r type (r.registered type ++ res ∷ []));
      })
      s) { resources = resource_refcount_inc res s.resources }

-- The host is told of the registration, if there is one.
abbrev pub host_register : Option HostSessions → (sess_id res_id : ℕ) → Code
host_register none sess_id res_id = vaccel_ok
host_register (some h) sess_id res_id = h.sess_register sess_id res_id

unfoldable pub vaccel_sess_register :
    (virtio : Option HostSessions) (malloc_ok : Bool)
    → (sess res : Ptr) → Sessions
    → Code × Sessions
vaccel_sess_register virtio malloc_ok sess res s =
    if sess == null then (vaccel_einval, s) else elim (s.sess sess).resources [
      | none ↦ (vaccel_einval, s)
      | some r ↦
          let told = host_register virtio (s.sess sess).session_id (s.resources.res res).id in
          if (res == null) || leb res_max (s.resources.res res).type
          then (vaccel_einval, s)
          else if not malloc_ok
          then (vaccel_enomem, s)
          else if not (told == vaccel_ok)
          then (told, s)
          else (vaccel_ok, attach sess res r s)
    ]

-- Reading the lists of a session with no `resources` is an access through NULL.
unfoldable pub find_registered_resource : (sess res : Ptr) → Sessions → Outcome Bool
find_registered_resource sess res s = elim (s.sess sess).resources [
  | none ↦ fault
  | some r ↦ ok (has res (r.registered (s.resources.res res).type))
]

-- The list without the first container of the resource.
abbrev pub remove_first : Ptr → List Ptr → List Ptr
remove_first res [] = []
remove_first res (r ∷ rs) = if r == res then rs else r ∷ remove_first res rs

unfoldable pub detach : (sess res : Ptr) → SessionResources → Sessions → Sessions
detach sess res r s =
    let type = (s.resources.res res).type in
    record (write_sess sess
      (record (s.sess sess) {
        resources = some (with_registered r type (remove_first res (r.registered type)));
      })
      s) { resources = resource_refcount_dec res s.resources }

-- The host's answer is only logged.
unfoldable pub vaccel_sess_unregister : (sess res : Ptr) → Sessions → Outcome (Code × Sessions)
vaccel_sess_unregister sess res s =
    if (sess == null) || ((res == null) || leb res_max (s.resources.res res).type)
    then ok (vaccel_einval, s)
    else elim (s.sess sess).resources [
      | none ↦ fault
      | some r ↦
          if has res (r.registered (s.resources.res res).type)
          then ok (vaccel_ok, detach sess res r s)
          else ok (vaccel_einval, s)
    ]

unfoldable pub vaccel_sess_has_resource : (sess res : Ptr) → Sessions → Outcome Bool
vaccel_sess_has_resource sess res s = find_registered_resource sess res s

-- "/session."
abbrev pub session_infix : List ℕ
session_infix = b'/' ∷ b's' ∷ b'e' ∷ b's' ∷ b's' ∷ b'i' ∷ b'o' ∷ b'n' ∷ b'.' ∷ []

-- What the answers of `malloc`, `vaccel_rundir`, the decimal printer of `snprintf` and `mkdir` are
-- during one call.
pub record Os : Type 0 where
  pub malloc_ok : Bool
  pub root_rundir : List ℕ
  pub print_id : ℕ → List ℕ
  pub mkdir_ok : List ℕ → Bool

-- `mkdir` returns -1 where it fails, and this is passed on.
unfoldable pub initialize_session_resources : Os → Ptr → Sessions → Code × Sessions
initialize_session_resources os sess s =
    let text = os.root_rundir ++ (session_infix ++ os.print_id (s.sess sess).session_id) in
    let rundir = take (max_session_rundir - 1) text in
    if sess == null
    then (vaccel_einval, s)
    else if not os.malloc_ok
    then (vaccel_enomem, s)
    else if length text == max_session_rundir
    then (vaccel_enametoolong, s)
    else if not (os.mkdir_ok rundir)
    then (2 ^ 32 - 1, s)
    else (
      vaccel_ok,
      write_sess sess
          (record (s.sess sess) {
            resources = some (record { rundir = rundir; registered = λ _. [] });
          })
          (record s { made = s.made ++ rundir ∷ [] }),
    )

-- The id of a new session: the host fills the session in, or the pool gives the id.
unfoldable pub obtain_session :
    Option HostSessions → (sess : Ptr) (flags : ℕ) → Sessions → Outcome (Code × Sessions)
obtain_session (some h) sess flags s =
    let (ret, v) = h.sess_init (s.sess sess) flags in ok (ret, write_sess sess v s)
obtain_session none sess flags s = id_pool_get s.ids >>= λ (id, ids).
    let s' = record s { ids = ids } in
    let sess_id = id % 2 ^ 32 in
    if sess_id == 0
    then ok (vaccel_esess, s')
    else ok (vaccel_ok, write_sess sess (record (s.sess sess) { session_id = sess_id }) s')

-- The host's answer is only logged; the pool takes the id back.
unfoldable pub return_session : Option HostSessions → (sess_id : ℕ) → Sessions → Outcome Sessions
return_session (some h) sess_id s = ok s
return_session none sess_id s = id_pool_release sess_id s.ids >>= λ ids. ok (record s { ids = ids })

-- `sessions.running_sessions[sess_id - 1] = value`
unfoldable pub set_running : (sess_id : ℕ) (value : Ptr) → Sessions → Outcome Sessions
set_running sess_id value s =
    let i = (sess_id + (2 ^ 32 - 1)) % 2 ^ 32 in
    if leb max_sessions i then fault else ok (record s { running = update s.running i value })

unfoldable pub vaccel_sess_init :
    Option HostSessions → Os → (sess : Ptr) (flags : ℕ) → Sessions → Outcome (Code × Sessions)
vaccel_sess_init virtio os sess flags s =
    if sess == null
    then ok (vaccel_einval, s)
    else if not s.initialized
    then ok (vaccel_esess, s)
    else (obtain_session virtio sess flags s >>= λ (ret, s').
        if not (ret == vaccel_ok)
        then ok (ret, s')
        else let (made, t) = initialize_session_resources os sess s' in
          if not (made == vaccel_ok)
          then (return_session virtio (t.sess sess).session_id t >>= λ u. ok (made, u))
          else (set_running (t.sess sess).session_id sess
                (write_sess sess (record (t.sess sess) { hint = flags }) t)
              >>= λ u. ok (vaccel_ok, u)))

-- A failure of the host is only logged.
unfoldable pub vaccel_sess_update :
    Option HostSessions → (sess : Ptr) (flags : ℕ) → Sessions → Code × Sessions
vaccel_sess_update virtio sess flags s =
    if sess == null
    then (vaccel_einval, s)
    else if not s.initialized
    then (vaccel_esess, s)
    else elim virtio [
      | none ↦ (vaccel_ok, write_sess sess (record (s.sess sess) { hint = flags }) s)
      | some h ↦ (vaccel_ok, write_sess sess (h.sess_update (s.sess sess) flags).1 s)
    ]

-- The safe loops of `cleanup_session_resources`: a failing call is only logged.
unfoldable pub unregister_list : Ptr → List Ptr → Sessions → Outcome Sessions
unregister_list sess [] s = ok s
unregister_list sess (res ∷ rest) s =
    vaccel_sess_unregister sess res s >>= λ (_, s'). unregister_list sess rest s'

unfoldable pub unregister_from : (k type : ℕ) → Ptr → Sessions → Outcome Sessions
unregister_from zero type sess s = ok s
unregister_from (suc k) type sess s = elim (s.sess sess).resources [
  | none ↦ fault
  | some r ↦
      unregister_list sess (r.registered type) s >>= λ s'. unregister_from k (type + 1) sess s'
]

-- The directory is removed, if `rmdir` can, and the session has no resources any more.
unfoldable pub drop_resources : Ptr → SessionResources → Sessions → Sessions
drop_resources sess r s = record (write_sess sess (record (s.sess sess) { resources = none }) s) {
  removed = s.removed ++ r.rundir ∷ [];
}

unfoldable pub cleanup_session_resources : Ptr → Sessions → Outcome (Code × Sessions)
cleanup_session_resources sess s =
    if sess == null then ok (vaccel_einval, s) else elim (s.sess sess).resources [
      | none ↦ ok (vaccel_einval, s)
      | some r ↦ unregister_from res_max 0 sess s >>= λ s'. ok (vaccel_ok, drop_resources sess r s')
    ]

unfoldable pub vaccel_sess_free :
    Option HostSessions → (sess : Ptr) → Sessions → Outcome (Code × Sessions)
vaccel_sess_free virtio sess s =
    if sess == null
    then ok (vaccel_einval, s)
    else if not s.initialized
    then ok (vaccel_esess, s)
    else (return_session virtio (s.sess sess).session_id s >>= λ s'.
        cleanup_session_resources sess s' >>= λ (_, t).
        set_running (t.sess sess).session_id null t >>= λ u. ok (vaccel_ok, u))
