-- ===== src/Library/State.antt =====
-- The functions of src/vaccel.c. The dynamic linker, the environment and the file system answer
-- through arguments; log messages are left out.
use vaccel_google_test.Common.{
  ℕ, ◌-◌, Bool, ◌&&◌, not, Option, none, some, List, [], ◌∷◌, ◌++◌, ◌==◌, if◌then◌else◌, length,
  take,
}
use vaccel_google_test.Common.Code.{
  Code, vaccel_ok, vaccel_enoent, vaccel_enomem, vaccel_enametoolong, vaccel_elibbad,
}
use vaccel_google_test.Common.Memory.{Ptr, null, update, Outcome, ok, ◌>>=◌}
use vaccel_google_test.Plugins.{
  dlclose, PluginState, register_plugin, get_virtio_plugin, plugins_bootstrap, plugins_shutdown,
}
use vaccel_google_test.Resources.{Host, resources_bootstrap, resources_cleanup}
use vaccel_google_test.Sessions.{Sessions, sessions_bootstrap, sessions_cleanup}
use vaccel_google_test.Files.State.{FileCall, made_dir, removed_dir, FileOs, dir_exists}

-- The static state of the library: the plugins, the sessions with the resources, `rundir`, and the
-- calls of the system for directories so far.
pub record Library : Type 0 where
  pub plugins : PluginState
  pub sessions : Sessions
  pub rundir : List ℕ
  pub calls : List FileCall

-- The dynamic linker, and the plugins' functions `init`: the handle of a library, the value of its
-- symbol "vaccel_plugin", and what `init` answers and does to the state of plugin.c.
pub record Linker : Type 0 where
  pub dlopen : (path : List ℕ) → Ptr
  pub dlsym : (dl : Ptr) → Option Ptr
  pub init : (plugin : Ptr) → PluginState → Code × PluginState

-- The answers of the system while the library starts. `mkdtemp` gives its error number, or 0, and
-- the name that it made of the template.
pub record Start : Type 0 where
  pub os : FileOs
  pub uid : List ℕ
  pub mkdir : List ℕ → Code
  pub mkdtemp : List ℕ → Code × List ℕ
  pub sessions_calloc_ok : Bool
  pub resources_calloc_ok : Bool
  pub backends : Option (List ℕ)
  pub strdup_ok : Bool

-- The label `close_dl`.
abbrev pub close_dl : (dl : Ptr) → PluginState → PluginState
close_dl dl s = record s { calls = s.calls ++ dlclose dl ∷ [] }

unfoldable pub load_backend_plugin :
    Linker → (path : List ℕ) → PluginState → Outcome (Code × PluginState)
load_backend_plugin l path s =
    let dl = l.dlopen path in
    if dl == null then ok (vaccel_enoent, s) else elim (l.dlsym dl) [
      | none ↦ ok (vaccel_elibbad, close_dl dl s)
      | some plugin ↦ register_plugin plugin s >>= λ (ret, s₁).
          let (ret', s₂) = l.init plugin s₁ in
          if not (ret == vaccel_ok)
          then ok (ret, close_dl dl s₁)
          else if not (ret' == vaccel_ok)
          then ok (ret', close_dl dl s₂)
          else ok (
            vaccel_ok,
            record s₂ {
              plugin = update s₂.plugin plugin (record (s₂.plugin plugin) { dl_handle = dl });
            },
          )
    ]

-- A character in front of the first token.
abbrev cons_first : ℕ → List (List ℕ) → List (List ℕ)
cons_first c [] = (c ∷ []) ∷ []
cons_first c (t ∷ ts) = (c ∷ t) ∷ ts

-- The pieces of a string between the colons, of which some can be empty.
unfoldable pub pieces : List ℕ → List (List ℕ)
pieces [] = [] ∷ []
pieces (c ∷ cs) = let rest = pieces cs in if c == b':' then [] ∷ rest else cons_first c rest

abbrev without_empty : List (List ℕ) → List (List ℕ)
without_empty [] = []
without_empty ([] ∷ ts) = without_empty ts
without_empty ((c ∷ t) ∷ ts) = (c ∷ t) ∷ without_empty ts

-- What the calls of `strtok` with ":" give: the pieces that are not empty.
abbrev pub tokens : List ℕ → List (List ℕ)
unfolding pieces
tokens plugins = without_empty (pieces plugins)

-- The first failure ends the loop.
unfoldable pub load_each : Linker → List (List ℕ) → PluginState → Outcome (Code × PluginState)
load_each l [] s = ok (vaccel_ok, s)
load_each l (path ∷ paths) s = load_backend_plugin l path s >>= λ (ret, s').
    if not (ret == vaccel_ok) then ok (ret, s') else load_each l paths s'

unfoldable pub load_backend_plugins :
    Linker → (strdup_ok : Bool) (plugins : List ℕ) → PluginState → Outcome (Code × PluginState)
load_backend_plugins l strdup_ok plugins s =
    if not strdup_ok then ok (vaccel_enomem, s) else load_each l (tokens plugins) s

-- `MAX_RUNDIR_PATH`
abbrev pub max_rundir_path : ℕ
max_rundir_path = 1024

-- "/run/user"
abbrev pub run_user : List ℕ
run_user = b'/' ∷ b'r' ∷ b'u' ∷ b'n' ∷ b'/' ∷ b'u' ∷ b's' ∷ b'e' ∷ b'r' ∷ []

-- "/run/user/%u" and, behind it, "/vaccel.XXXXXX"
abbrev pub user_dir : (uid : List ℕ) → List ℕ
user_dir uid = run_user ++ (b'/' ∷ uid)

abbrev pub rundir_template : (uid : List ℕ) → List ℕ
rundir_template uid =
    user_dir uid
    ++ (b'/' ∷ b'v' ∷ b'a' ∷ b'c' ∷ b'c' ∷ b'e' ∷ b'l' ∷ b'.' ∷ b'X' ∷ b'X' ∷ b'X' ∷ b'X' ∷ b'X'
        ∷ b'X' ∷ [])

-- What `snprintf` leaves in `rundir`.
abbrev pub fit : List ℕ → List ℕ
fit text = take (max_rundir_path - 1) text

-- The directory of the user, made where it is missing; "/run/user" first.
unfoldable pub make_user_dir : Start → List FileCall → Code × List FileCall
make_user_dir e calls =
    let dir = fit (user_dir e.uid) in
    let calls' = if dir_exists e.os run_user then calls else calls ++ made_dir run_user ∷ [] in
    if dir_exists e.os dir
    then (vaccel_ok, calls)
    else if not (dir_exists e.os run_user) && not (e.mkdir run_user == vaccel_ok)
    then (vaccel_enoent, calls)
    else if not (e.mkdir dir == vaccel_ok)
    then (vaccel_enoent, calls')
    else (vaccel_ok, calls' ++ made_dir dir ∷ [])

unfoldable pub create_vaccel_rundir : Start → Library → Code × Library
create_vaccel_rundir e s =
    let (ret, calls) = make_user_dir e s.calls in
    let template = fit (rundir_template e.uid) in
    let (err, dir) = e.mkdtemp template in
    if length (user_dir e.uid) == max_rundir_path
    then (vaccel_enametoolong, record s { rundir = fit (user_dir e.uid) })
    else if not (ret == vaccel_ok)
    then (ret, record s { rundir = fit (user_dir e.uid); calls = calls })
    else if length (rundir_template e.uid) == max_rundir_path
    then (vaccel_enametoolong, record s { rundir = template; calls = calls })
    else if not (err == vaccel_ok)
    then (err, record s { rundir = template; calls = calls })
    else (vaccel_ok, record s { rundir = dir; calls = calls ++ made_dir dir ∷ [] })

-- That the directory cannot be removed is only logged.
unfoldable pub cleanup_vaccel_rundir : FileOs → Library → Code × Library
cleanup_vaccel_rundir os s =
    if os.rmdir s.rundir == vaccel_ok
    then (vaccel_ok, record s { calls = s.calls ++ removed_dir s.rundir ∷ [] })
    else (vaccel_ok, s)

unfoldable pub vaccel_rundir : Library → List ℕ
vaccel_rundir s = s.rundir

-- The library is there, or the process has ended with a code.
pub data Started : Type 0 where
  started : Library → Started
  exited : Code → Library → Started

-- What `load_backend_plugins` answers is not looked at.
unfoldable pub load_from_environment : Linker → Start → Library → Outcome Started
load_from_environment l e s = elim e.backends [
  | none ↦ ok (started s)
  | some plugins ↦ load_backend_plugins l e.strdup_ok plugins s.plugins >>= λ (_, plugins').
      ok (started (record s { plugins = plugins' }))
]

-- The part of `vaccel_init` behind the directory.
unfoldable pub boot :
    (sessions_calloc_ok resources_calloc_ok : Bool) → Linker → Start → Library → Outcome Started
boot sessions_calloc_ok resources_calloc_ok l e s =
    let (ret, sessions) = sessions_bootstrap sessions_calloc_ok s.sessions in
    let (ret', resources) = resources_bootstrap resources_calloc_ok sessions.resources in
    let s₁ = record s { sessions = sessions } in
    let s₂ = record s { sessions = record sessions { resources = resources } } in
    if not (ret == vaccel_ok)
    then ok (exited ret s₁)
    else if not (ret' == vaccel_ok)
    then ok (exited ret' s₂)
    else load_from_environment l e (record s₂ { plugins = (plugins_bootstrap s₂.plugins).1 })

unfoldable pub vaccel_init : Linker → Start → Library → Outcome Started
vaccel_init l e s =
    let (ret, s') = create_vaccel_rundir e s in
    if not (ret == vaccel_ok)
    then ok (exited ret s')
    else boot e.sessions_calloc_ok e.resources_calloc_ok l e s'

-- The functions for resources of the VirtIO plugin, if there is one.
abbrev pub host_of : (hosts : Ptr → Host) → PluginState → Option Host
host_of hosts s = if get_virtio_plugin s == null then none else some (hosts (get_virtio_plugin s))

unfoldable pub vaccel_fini : FileOs → (hosts : Ptr → Host) → Library → Outcome Library
unfolding get_virtio_plugin
vaccel_fini os hosts s =
    let plugins = (plugins_shutdown s.plugins).1 in
    resources_cleanup (host_of hosts plugins) s.sessions.resources >>= λ (_, resources).
    let sessions = (sessions_cleanup (record s.sessions { resources = resources })).1 in
    ok (cleanup_vaccel_rundir os (record s { plugins = plugins; sessions = sessions })).1
