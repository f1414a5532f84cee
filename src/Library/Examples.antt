-- ===== src/Library/Examples.antt =====
-- A library with one plugin, which is VirtIO's, and a system in which every call succeeds.
use vaccel_google_test.Common.{
  ℕ, ◌≡◌, ◌≤◌, refl, arith, true, none, some, List, [], ◌∷◌, ◌==◌, if◌then◌else◌, has,
}
use vaccel_google_test.Common.Code.{vaccel_ok}
use vaccel_google_test.Common.Memory.{Ptr, update, ok, fault}
use vaccel_google_test.IdPool.{id_pool_new}
use vaccel_google_test.Plugins.{
  PluginInfo, PluginState, register_plugin_functions, add_plugin, plugins_bootstrap,
}
use vaccel_google_test.Plugins.Wellformed.{Wellformed}
use vaccel_google_test.Resources.{Host, ResourceState, resource_new, resources_bootstrap}
use vaccel_google_test.Resources.Live.{IsLive}
use vaccel_google_test.Sessions.{sessions_bootstrap}
use vaccel_google_test.Files.State.{FileOs, made_dir, dir_exists}
use vaccel_google_test.Library.State.{
  Library, Linker, Start, started, make_user_dir, create_vaccel_rundir, load_from_environment, boot,
  vaccel_init, host_of, vaccel_fini,
}
use vaccel_google_test.Library.Start.{IsReset, vaccel_init-IsReset}
use vaccel_google_test.Library.End.{IsFinished, vaccel_fini-IsFinished, vaccel_fini-of_host}

abbrev info : PluginInfo
info = record { name = 100; init = 101; fini = 102; type = 1; sess_init = 103; sess_free = 104 }

abbrev one_plugin : PluginState
one_plugin = record {
  initialized = true;
  plugins = 10 ∷ [];
  virtio = 10;
  ops = λ t. [];
  plugin = λ p. record { dl_handle = 0; ops = []; info = some info };
  op = λ o. record { type = 0; func = 200; owner = 10 };
  calls = [];
}

one_plugin-Wellformed : Wellformed one_plugin
one_plugin-Wellformed = record {
  plugins_once = (refl, tt);
  plugins_real = refl;
  ops_once = λ t. tt;
  typed = λ t o h. ground (arith, h);
  owned = λ p o h. ground (arith, h);
}

abbrev no_resources : ResourceState
no_resources = record {
  initialized = true;
  pool = record { ids = 0 ∷ 0 ∷ 0 ∷ 0 ∷ []; max = 4; next = 0 };
  live = λ t. [];
  res = λ r. record {
    id = 0;
    type = 0;
    data_ptr = 0;
    cleanup_resource = 0;
    refcount = 0;
    rundir = none;
  };
  cleaned = [];
  removed = [];
}

four_bounds : (a : ℕ) → has a (1 ∷ 2 ∷ 3 ∷ 4 ∷ []) ≡ true → (1 ≤ a) × (a ≤ 4)
four_bounds a h = ground arith

no_resources-IsLive : IsLive no_resources
no_resources-IsLive = record {
  initialized = refl;
  first_only = λ t ne. refl;
  real = refl;
  once = tt;
  ids_once = tt;
  serves = record {
    size = refl;
    int = omega arith;
    counted = refl;
    within = omega arith;
    distinct = (refl, (refl, (refl, (refl, tt))));
    bounds = four_bounds;
  };
}

abbrev running : Library
running = record {
  plugins = one_plugin;
  sessions = record {
    initialized = true;
    ids = record { ids = []; max = 0; next = 0 };
    running = λ i. 0;
    sess = λ p. record { session_id = 0; resources = none; hint = 0 };
    resources = no_resources;
    made = [];
    removed = [];
  };
  rundir = b'/' ∷ [];
  calls = [];
}

abbrev good_os : FileOs
good_os = record {
  access = λ p. 0;
  strdup_ok = true;
  malloc_ok = true;
  opendir_ok = λ dir. true;
  mkstemp = λ template. some template;
  fdopen = λ p. 0;
  fopen = λ p. 0;
  fwrite = λ n. n;
  open_read = λ p. 0;
  fstat = λ p. 0;
  st_size = λ p. 3;
  mmap = λ p size. 4096;
  rmdir = λ dir. 0;
}

-- The host gives the id 2.
abbrev hosts : Ptr → Host
hosts p = record { resource_new = λ type data_ptr. (0, 2); resource_destroy = λ id. 0 }

vaccel_fini-IsFinished_example :
    (s' : Library) × (vaccel_fini good_os hosts running ≡ ok s') × IsFinished running s'
vaccel_fini-IsFinished_example =
    vaccel_fini-IsFinished good_os hosts running one_plugin-Wellformed refl no_resources-IsLive

vaccel_fini-of_host_example :
    (s : ResourceState) × (resource_new (host_of hosts one_plugin) 64 3 16 8 no_resources
      ≡ ok (vaccel_ok, s))
    × (vaccel_fini good_os hosts
          (record running { sessions = record running.sessions { resources = s } })
        ≡ fault)
vaccel_fini-of_host_example =
    vaccel_fini-of_host good_os hosts running 64 3 16 8 2 one_plugin-Wellformed refl (ground arith)
      no_resources-IsLive refl (ground arith) (omega arith) refl (omega arith) (omega arith)

-- The library "p" has the handle 7 and the plugin 12, whose `init` registers two operations.
abbrev own : Ptr → List Ptr
own p = if 12 == p then 20 ∷ 21 ∷ [] else []

abbrev linker : Linker
linker = record {
  dlopen = λ path. 7;
  dlsym = λ dl. some 12;
  init = λ plugin s. register_plugin_functions (own plugin) s;
}

abbrev before_load : PluginState
before_load = record one_plugin {
  op = λ o. record { type = if o == 20 then 1 else 2; func = 200; owner = 12 };
}

abbrev registered : PluginState
registered = (register_plugin_functions (20 ∷ 21 ∷ []) (add_plugin 12 info before_load)).1

abbrev after_load : PluginState
after_load = record registered {
  plugin = update registered.plugin 12 (record (registered.plugin 12) { dl_handle = 7 });
}

abbrev environment : Start
environment = record {
  os = good_os;
  uid = b'1' ∷ [];
  mkdir = λ dir. 0;
  mkdtemp = λ template. (0, template);
  sessions_calloc_ok = true;
  resources_calloc_ok = true;
  backends = none;
  strdup_ok = true;
}

-- "/run/user/1/vaccel.XXXXXX"
abbrev dir : List ℕ
dir =
    b'/' ∷ b'r' ∷ b'u' ∷ b'n' ∷ b'/' ∷ b'u' ∷ b's' ∷ b'e' ∷ b'r' ∷ b'/' ∷ b'1' ∷ b'/' ∷ b'v' ∷ b'a'
    ∷ b'c' ∷ b'c' ∷ b'e' ∷ b'l' ∷ b'.' ∷ b'X' ∷ b'X' ∷ b'X' ∷ b'X' ∷ b'X' ∷ b'X' ∷ []

abbrev up : Library
up = record {
  plugins = (plugins_bootstrap one_plugin).1;
  sessions = record (sessions_bootstrap true running.sessions).1 {
    resources = (resources_bootstrap true no_resources).1;
  };
  rundir = dir;
  calls = made_dir dir ∷ [];
}

init_runs : vaccel_init linker environment running ≡ ok (started up)
unfolding vaccel_init boot load_from_environment create_vaccel_rundir make_user_dir dir_exists
    sessions_bootstrap resources_bootstrap id_pool_new
init_runs = refl

vaccel_init-IsReset_example : IsReset up.sessions
vaccel_init-IsReset_example =
    vaccel_init-IsReset linker environment running up (λ t high. refl) init_runs
