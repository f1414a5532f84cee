-- ===== src/Ops/Examples.antt =====
-- A machine whose memory holds op codes, words and identifiers at known addresses; the plugin 10
-- implements the operations sgemm and exec with a resource, and one resource is live.
use vaccel_google_test.Common.{
  ℕ, ◌+◌, ◌-◌, ◌≡◌, ◌≤◌, ◌<◌, ◌⊎◌, refl, inl, inr, Bool-cases, Distinct, none, some, List, [], ◌∷◌,
  ◌==◌, if◌then◌else◌, arith, true, false,
}
use vaccel_google_test.Common.Code.{vaccel_einval, vaccel_enotsup}
use vaccel_google_test.Common.Memory.{Ptr, ok, ◌>>=◌}
use vaccel_google_test.Plugins.{PluginInfo, PluginState, functions_nr}
use vaccel_google_test.Plugins.Wellformed.{Wellformed}
use vaccel_google_test.Plugins.Lookup.{Chosen}
use vaccel_google_test.Prof.State.{Env}
use vaccel_google_test.Prof.Regions.{no_region}
use vaccel_google_test.Resources.{ResourceState, resource_get_by_id, find_id, find_from}
use vaccel_google_test.Ops.State.{Arg, Args, Machine, answer, plugin, after}
use vaccel_google_test.Ops.Calls.{call_plugin, vaccel_sgemm}
use vaccel_google_test.Ops.Unpack.{vaccel_exec_with_res_unpack}
use vaccel_google_test.Ops.Image.{ProfiledFunc}
use vaccel_google_test.Ops.Genop.{callback, vaccel_genop}
use vaccel_google_test.Ops.Dispatch.{call_plugin-Chosen}
use vaccel_google_test.Ops.Entry.{vaccel_genop-callback}
use vaccel_google_test.Ops.Generic.{
  SgemmBuffers, sgemm_read, sgemm_write, byte_sized, vaccel_genop-sgemm_generic,
}
use vaccel_google_test.Ops.ExecResource.{Found, vaccel_exec_with_res_unpack-plain}

abbrev info : PluginInfo
info = record { name = 100; init = 101; fini = 102; type = 1; sess_init = 0; sess_free = 0 }

abbrev plugins : PluginState
plugins = record {
  initialized = true;
  plugins = 10 ∷ [];
  virtio = 0;
  ops = λ t. if t == 1 then 20 ∷ [] else if t == 20 then 21 ∷ [] else [];
  plugin =
      λ p. record { dl_handle = 0; ops = if p == 10 then 20 ∷ 21 ∷ [] else []; info = some info };
  op = λ o.
      if o == 20
      then record { type = 1; func = 200; owner = 10 }
      else record { type = 20; func = 201; owner = 10 };
  calls = [];
}

abbrev resources : ResourceState
resources = record {
  initialized = true;
  pool = record { ids = 1 ∷ 0 ∷ []; max = 2; next = 1 };
  live = λ t. if t == 0 then 30 ∷ [] else [];
  res = λ r. record {
    id = 1;
    type = 0;
    data_ptr = 5;
    cleanup_resource = 0;
    refcount = 0;
    rundir = none;
  };
  cleaned = [];
  removed = [];
}

abbrev env : Env
env = record { enabled = false; now = 0; name_granted = true; realloc = none }

-- The word at an address is the address, less 1000.
abbrev machine : Machine
machine = record {
  plugins = plugins;
  resources = resources;
  hint = λ s. 0;
  load = λ n p. ok (p - 1000);
  shared_object_path = λ p. ok 77;
  image_op_stats = no_region;
  entering = env;
  leaving = env;
}

ops_once : (t : ℕ) → Distinct (plugins.ops t)
ops_once t = elim (Bool-cases (t == 1)) [
  | inl h ↦ rw h (refl, tt)
  | inr h ↦ elim (Bool-cases (t == 20)) [ inl k ↦ rw (h, k) (refl, tt) | inr k ↦ rw (h, k) tt ]
]

plugins-Wellformed : Wellformed plugins
plugins-Wellformed = record {
  plugins_once = (refl, tt);
  plugins_real = refl;
  ops_once = ops_once;
  typed = λ t o h. ground arith;
  owned = λ p o h. ground arith;
}

call_plugin-Chosen_example :
    (o : Ptr) × (call_plugin 1 machine 40 (7 ∷ []) ≡ ok (plugin (plugins.op o).func (40 ∷ 7 ∷ [])))
    × Chosen 0 plugins 20 (20 ∷ []) o
    × ((plugins.op o).type ≡ 1)
call_plugin-Chosen_example =
    call_plugin-Chosen 1 machine 40 (7 ∷ []) 20 [] (ground arith) plugins-Wellformed refl
      ((info, refl), tt)

abbrev word : ℕ → Arg
word n = record { size = 8; buf = 1000 + n }

abbrev packed : List Arg → Args
packed items = record { base = 500; items = items }

vaccel_genop-callback_example :
    ((functions_nr ≤ 7)
      × (vaccel_genop 0 machine 40 (packed (word 7 ∷ [])) 1 (packed []) 0
          ≡ ok (answer vaccel_einval, no_region)))
    ⊎ ((7 < functions_nr)
        × (f : ProfiledFunc) × (callback 0 7 ≡ ok f)
        × (vaccel_genop 0 machine 40 (packed (word 7 ∷ [])) 1 (packed []) 0
            ≡ f machine 40 (after 1 (packed (word 7 ∷ []))) 0 (packed []) 0))
vaccel_genop-callback_example =
    vaccel_genop-callback 0 machine 40 (packed (word 7 ∷ [])) 1 (packed []) 0 7 (ground arith)
      (omega arith) refl

abbrev buffers : SgemmBuffers
buffers = record {
  op_type = 1001;
  m = 1512;
  n = 1512;
  k = 1512;
  alpha = 1005;
  a = 600;
  b = 700;
  beta = 1006;
  c = 800;
}

vaccel_genop-sgemm_generic_example :
    vaccel_genop 0 machine 40 (packed (sgemm_read buffers)) 8 (packed (sgemm_write buffers)) 1
    ≡ (vaccel_sgemm machine 40 (byte_sized buffers 5 6) >>= λ reply. ok (reply, no_region))
vaccel_genop-sgemm_generic_example =
    vaccel_genop-sgemm_generic 0 machine 40 buffers 5 6 500 500 (record {
      op_word = refl;
      m_word = refl;
      n_word = refl;
      k_word = refl;
      alpha_word = refl;
      beta_word = refl;
    })

machine-Found : Found 99 machine 1 30 77
unfolding resource_get_by_id find_id find_from
machine-Found = record { looked_up = refl; object = ground arith; library = refl }

vaccel_exec_with_res_unpack-plain_example :
    vaccel_exec_with_res_unpack 99 machine 40
      (record { base = 500; items = word 1 ∷ word 2 ∷ [] })
      2
      (packed [])
      0
    ≡ ok (answer vaccel_enotsup)
vaccel_exec_with_res_unpack-plain_example =
    vaccel_exec_with_res_unpack-plain 99 machine 40 (word 1) (word 2) [] 500 0 1 30 77 (packed []) 0
      (omega arith) refl machine-Found (ground arith) refl
