-- ===== src/Plugins/Examples.antt =====
-- A registry of two plugins: 10, the VirtIO plugin, implements the no-op by the operation 20; 11
-- implements nothing; 12 is not registered. The operation 21 of plugin 11 is in no table.
use vaccel_google_test.Common.{
  ℕ, ◌≡◌, ◌≢◌, refl, inl, inr, Bool-cases, Distinct, some, [], ◌∷◌, ◌==◌, if◌then◌else◌, arith,
  true, false, has,
}
use vaccel_google_test.Common.Code.{vaccel_ok}
use vaccel_google_test.Common.Memory.{Ptr, null, ok}
use vaccel_google_test.Plugins.{
  PluginInfo, PluginState, unregister_plugin, get_plugin_op, plugins_shutdown,
}
use vaccel_google_test.Plugins.Wellformed.{Wellformed}
use vaccel_google_test.Plugins.Unregister.{unregister_plugin-Wellformed}
use vaccel_google_test.Plugins.Lookup.{Chosen, get_plugin_op-Chosen}
use vaccel_google_test.Plugins.Shutdown.{Cleared, plugins_shutdown-Cleared}

abbrev info : PluginInfo
info = record { name = 100; init = 101; fini = 102; type = 1; sess_init = 103; sess_free = 104 }

abbrev two_plugins : PluginState
two_plugins = record {
  initialized = true;
  plugins = 10 ∷ 11 ∷ [];
  virtio = 10;
  ops = λ t. if t == 0 then 20 ∷ [] else [];
  plugin = λ p. record { dl_handle = 0; ops = if p == 10 then 20 ∷ [] else []; info = some info };
  op = λ o.
      if o == 20
      then record { type = 0; func = 200; owner = 10 }
      else record { type = 3; func = 201; owner = 11 };
  calls = [];
}

ops_once : (t : ℕ) → Distinct (two_plugins.ops t)
ops_once t = elim (Bool-cases (t == 0)) [ inl h ↦ rw h (refl, tt) | inr h ↦ rw h tt ]

two_plugins-Wellformed : Wellformed two_plugins
two_plugins-Wellformed = record {
  plugins_once = (refl, (refl, tt));
  plugins_real = refl;
  ops_once = ops_once;
  typed = λ t o h. ground arith;
  owned = λ p o h. ground arith;
}

unregister_plugin-Wellformed_example : Wellformed (unregister_plugin 10 two_plugins).1
unregister_plugin-Wellformed_example =
    unregister_plugin-Wellformed 10 two_plugins two_plugins-Wellformed

get_plugin_op-Chosen_example :
    (o : Ptr) × (get_plugin_op 0 1 two_plugins ≡ ok (two_plugins.op o).func)
    × Chosen 1 two_plugins 20 (20 ∷ []) o
    × (has o (two_plugins.ops 0) ≡ true)
    × ((two_plugins.op o).type ≡ 0)
    × ((two_plugins.op o).func ≢ null)
get_plugin_op-Chosen_example =
    get_plugin_op-Chosen 0 1 two_plugins 20 [] two_plugins-Wellformed refl ((info, refl), tt)

plugins_shutdown-Cleared_example :
    let s' = (plugins_shutdown two_plugins).1 in
    ((plugins_shutdown two_plugins).0 ≡ vaccel_ok)
    × Cleared two_plugins (10 ∷ 11 ∷ []) s'
    × (s'.virtio ≡ null)
    × (s'.initialized ≡ false)
plugins_shutdown-Cleared_example = plugins_shutdown-Cleared two_plugins two_plugins-Wellformed refl
