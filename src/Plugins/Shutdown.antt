-- ===== src/Plugins/Shutdown.antt =====
-- The end of the plugin system, and the pointer that outlives a plugin.
use vaccel_google_test.Common.{
  ℕ, ◌≡◌, refl, ◌∙◌, ◌≢◌, true, false, List, [], ◌∷◌, arith, has, remove, remove_absent,
}
use vaccel_google_test.Common.Code.{vaccel_ok}
use vaccel_google_test.Common.Memory.{Ptr, null}
use vaccel_google_test.Plugins.State.{
  PluginState, unregister_plugin, unregister_all, plugins_shutdown, get_virtio_plugin,
}
use vaccel_google_test.Plugins.Wellformed.{Wellformed}
use vaccel_google_test.Plugins.Unregister.{
  unregister_plugin-Wellformed, unregister_plugin_gone, unregister_plugin_frame,
}

-- What is left when the plugins `ps` are gone.
pub record Cleared (s : PluginState) (ps : List Ptr) (g : PluginState) : Type 0 where
  pub plugins : g.plugins ≡ []
  pub wellformed : Wellformed g
  pub ops :
      (t : ℕ) (o : Ptr)
      → has o (g.ops t) ≡ true
      → (has o (s.ops t) ≡ true) × (has (s.op o).owner ps ≡ false)

unregister_all-Cleared :
    (ps : List Ptr) (s : PluginState)
    → Wellformed s
    → s.initialized ≡ true
    → s.plugins ≡ ps
    → Cleared s ps (unregister_all ps s)
unfolding unregister_all
unregister_all-Cleared [] s w up e = record {
  plugins = e;
  wellformed = w;
  ops = λ t o i. (i, refl);
}
unregister_all-Cleared (p ∷ ps) s w up e =
    let real : p ≢ null = λ z. ground (arith, e, w.plugins_real) in
    let reg : has p s.plugins ≡ true = ground (arith, e) in
    let f = unregister_plugin_frame p s w up real reg in
    let rest : remove p s.plugins ≡ ps = ground (arith, e, w.plugins_once, remove_absent p ps) in
    let c =
      unregister_all-Cleared ps (unregister_plugin p s).1 (unregister_plugin-Wellformed p s w)
        (f.0 ∙ up) (f.1 ∙ rest) in
    record {
      plugins = c.plugins;
      wellformed = c.wellformed;
      ops = λ t o i.
          ground
            (arith, c.ops t o i, f.2 t o, f.3 o, (unregister_plugin_gone p s w up real reg).0 t o);
    }

plugins_shutdown-eq :
    (s : PluginState)
    → s.initialized ≡ true
    → plugins_shutdown s
      ≡ (vaccel_ok, record (unregister_all s.plugins s) { virtio = null; initialized = false })
unfolding plugins_shutdown
plugins_shutdown-eq s up = ground arith

-- From a well-formed and initialized registry `plugins_shutdown` unregisters every plugin: none
-- is left, no operation of a plugin that was registered is in a table, the VirtIO plugin is
-- forgotten, and the system is not initialized.
pub plugins_shutdown-Cleared :
    (s : PluginState)
    → Wellformed s
    → s.initialized ≡ true
    → let s' = (plugins_shutdown s).1 in
      ((plugins_shutdown s).0 ≡ vaccel_ok)
      × Cleared s s.plugins s'
      × (s'.virtio ≡ null)
      × (s'.initialized ≡ false)
plugins_shutdown-Cleared s w up =
    let c = unregister_all-Cleared s.plugins s w up refl in
    let v = c.wellformed in
    rw (plugins_shutdown-eq s up) (
      refl,
      record {
        plugins = c.plugins;
        wellformed = record {
          plugins_once = v.plugins_once;
          plugins_real = v.plugins_real;
          ops_once = v.ops_once;
          typed = v.typed;
          owned = v.owned;
        };
        ops = c.ops;
      },
      refl,
      refl,
    )

-- In a well-formed and initialized registry, unregistering the registered VirtIO plugin takes it
-- out of the list of plugins, but `get_virtio_plugin` goes on returning it.
virtio_dangling :
    (p : Ptr) (s : PluginState)
    → Wellformed s
    → s.initialized ≡ true
    → p ≢ null
    → has p s.plugins ≡ true
    → s.virtio ≡ p
    → let s' = (unregister_plugin p s).1 in (get_virtio_plugin s' ≡ p) × (has p s'.plugins ≡ false)
unfolding get_virtio_plugin
virtio_dangling p s w up ne reg v =
    ((unregister_plugin_frame p s w up ne reg).4 ∙ v, (unregister_plugin_gone p s w up ne reg).1)
