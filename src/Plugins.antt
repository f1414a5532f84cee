-- ===== src/Plugins.antt =====
-- src/plugin.c with the types of src/include/plugin.h: the registered plugins, the operations they
-- implement, and the choice of an implementation.
-- A list of src/list.h is the list of the addresses of its containers (module Ring shows that the
-- entries behave so); pointers to functions and names are only tested against NULL.
mod State
mod Unlink
pub mod Wellformed
pub mod Register
pub mod Unregister
pub mod Lookup
pub mod Shutdown
mod Examples
pub use State.{PluginInfo, Plugin, Op, Event, fini, dlclose, PluginState, functions_nr}
unfoldable pub use State.{
  is_virtio_plugin, add_plugin, add_op, register_plugin, unregister_plugin,
  register_plugin_function, register_plugin_functions, get_plugin_op, get_virtio_plugin,
  plugins_bootstrap, plugins_shutdown,
}
