-- ===== src/Resources.antt =====
-- src/resources.c with the type of src/resources.h: the live resources, their ids and reference
-- counts.
-- A list of src/list.h is the list of the addresses of its containers (module Ring). The host-side
-- functions of a VirtIO plugin and the type-specific destructors are not part of the library: a
-- call takes them as arguments.
mod State
pub mod Ids
pub mod Live
pub mod Destroy
pub mod Lookup
pub mod Rundir
pub use State.{
  Resource, ResourceState, Host, res_max, max_resources, rundir_text, max_resource_rundir,
}
unfoldable pub use State.{
  resources_bootstrap, resource_new, resource_get_by_id, resource_destroy, resources_cleanup,
  resource_refcount_inc, resource_refcount_dec, resource_create_rundir, find_id, find_from,
  obtain_id, enlist, return_id, destroy_list, destroy_from,
}
mod Examples
