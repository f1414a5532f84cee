-- ===== src/Sessions.antt =====
-- src/session.c with the types of src/session.h and src/include/session.h: sessions, their ids, and
-- the resources that are registered with them.
-- A list of src/list.h is the list of the resources that its containers point to, one entry for each
-- container. The functions of a VirtIO plugin, `malloc` and the file system answer through arguments.
mod State
mod Occurrences
pub mod Counted
pub mod Registration
pub mod Init
mod Emptied
pub mod Free
pub use State.{Session, SessionResources, Sessions, HostSessions, max_sessions}
unfoldable pub use State.{
  sessions_bootstrap, sessions_cleanup, vaccel_sess_register, vaccel_sess_unregister,
  vaccel_sess_has_resource, vaccel_sess_init, vaccel_sess_update, vaccel_sess_free,
}
mod Examples
