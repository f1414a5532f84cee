-- ===== src/Library.antt =====
-- src/vaccel.c: the start and the end of the library, and the loading of its plugins.
pub mod State
pub mod Start
pub mod Load
pub mod End
mod Examples
