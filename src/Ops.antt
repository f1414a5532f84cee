-- ===== src/Ops.antt =====
-- src/ops: the operations of the API, and their generic entry in src/ops/genop.c.
pub mod State
pub mod Calls
pub mod Unpack
pub mod Image
pub mod Genop
pub mod Dispatch
pub mod Entry
pub mod Generic
pub mod ExecResource
mod Examples
