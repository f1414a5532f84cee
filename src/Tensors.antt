-- ===== src/Tensors.antt =====
-- src/ops/tf.c and src/ops/torch.c: buffers, nodes and tensors, whose memory is allocated and freed,
-- and the operations on models.
-- A structure is passed by its value, with its address as a field; NULL is `none`. The heap holds the
-- addresses that are allocated.
pub mod State
pub mod Sessions
pub mod Ownership
pub mod Unrecorded
mod Examples
