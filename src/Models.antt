-- ===== src/Models.antt =====
-- The resources that hold files: src/resources/shared_object.c, tf_model.c, tf_saved_model.c and
-- torch_saved_model.c, with their types of src/include/resources.
-- Each is a resource of module Resources with files of module Files, and the destructor that
-- `resource_destroy` calls.
pub mod State
pub mod Object
pub mod Ready
pub mod Lifetime
pub mod Buffer
pub mod Saved
pub mod TfSaved
pub mod TorchSaved
mod Examples
