-- ===== src/Files.antt =====
-- src/resources/file.c with the type of src/include/vaccel_file.h, and src/utils.c: files that are
-- given by a path or by data, and are persisted in a directory.
pub mod State
pub mod Ends
pub mod Persist
pub mod Contents
mod Examples
