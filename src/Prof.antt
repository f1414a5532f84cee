-- ===== src/Prof.antt =====
-- src/profiling/vaccel_prof.c: regions that collect timed samples.
pub mod State
pub mod Regions
pub mod Samples
pub mod Stops
pub mod Names
pub mod Buffer
pub mod Overrun
mod Examples
