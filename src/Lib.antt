-- ===== src/Lib.antt =====
-- vAccelRT: the runtime library of vAccel, src/*.c and src/ops, src/profiling of the repository.
--
-- A program opens sessions (src/session.c), creates resources (src/resources.c), registers resources
-- with sessions, and runs operations (src/ops). An operation asks the registry of plugins
-- (src/plugin.c) for a function, by its type and the session's hint, and calls it. Sessions and
-- resources take their ids from pools (src/id_pool.c); all lists are those of src/list.h. A VirtIO
-- plugin hands sessions and resources to the host instead. Regions (src/profiling/vaccel_prof.c)
-- collect timed samples, for instance of the image operations. Resources can hold files
-- (src/resources), tensors are passed to models (src/ops/tf.c, src/ops/torch.c), and src/vaccel.c
-- starts and ends all of it, and loads the plugins.
--
-- Which file models which part:
--
-- Common: the libraries' names passed on, tests, lists over native numbers, the codes of
-- src/include/error.h (Common/Code), and memory (Common/Memory): an address is a number, a store is a
-- function, and a call returns an Outcome, which is a fault where the code reads or writes outside of
-- an object.
-- Ring: src/list.h over a store of next and prev links. Ring/Chain says what a list stands for,
-- Ring/Insert, Ring/Unlink and Ring/Walk have the laws. The loops of the macros run on fuel, one round
-- more than the list has entries, which is enough by the theorems of Ring/Walk. The other modules hold
-- such a list as the list of the addresses of its containers.
-- IdPool: src/id_pool.c. An id_pool_t is the record IdPool; the steps of id_pool_get and
-- id_pool_release at which another thread can run are definitions of their own. IdPool/Invariant says
-- how a pool serves the holders of its ids, IdPool/History has the histories of calls, IdPool/Faults
-- what happens outside of them. IdPool/Refinement has the abstract pool, a stack of free ids.
-- Plugins: src/plugin.c (Plugins/State has the static variable plugin_state and the functions, each
-- under its name). Plugins/Wellformed has the invariant of the registry.
-- Resources: src/resources.c (Resources/State). The functions of a VirtIO plugin are the argument of
-- type Option Host. Resources/Live has the invariant.
-- Sessions: src/session.c (Sessions/State). A session is a record at an address; its lists of
-- registered resources are lists of addresses. The functions of a VirtIO plugin are the argument
-- of type Option HostSessions; malloc, mkdir, the decimal printer and the run directory's name are the
-- record Os. Sessions/Counted relates reference counts and registrations, Sessions/Init and
-- Sessions/Free are about the two ends of a session's life.
-- Prof: src/profiling/vaccel_prof.c (Prof/State for one region, Prof/Regions for arrays, Prof/Buffer
-- for their report as text). The environment variable, the clock and realloc's answer are the record
-- Env.
-- Ops: the operations src/ops/{noop,blas,minmax,opencv,exec,fpga}.c (Ops/Calls), their unpacking
-- functions (Ops/Unpack), src/ops/image.c (Ops/Image) and src/ops/genop.c (Ops/Genop). A plugin's
-- function is called last in every operation, so an operation returns the function and its
-- arguments; the memory behind the arguments is a field of the record Machine. Ops/Generic is the call
-- of the generic entry in examples/sgemm_generic.c.
-- Files: src/resources/file.c and src/utils.c (Files/State). A call of the system that leaves something
-- behind, for a file, for memory or for a directory, is logged (FileCall); the answers of the system
-- are the record FileOs. Files/Ends says what persisting a file leaves. A path that was freed stays in
-- the structure as such.
-- Models: src/resources/shared_object.c and tf_model.c (Models/Object), tf_saved_model.c
-- (Models/TfSaved) and torch_saved_model.c (Models/TorchSaved). A resource with files is the state of
-- module Resources, the log of module Files, and the addresses of the resources that were freed
-- (Models/State, record World); the destructor that resource_destroy calls is an argument of
-- destroy_with. readdir and the regular expressions are the record Dirs.
-- Library: src/vaccel.c (Library/State) over the modules Plugins, Sessions and Resources. The dynamic
-- linker and the functions init of the plugins are the record Linker; what such a function does to
-- other state than that of src/plugin.c is left out. Library/Load is about the loading of plugins.
-- Plugins are loaded after plugins_bootstrap, which is for a registry without entries: what stays
-- linked to an entry of a list whose head is set up again is left out.
-- Tensors: the buffers, nodes and tensors of src/ops/tf.c and src/ops/torch.c over a heap of allocated
-- addresses (Tensors/State), and their operations on models (Tensors/Sessions).
-- The modules called Examples hold concrete states on which the theorems are applied.
--
-- Numbers: ids, counts and sizes are natural numbers; where a number of w bits can wrap, the
-- definitions say so (% 2 ^ w), and a negative int or id is its bit pattern. A pool has fewer than 2^31
-- ids, as its count is an int; a region has fewer than 2^59 samples before it grows.
--
-- Loops over plugins, files and lists are structural recursion and need no fuel.
--
-- Not modelled: get_available_plugins, which prints; logging (src/log.c) and src/misc.c; that exit()
-- in vaccel_init runs the destructors; plugins, the other examples, tests and third-party code. Calls
-- that only log are left out of the definitions.
pub mod Common
pub mod Files
pub mod IdPool
pub mod Library
pub mod Models
pub mod Ops
pub mod Plugins
pub mod Prof
pub mod Resources
pub mod Ring
pub mod Sessions
pub mod Tensors
