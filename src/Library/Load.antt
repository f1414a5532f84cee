-- ===== src/Library/Load.antt =====
-- The plugins that `load_backend_plugins` of src/vaccel.c loads.
use vaccel_google_test.Common.{◌≡◌, ◌⊎◌, has, Distinct, true, List}
use vaccel_google_test.Common.Code.{Code}
use vaccel_google_test.Common.Memory.{Ptr, Outcome, ok}
use vaccel_google_test.Plugins.{register_plugin_functions, PluginState}
use vaccel_google_test.Plugins.Wellformed.{Wellformed}
use vaccel_google_test.Library.State.{Linker}

-- What the functions `init` of plugins do: `init` of the plugin `p` registers the operations `own p`
-- by `register_plugin_functions`, or fails before it does. Nothing is assumed of its answer.
pub record Registers (l : Linker) (own : Ptr → List Ptr) : Type 0 where
  pub different : (p : Ptr) → Distinct (own p)
  pub registers :
      (p : Ptr) (s : PluginState)
      → ((l.init p s).1 ≡ s) ⊎ ((l.init p s).1 ≡ (register_plugin_functions (own p) s).1)

-- Every plugin is the owner of its operations.
abbrev pub IsOwner : (own : Ptr → List Ptr) → PluginState → Type 0
IsOwner own s = (p o : Ptr) → has o (own p) ≡ true → (s.op o).owner ≡ p

-- A well-formed registry in which every plugin is the owner of its operations.
record IsSound (own : Ptr → List Ptr) (s : PluginState) : Type 0 where
  wellformed : Wellformed s
  owner : IsOwner own s

-- The result of a load, if there is one.
abbrev Keeps : (own : Ptr → List Ptr) → Outcome (Code × PluginState) → Type 0
Keeps own o = (c : Code) (s' : PluginState) → o ≡ ok (c, s') → IsSound own s'
