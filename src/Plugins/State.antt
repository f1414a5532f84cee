-- ===== src/Plugins/State.antt =====
-- The state of src/plugin.c and its functions.
use Prim.Native.Nat.{bit_and}
use vaccel_google_test.Common.{
  ℕ, ◌+◌, Bool, true, false, ◌&&◌, ◌||◌, not, Option, none, some, List, [], ◌∷◌, ◌++◌, ltb, leb,
  ◌==◌, if◌then◌else◌, has, is_nil, remove,
}
use vaccel_google_test.Common.Code.{
  Code, vaccel_ok, vaccel_einval, vaccel_enoent, vaccel_eexists, vaccel_ebackend,
}
use vaccel_google_test.Common.Memory.{Ptr, null, update, Outcome, ok, fault, ◌>>=◌}

-- `struct vaccel_plugin_info`; the callbacks that no function of plugin.c reads are left out.
pub record PluginInfo : Type 0 where
  pub name : Ptr
  pub init : Ptr
  pub fini : Ptr
  pub type : ℕ
  pub sess_init : Ptr
  pub sess_free : Ptr

-- `struct vaccel_plugin`; `info` is `none` for NULL.
pub record Plugin : Type 0 where
  pub dl_handle : Ptr
  pub ops : List Ptr
  pub info : Option PluginInfo

-- `struct vaccel_op`
pub record Op : Type 0 where
  pub type : ℕ
  pub func : Ptr
  pub owner : Ptr

-- Calls that leave the library: a plugin's `fini`, and `dlclose` of its handle.
pub data Event : Type 0 where
  fini : Ptr → Event
  dlclose : Ptr → Event

-- `plugin_state`, the memory of the plugins and operations, and the calls made so far.
pub record PluginState : Type 0 where
  pub initialized : Bool
  pub plugins : List Ptr
  pub virtio : Ptr
  pub ops : ℕ → List Ptr
  pub plugin : Ptr → Plugin
  pub op : Ptr → Op
  pub calls : List Event

-- `VACCEL_FUNCTIONS_NR`
abbrev pub functions_nr : ℕ
functions_nr = 24

unfoldable pub check_plugin_info : PluginInfo → Code
check_plugin_info pinfo =
    if pinfo.name == null
    then vaccel_einval
    else if pinfo.init == null
    then vaccel_einval
    else if pinfo.fini == null
    then vaccel_einval
    else vaccel_ok

unfoldable pub is_virtio_plugin : PluginInfo → Bool
is_virtio_plugin pinfo = not (pinfo.sess_init == null) && not (pinfo.sess_free == null)

-- The part of `register_plugin` behind its checks.
unfoldable pub add_plugin : Ptr → PluginInfo → PluginState → PluginState
unfolding is_virtio_plugin
add_plugin plugin info s = record s {
  plugins = s.plugins ++ plugin ∷ [];
  virtio = if is_virtio_plugin info && (s.virtio == null) then plugin else s.virtio;
}

unfoldable pub register_plugin : Ptr → PluginState → Outcome (Code × PluginState)
unfolding check_plugin_info
register_plugin plugin s =
    if plugin == null
    then ok (vaccel_einval, s)
    else if not s.initialized
    then ok (vaccel_ebackend, s)
    else if has plugin s.plugins
    then ok (vaccel_eexists, s)
    else if not (is_nil (s.plugin plugin).ops)
    then ok (vaccel_einval, s)
    else elim (s.plugin plugin).info [
      | none ↦ fault
      | some info ↦
          if not (check_plugin_info info == vaccel_ok)
          then ok (vaccel_einval, s)
          else ok (vaccel_ok, add_plugin plugin info s)
    ]

-- Unlinking `op->func_entry` and `op->plugin_entry`, whatever lists hold them.
unfoldable pub unlink_op : (owner op : Ptr) → PluginState → PluginState
unlink_op owner op s = record s {
  ops = λ t. remove op (s.ops t);
  plugin = update s.plugin owner (record (s.plugin owner) { ops = remove op (s.plugin owner).ops });
}

-- The loop over the operations of a plugin, which reads the next one before it unlinks.
unfoldable pub unlink_ops : (owner : Ptr) → List Ptr → PluginState → PluginState
unfolding unlink_op
unlink_ops owner [] s = s
unlink_ops owner (op ∷ rest) s = unlink_ops owner rest (unlink_op owner op s)

-- The plugin's operations leave all lists, then the plugin leaves the list of plugins.
unfoldable pub unlink_plugin : Ptr → PluginState → PluginState
unlink_plugin plugin s =
    let s' = unlink_ops plugin (s.plugin plugin).ops s in
    record s' { plugins = remove plugin s'.plugins }

-- `fini`, and `dlclose` if the plugin came from a library.
unfoldable pub finish : Ptr → PluginState → PluginState
finish plugin s = record s {
  calls =
      s.calls
      ++ fini plugin
        ∷ (if (s.plugin plugin).dl_handle == null
            then []
            else dlclose (s.plugin plugin).dl_handle ∷ []);
}

unfoldable pub unregister_plugin : Ptr → PluginState → Code × PluginState
unregister_plugin plugin s =
    if plugin == null
    then (vaccel_einval, s)
    else if not s.initialized
    then (vaccel_ebackend, s)
    else if not (has plugin s.plugins)
    then (vaccel_enoent, s)
    else let s' = unlink_plugin plugin s in
      elim (s'.plugin plugin).info [
        | none ↦ (vaccel_einval, s')
        | some info ↦ (vaccel_ok, finish plugin s')
      ]

-- The two `list_add_tail` of `register_plugin_function`.
unfoldable pub add_op : Ptr → PluginState → PluginState
add_op plugin_op s =
    let op = s.op plugin_op in
    record s {
      ops = update s.ops op.type (s.ops op.type ++ plugin_op ∷ []);
      plugin =
          update s.plugin op.owner
            (record (s.plugin op.owner) { ops = (s.plugin op.owner).ops ++ plugin_op ∷ [] });
    }

unfoldable pub register_plugin_function : Ptr → PluginState → Code × PluginState
register_plugin_function plugin_op s =
    if (plugin_op == null) || ((s.op plugin_op).func == null)
    then (vaccel_einval, s)
    else if leb functions_nr (s.op plugin_op).type
    then (vaccel_einval + 1, s)
    else if (s.op plugin_op).owner == null
    then (vaccel_einval + 2, s)
    else (vaccel_ok, add_op plugin_op s)

-- The addresses `&plugin_ops[i]` in order; the first failure ends the loop.
unfoldable pub register_plugin_functions : List Ptr → PluginState → Code × PluginState
unfolding register_plugin_function
register_plugin_functions [] s = (vaccel_ok, s)
register_plugin_functions (op ∷ rest) s =
    let (ret, s') = register_plugin_function op s in
    let more = register_plugin_functions rest s' in if ret == vaccel_ok then more else (ret, s')

-- The first operation whose plugin has a type bit in common with the hint.
unfoldable pub match_hint : (hint : ℕ) → List Ptr → PluginState → Outcome (Option Ptr)
match_hint hint [] s = ok none
match_hint hint (op ∷ rest) s =
    let later = match_hint hint rest s in
    elim (s.plugin (s.op op).owner).info [
      | none ↦ fault
      | some info ↦ if not (bit_and hint info.type == 0) then ok (some op) else later
    ]

-- The implementation that is chosen from a list that is not empty.
abbrev pub or_first : (first : Ptr) → Option Ptr → Outcome Ptr
or_first first none = ok first
or_first first (some op) = ok op

unfoldable pub choose_op : (hint : ℕ) (first : Ptr) → List Ptr → PluginState → Outcome Ptr
choose_op hint first ops s =
    if hint == 0 then ok first else (match_hint hint ops s >>= or_first first)

-- `op->func`, behind the message that reads `op->owner->info->name`.
unfoldable pub func_of : (op : Ptr) → PluginState → Outcome Ptr
func_of op s = elim (s.plugin (s.op op).owner).info [ none ↦ fault | some _ ↦ ok (s.op op).func ]

unfoldable pub get_plugin_op : (op_type hint : ℕ) → PluginState → Outcome Ptr
get_plugin_op op_type hint s = if leb functions_nr op_type then ok null else elim (s.ops op_type) [
  | [] ↦ ok null
  | first ∷ rest ↦ choose_op hint first (first ∷ rest) s >>= λ op. func_of op s
]

unfoldable pub get_virtio_plugin : PluginState → Ptr
get_virtio_plugin s = s.virtio

-- For lists of plugins and operations that are empty, as they are when the library starts and after
-- `plugins_shutdown`. An entry that stands in one of them stays linked to the others.
unfoldable pub plugins_bootstrap : PluginState → Code × PluginState
plugins_bootstrap s = (
  vaccel_ok,
  record s {
    plugins = [];
    ops = λ t. if ltb t functions_nr then [] else s.ops t;
    initialized = true;
  },
)

-- The safe loop over the registered plugins: the result of each call is only logged.
unfoldable pub unregister_all : List Ptr → PluginState → PluginState
unregister_all [] s = s
unregister_all (plugin ∷ rest) s = unregister_all rest (unregister_plugin plugin s).1

unfoldable pub plugins_shutdown : PluginState → Code × PluginState
plugins_shutdown s =
    if not s.initialized
    then (vaccel_ok, s)
    else let s' = unregister_all s.plugins s in
      (vaccel_ok, record s' { virtio = null; initialized = false })
