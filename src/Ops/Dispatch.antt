-- ===== src/Ops/Dispatch.antt =====
-- The operations of src/ops reach the function that plugin.c chooses.
use vaccel_google_test.Common.{ℕ, ◌≤◌, ◌≡◌, ◌≢◌, ◌⊎◌, List, [], ◌∷◌, arith, ◌==◌, false}
use vaccel_google_test.Common.Code.{vaccel_einval, vaccel_enotsup}
use vaccel_google_test.Common.Memory.{Ptr, null, ok}
use vaccel_google_test.Plugins.{get_plugin_op, functions_nr}
use vaccel_google_test.Plugins.Wellformed.{Wellformed}
use vaccel_google_test.Plugins.Lookup.{AllInfo, Chosen, get_plugin_op-Chosen, get_plugin_op-null}
use vaccel_google_test.Ops.State.{Machine, answer, plugin}
use vaccel_google_test.Ops.Calls.{call_plugin}

call_plugin_found :
    (t : ℕ) (m : Machine) (sess : Ptr) (args : List ℕ) (f : Ptr)
    → sess ≢ null
    → f ≢ null
    → get_plugin_op t (m.hint sess) m.plugins ≡ ok f
    → call_plugin t m sess args ≡ ok (plugin f (sess ∷ args))
unfolding call_plugin
call_plugin_found t m sess args f ne some_f e =
    let given : (sess == null) ≡ false = ground arith in
    let found : (f == null) ≡ false = ground arith in rw (given, e, found)

-- With a session and a well-formed registry, an operation that has an implementation, all of
-- whose plugins have an info, calls the function of the one that the session's hint selects, with
-- the session and the arguments.
pub call_plugin-Chosen :
    (t : ℕ) (m : Machine) (sess : Ptr) (args : List ℕ) (first : Ptr) (rest : List Ptr)
    → sess ≢ null
    → Wellformed m.plugins
    → m.plugins.ops t ≡ first ∷ rest
    → AllInfo m.plugins (first ∷ rest)
    → (o : Ptr) × (call_plugin t m sess args ≡ ok (plugin (m.plugins.op o).func (sess ∷ args)))
      × Chosen (m.hint sess) m.plugins first (first ∷ rest) o
      × ((m.plugins.op o).type ≡ t)
call_plugin-Chosen t m sess args first rest ne w e infos =
    let (o, found, chosen, member, type, func) =
      get_plugin_op-Chosen t (m.hint sess) m.plugins first rest w e infos in
    (o, call_plugin_found t m sess args (m.plugins.op o).func ne func found, chosen, type)

-- An operation of an unknown type, or one that no plugin implements, answers EINVAL without a
-- session, and ENOTSUP with one.
pub call_plugin-refused :
    (t : ℕ) (m : Machine) (sess : Ptr) (args : List ℕ)
    → sess ≢ null
    → (functions_nr ≤ t) ⊎ (m.plugins.ops t ≡ [])
    → (call_plugin t m null args ≡ ok (answer vaccel_einval))
      × (call_plugin t m sess args ≡ ok (answer vaccel_enotsup))
unfolding call_plugin
call_plugin-refused t m sess args ne none =
    let given : (sess == null) ≡ false = ground arith in
    (ground arith, rw (given, get_plugin_op-null t (m.hint sess) m.plugins none))
