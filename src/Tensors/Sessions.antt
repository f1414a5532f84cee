-- ===== src/Tensors/Sessions.antt =====
-- The operations on models of src/ops/tf.c, which are profiled, and of src/ops/torch.c.
use vaccel_google_test.Common.{ℕ, ◌++◌, some, ◌==◌, if◌then◌else◌, List, [], ◌∷◌}
use vaccel_google_test.Common.Code.{vaccel_einval}
use vaccel_google_test.Common.Memory.{Ptr, null, Outcome, ok, ◌>>=◌}
use vaccel_google_test.Plugins.{get_plugin_op}
use vaccel_google_test.Prof.State.{
  Env, Region, Line, vaccel_prof_region_start, vaccel_prof_region_stop, vaccel_prof_region_print,
}
use vaccel_google_test.Ops.State.{Machine, Reply, answer}
use vaccel_google_test.Ops.Calls.{call_plugin}
use vaccel_google_test.Ops.Image.{region_of, image_reply}

abbrev pub vaccel_tf_session_load_op : ℕ
vaccel_tf_session_load_op = 12

abbrev pub vaccel_tf_session_run_op : ℕ
vaccel_tf_session_run_op = 13

abbrev pub vaccel_tf_session_delete_op : ℕ
vaccel_tf_session_delete_op = 14

abbrev pub vaccel_torch_jitload_forward_op : ℕ
vaccel_torch_jitload_forward_op = 21

abbrev pub vaccel_torch_sgemm_op : ℕ
vaccel_torch_sgemm_op = 22

-- The shape of the operations that start their region: the reply, and the region afterwards.
abbrev profiled :
    (op : ℕ) → Machine → (stats : Region) → (sess : Ptr) (args : List ℕ) → Outcome (Reply × Region)
profiled op m stats sess args =
    if sess == null
    then ok (answer vaccel_einval, stats)
    else (vaccel_prof_region_start m.entering (some stats) >>= λ (_, begun).
        get_plugin_op op (m.hint sess) m.plugins >>= λ plugin_op.
        vaccel_prof_region_stop m.leaving begun >>= λ (_, ended).
        ok (image_reply plugin_op sess args, region_of ended stats))

unfoldable pub vaccel_tf_session_load :
    Machine → (tf_load_stats : Region) → (session model status : Ptr) → Outcome (Reply × Region)
vaccel_tf_session_load m tf_load_stats session model status =
    profiled vaccel_tf_session_load_op m tf_load_stats session (model ∷ status ∷ [])

unfoldable pub vaccel_tf_session_run :
    Machine
    → (tf_session_run_stats : Region)
    → (session model run_options in_nodes in_tensors : Ptr) (nr_inputs : ℕ)
    → (out_nodes out_tensors : Ptr) (nr_outputs : ℕ) (status : Ptr) → Outcome (Reply × Region)
vaccel_tf_session_run m tf_session_run_stats session model run_options in_nodes in_tensors nr_inputs
      out_nodes out_tensors nr_outputs status =
    profiled vaccel_tf_session_run_op m tf_session_run_stats session (
      model ∷ run_options ∷ in_nodes ∷ in_tensors ∷ nr_inputs ∷ out_nodes ∷ out_tensors ∷ nr_outputs
      ∷ status ∷ [])

-- The region is stopped, and was not started.
unfoldable pub vaccel_tf_session_delete :
    Machine
    → (tf_session_delete_stats : Region) → (session model status : Ptr) → Outcome (Reply × Region)
vaccel_tf_session_delete m tf_session_delete_stats session model status =
    if session == null
    then ok (answer vaccel_einval, tf_session_delete_stats)
    else (get_plugin_op vaccel_tf_session_delete_op (m.hint session) m.plugins >>= λ plugin_op.
        vaccel_prof_region_stop m.leaving (some tf_session_delete_stats) >>= λ (_, ended). ok (
          image_reply plugin_op session (model ∷ status ∷ []),
          region_of ended tf_session_delete_stats,
        ))

unfoldable pub vaccel_torch_jitload_forward :
    Machine
    → (sess model run_options in_tensor : Ptr) (nr_read : ℕ) (out_tensor : Ptr) (nr_write : ℕ)
    → Outcome Reply
vaccel_torch_jitload_forward m sess model run_options in_tensor nr_read out_tensor nr_write =
    call_plugin vaccel_torch_jitload_forward_op m sess
      (model ∷ run_options ∷ in_tensor ∷ nr_read ∷ out_tensor ∷ nr_write ∷ [])

unfoldable pub vaccel_torch_sgemm :
    Machine → (sess in_a in_b in_c : Ptr) (m n k : ℕ) (out : Ptr) → Outcome Reply
vaccel_torch_sgemm machine sess in_a in_b in_c m n k out =
    call_plugin vaccel_torch_sgemm_op machine sess (in_a ∷ in_b ∷ in_c ∷ m ∷ n ∷ k ∷ out ∷ [])

-- The destructor of tf.c: what it prints of the three regions.
unfoldable pub vaccel_tf_ops_fini :
    Env
    → (tf_load_stats tf_session_run_stats tf_session_delete_stats : Region) → Outcome (List Line)
vaccel_tf_ops_fini env tf_load_stats tf_session_run_stats tf_session_delete_stats =
    vaccel_prof_region_print env (some tf_load_stats) >>= λ (_, load).
    vaccel_prof_region_print env (some tf_session_run_stats) >>= λ (_, run).
    vaccel_prof_region_print env (some tf_session_delete_stats) >>= λ (_, deleted).
    ok (load ++ (run ++ deleted))
