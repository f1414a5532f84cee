-- ===== src/Tensors/Unrecorded.antt =====
-- The region of `vaccel_tf_session_delete`, which nothing starts.
use vaccel_google_test.Common.{◌≡◌, ◌≢◌, arith, Bool-cases, inl, inr, [], ◌∷◌}
use vaccel_google_test.Common.Memory.{Ptr, null, ok}
use vaccel_google_test.Plugins.{get_plugin_op}
use vaccel_google_test.Prof.State.{Region, vaccel_prof_region_stop}
use vaccel_google_test.Prof.Stops.{stop_region-none}
use vaccel_google_test.Ops.State.{Machine}
use vaccel_google_test.Ops.Image.{image_reply}
use vaccel_google_test.Tensors.Sessions.{vaccel_tf_session_delete, vaccel_tf_session_delete_op}

-- Whether profiling is enabled or not, `vaccel_tf_session_delete` leaves a region that has no sample
-- as it is: however often it runs, no call of it is ever timed. The reply is the plugin's, or ENOTSUP
-- without a plugin.
pub vaccel_tf_session_delete-unrecorded :
    (m : Machine) (stats : Region) (session model status f : Ptr)
    → session ≢ null
    → stats.nr_entries ≡ 0
    → get_plugin_op vaccel_tf_session_delete_op (m.hint session) m.plugins ≡ ok f
    → vaccel_tf_session_delete m stats session model status
      ≡ ok (image_reply f session (model ∷ status ∷ []), stats)
unfolding vaccel_tf_session_delete vaccel_prof_region_stop
vaccel_tf_session_delete-unrecorded m stats session model status f given empty found =
    elim (Bool-cases m.leaving.enabled) [
      | inl on ↦ ground (arith, given, found, on, stop_region-none m.leaving stats empty)
      | inr off ↦ ground (arith, given, found, off)
    ]
