-- ===== src/Ops/Genop.antt =====
-- src/ops/genop.c: the table of the unpacking functions, and the generic entry.
use vaccel_google_test.Common.{
  ℕ, ◌+◌, ◌-◌, ◌%◌, ◌^◌, leb, ◌==◌, if◌then◌else◌, none, some, List, [], ◌∷◌, get_elem?,
}
use vaccel_google_test.Common.Code.{vaccel_einval}
use vaccel_google_test.Common.Memory.{Ptr, Outcome, ok, fault, ◌>>=◌}
use vaccel_google_test.Plugins.{functions_nr}
use vaccel_google_test.Prof.State.{Region}
use vaccel_google_test.Ops.State.{Args, Machine, Reply, answer, after}
use vaccel_google_test.Ops.Unpack.{
  UnpackFunc, load_arg, vaccel_noop_unpack, vaccel_sgemm_unpack, vaccel_minmax_unpack,
  vaccel_opencv_unpack, vaccel_exec_unpack, vaccel_exec_with_res_unpack,
  vaccel_fpga_arraycopy_unpack, vaccel_fpga_mmult_unpack, vaccel_fpga_parallel_unpack,
  vaccel_fpga_vadd_unpack,
}
use vaccel_google_test.Ops.Image.{
  ProfiledFunc, vaccel_image_classification_unpack, vaccel_image_detection_unpack,
  vaccel_image_segmentation_unpack, vaccel_image_pose_unpack, vaccel_image_depth_unpack,
}

-- An operation that leaves the profile of the image operations alone.
abbrev pub unprofiled : UnpackFunc → ProfiledFunc
unprofiled f m sess read nr_read write nr_write =
    f m sess read nr_read write nr_write >>= λ reply. ok (reply, m.image_op_stats)

-- The table, and the garbage that the variable of `vaccel_exec_with_res_unpack` holds.
unfoldable pub callbacks : (garbage : Ptr) → List ProfiledFunc
callbacks garbage =
    unprofiled vaccel_noop_unpack
    ∷ unprofiled vaccel_sgemm_unpack
    ∷ vaccel_image_classification_unpack
    ∷ vaccel_image_detection_unpack
    ∷ vaccel_image_segmentation_unpack
    ∷ vaccel_image_pose_unpack
    ∷ vaccel_image_depth_unpack
    ∷ unprofiled vaccel_exec_unpack
    ∷ unprofiled vaccel_noop_unpack
    ∷ unprofiled vaccel_noop_unpack
    ∷ unprofiled vaccel_noop_unpack
    ∷ unprofiled vaccel_noop_unpack
    ∷ unprofiled vaccel_noop_unpack
    ∷ unprofiled vaccel_noop_unpack
    ∷ unprofiled vaccel_noop_unpack
    ∷ unprofiled vaccel_minmax_unpack
    ∷ unprofiled vaccel_fpga_arraycopy_unpack
    ∷ unprofiled vaccel_fpga_mmult_unpack
    ∷ unprofiled vaccel_fpga_parallel_unpack
    ∷ unprofiled vaccel_fpga_vadd_unpack
    ∷ unprofiled (vaccel_exec_with_res_unpack garbage)
    ∷ unprofiled vaccel_noop_unpack
    ∷ unprofiled vaccel_noop_unpack
    ∷ unprofiled vaccel_opencv_unpack
    ∷ []

-- The entry of the table; reading past it is a fault.
abbrev pub callback : Ptr → ℕ → Outcome ProfiledFunc
callback garbage op = elim (get_elem? (callbacks garbage) op) [ none ↦ fault | some f ↦ ok f ]

unfoldable pub vaccel_genop :
    (garbage : Ptr)
    → Machine
    → (sess : Ptr) (read : Args) (nr_read : ℕ) (write : Args) → (nr_write : ℕ)
    → Outcome (Reply × Region)
vaccel_genop garbage m sess read nr_read write nr_write =
    if nr_read == 0
    then ok (answer vaccel_einval, m.image_op_stats)
    else (load_arg m 4 read 0 >>= λ op.
        if leb functions_nr op
        then ok (answer vaccel_einval, m.image_op_stats)
        else (callback garbage op >>= λ f.
            f m sess (after 1 read) ((nr_read + (2 ^ 32 - 1)) % 2 ^ 32) write nr_write))
