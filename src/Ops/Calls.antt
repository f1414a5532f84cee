-- ===== src/Ops/Calls.antt =====
-- The operations of noop.c, blas.c, minmax.c, opencv.c, exec.c and fpga.c under src/ops.
use vaccel_google_test.Common.{ℕ, ◌==◌, if◌then◌else◌, List, [], ◌∷◌}
use vaccel_google_test.Common.Code.{vaccel_einval, vaccel_enotsup}
use vaccel_google_test.Common.Memory.{Ptr, null, Outcome, ok, ◌>>=◌}
use vaccel_google_test.Plugins.{get_plugin_op}
use vaccel_google_test.Ops.State.{
  Args, Machine, Reply, answer, plugin, vaccel_no_op, vaccel_blas_sgemm, vaccel_exec_op,
  vaccel_minmax_op, vaccel_f_arraycopy, vaccel_f_mmult, vaccel_f_parallel, vaccel_f_vectoradd,
  vaccel_exec_with_resource_op, vaccel_opencv_op,
}

-- The shape of every operation: without a session there is nothing to do, without a plugin the
-- operation is not supported, and the plugin gets the session and the arguments.
unfoldable pub call_plugin : (op : ℕ) → Machine → (sess : Ptr) → List ℕ → Outcome Reply
call_plugin op m sess args =
    if sess == null
    then ok (answer vaccel_einval)
    else (get_plugin_op op (m.hint sess) m.plugins >>= λ plugin_op.
        if plugin_op == null
        then ok (answer vaccel_enotsup)
        else ok (plugin plugin_op (sess ∷ args)))

unfoldable pub vaccel_noop : Machine → (sess : Ptr) → Outcome Reply
vaccel_noop m sess = call_plugin vaccel_no_op m sess []

-- The scalars and arrays of `vaccel_sgemm`, in the order of its parameters.
pub record Sgemm : Type 0 where
  pub m : ℕ
  pub n : ℕ
  pub k : ℕ
  pub alpha : ℕ
  pub a : Ptr
  pub lda : ℕ
  pub b : Ptr
  pub ldb : ℕ
  pub beta : ℕ
  pub c : Ptr
  pub ldc : ℕ

unfoldable pub vaccel_sgemm : Machine → (sess : Ptr) → Sgemm → Outcome Reply
vaccel_sgemm m sess g =
    call_plugin vaccel_blas_sgemm m sess
      (g.m ∷ g.n ∷ g.k ∷ g.alpha ∷ g.a ∷ g.lda ∷ g.b ∷ g.ldb ∷ g.beta ∷ g.c ∷ g.ldc ∷ [])

unfoldable pub vaccel_minmax :
    Machine
    → (sess indata : Ptr) (ndata low_threshold high_threshold : ℕ) (outdata min max : Ptr)
    → Outcome Reply
vaccel_minmax m sess indata ndata low_threshold high_threshold outdata min max =
    call_plugin vaccel_minmax_op m sess
      (indata ∷ ndata ∷ low_threshold ∷ high_threshold ∷ outdata ∷ min ∷ max ∷ [])

unfoldable pub vaccel_opencv :
    Machine → (sess : Ptr) (read : Args) (nr_read : ℕ) (write : Args) (nr_write : ℕ) → Outcome Reply
vaccel_opencv m sess read nr_read write nr_write =
    call_plugin vaccel_opencv_op m sess (read.base ∷ nr_read ∷ write.base ∷ nr_write ∷ [])

unfoldable pub vaccel_exec :
    Machine
    → (sess library fn_symbol : Ptr) (read : Args) (nr_read : ℕ) (write : Args) (nr_write : ℕ)
    → Outcome Reply
vaccel_exec m sess library fn_symbol read nr_read write nr_write =
    call_plugin vaccel_exec_op m sess
      (library ∷ fn_symbol ∷ read.base ∷ nr_read ∷ write.base ∷ nr_write ∷ [])

unfoldable pub vaccel_exec_with_resource :
    Machine
    → (sess object fn_symbol : Ptr) (read : Args) (nr_read : ℕ) (write : Args) (nr_write : ℕ)
    → Outcome Reply
vaccel_exec_with_resource m sess object fn_symbol read nr_read write nr_write =
    call_plugin vaccel_exec_with_resource_op m sess
      (object ∷ fn_symbol ∷ read.base ∷ nr_read ∷ write.base ∷ nr_write ∷ [])

unfoldable pub vaccel_fpga_arraycopy :
    Machine → (sess array out_array : Ptr) (len_array : ℕ) → Outcome Reply
vaccel_fpga_arraycopy m sess array out_array len_array =
    call_plugin vaccel_f_arraycopy m sess (array ∷ out_array ∷ len_array ∷ [])

unfoldable pub vaccel_fpga_mmult :
    Machine → (sess a_array b_array c_array : Ptr) (len_a : ℕ) → Outcome Reply
vaccel_fpga_mmult m sess a_array b_array c_array len_a =
    call_plugin vaccel_f_mmult m sess (a_array ∷ b_array ∷ c_array ∷ len_a ∷ [])

unfoldable pub vaccel_fpga_parallel :
    Machine → (sess a_array b_array add_output mult_output : Ptr) (len_a : ℕ) → Outcome Reply
vaccel_fpga_parallel m sess a_array b_array add_output mult_output len_a =
    call_plugin vaccel_f_parallel m sess (a_array ∷ b_array ∷ add_output ∷ mult_output ∷ len_a ∷ [])

unfoldable pub vaccel_fpga_vadd : Machine → (sess a b c : Ptr) (len_a len_b : ℕ) → Outcome Reply
vaccel_fpga_vadd m sess a b c len_a len_b =
    call_plugin vaccel_f_vectoradd m sess (a ∷ b ∷ c ∷ len_a ∷ len_b ∷ [])
