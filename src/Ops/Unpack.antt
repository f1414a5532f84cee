-- ===== src/Ops/Unpack.antt =====
-- The functions of src/ops that take an operation's parameters from generic arguments. A count is
-- an `int`, held as its 32 bits.
use vaccel_google_test.Common.{to_size, ℕ, ◌-◌, ◌/◌, Bool, ◌||◌, not, ltb, ◌==◌, if◌then◌else◌}
use vaccel_google_test.Common.Code.{vaccel_ok, vaccel_einval}
use vaccel_google_test.Common.Memory.{Ptr, null, Outcome, ok, ◌>>=◌}
use vaccel_google_test.IdPool.{is_negative_int}
use vaccel_google_test.Resources.{resource_get_by_id}
use vaccel_google_test.Ops.State.{Args, Machine, Reply, answer, arg, after}
use vaccel_google_test.Ops.Calls.{
  vaccel_noop, vaccel_sgemm, vaccel_minmax, vaccel_opencv, vaccel_exec, vaccel_fpga_arraycopy,
  vaccel_fpga_mmult, vaccel_fpga_parallel, vaccel_fpga_vadd,
}

-- `unpack_func_t`
abbrev pub UnpackFunc : Type 0
UnpackFunc =
    Machine → (sess : Ptr) (read : Args) (nr_read : ℕ) (write : Args) (nr_write : ℕ) → Outcome Reply

-- The word of the given width that an argument points at.
abbrev pub load_arg : Machine → ℕ → Args → ℕ → Outcome ℕ
load_arg m width a i = arg a i >>= λ x. m.load width x.buf

-- The guards of the functions that want an exact number of arguments.
abbrev pub counted : (nr_read want_read nr_write want_write : ℕ) → Outcome Reply → Outcome Reply
counted nr_read want_read nr_write want_write go =
    if not (nr_read == want_read)
    then ok (answer vaccel_einval)
    else if not (nr_write == want_write)
    then ok (answer vaccel_einval)
    else go

unfoldable pub vaccel_noop_unpack : UnpackFunc
vaccel_noop_unpack m sess read nr_read write nr_write =
    if not (nr_read == 0) || not (read.base == null)
    then ok (answer vaccel_einval)
    else if not (nr_write == 0) || not (write.base == null)
    then ok (answer vaccel_einval)
    else vaccel_noop m sess

unfoldable pub vaccel_sgemm_unpack : UnpackFunc
vaccel_sgemm_unpack mem sess read nr_read write nr_write = counted nr_read 7 nr_write 1 (
    load_arg mem 8 read 0 >>= λ m. load_arg mem 8 read 1 >>= λ n. load_arg mem 8 read 2 >>= λ k.
    load_arg mem 4 read 3 >>= λ alpha. arg read 4 >>= λ a. arg read 5 >>= λ b.
    load_arg mem 4 read 6 >>= λ beta. arg write 0 >>= λ c. vaccel_sgemm mem sess (record {
      m = m;
      n = n;
      k = k;
      alpha = alpha;
      a = a.buf;
      lda = a.size;
      b = b.buf;
      ldb = b.size;
      beta = beta;
      c = c.buf;
      ldc = c.size;
    }))

unfoldable pub vaccel_minmax_unpack : UnpackFunc
vaccel_minmax_unpack m sess read nr_read write nr_write = counted nr_read 4 nr_write 3 (
    arg read 0 >>= λ indata. load_arg m 4 read 1 >>= λ ndata. load_arg m 4 read 2 >>= λ low.
    load_arg m 4 read 3 >>= λ high. arg write 0 >>= λ outdata. arg write 1 >>= λ min.
    arg write 2 >>= λ max.
    vaccel_minmax m sess indata.buf ndata low high outdata.buf min.buf max.buf)

unfoldable pub vaccel_opencv_unpack : UnpackFunc
vaccel_opencv_unpack m sess read nr_read write nr_write =
    vaccel_opencv m sess read nr_read write nr_write

-- `nr_read < 2` on signed numbers.
abbrev pub fewer_than_two : ℕ → Bool
fewer_than_two n = is_negative_int n || ltb n 2

unfoldable pub vaccel_exec_unpack : UnpackFunc
vaccel_exec_unpack m sess read nr_read write nr_write =
    if fewer_than_two nr_read
    then ok (answer vaccel_einval)
    else (arg read 0 >>= λ library. arg read 1 >>= λ fn_symbol.
        vaccel_exec m sess library.buf fn_symbol.buf (after 2 read) (nr_read - 2) write
          (to_size nr_write))

-- `garbage` is what the variable `resource` holds before the lookup.
unfoldable pub vaccel_exec_with_res_unpack : (garbage : Ptr) → UnpackFunc
vaccel_exec_with_res_unpack garbage m sess read nr_read write nr_write =
    if fewer_than_two nr_read
    then ok (answer vaccel_einval)
    else (load_arg m 8 read 0 >>= λ id.
        let (ret, resource) = resource_get_by_id garbage id m.resources in
        let object = (m.resources.res resource).data_ptr in
        if not (ret == vaccel_ok)
        then ok (answer ret)
        else if object == null
        then ok (answer vaccel_einval)
        else (m.shared_object_path object >>= λ library. arg read 1 >>= λ fn_symbol.
            vaccel_exec m sess library fn_symbol.buf (after 2 read) (nr_read - 2) write
              (to_size nr_write)))

unfoldable pub vaccel_fpga_arraycopy_unpack : UnpackFunc
vaccel_fpga_arraycopy_unpack m sess read nr_read write nr_write = counted nr_read 1 nr_write 1 (
    arg read 0 >>= λ array. arg write 0 >>= λ out_array.
    vaccel_fpga_arraycopy m sess array.buf out_array.buf (array.size / 4))

-- The length that is passed on is the first array's address.
unfoldable pub vaccel_fpga_mmult_unpack : UnpackFunc
vaccel_fpga_mmult_unpack m sess read nr_read write nr_write = counted nr_read 2 nr_write 1 (
    arg read 0 >>= λ a.
    arg read 1 >>= λ b. arg write 0 >>= λ c. vaccel_fpga_mmult m sess a.buf b.buf c.buf a.buf)

unfoldable pub vaccel_fpga_parallel_unpack : UnpackFunc
vaccel_fpga_parallel_unpack m sess read nr_read write nr_write = counted nr_read 2 nr_write 2 (
    arg read 0 >>= λ a. arg read 1 >>= λ b. arg write 0 >>= λ add.
    arg write 1 >>= λ mult. vaccel_fpga_parallel m sess a.buf b.buf add.buf mult.buf (a.size / 4))

unfoldable pub vaccel_fpga_vadd_unpack : UnpackFunc
vaccel_fpga_vadd_unpack m sess read nr_read write nr_write = counted nr_read 2 nr_write 1 (
    arg read 0 >>= λ a. arg read 1 >>= λ b.
    arg write 0 >>= λ c. vaccel_fpga_vadd m sess a.buf b.buf c.buf (a.size / 4) (b.size / 4))
