-- ===== src/Ops/Generic.antt =====
-- The program examples/sgemm_generic.c: a caller that packs the arguments of sgemm for `vaccel_genop`.
use vaccel_google_test.Common.{ℕ, ◌*◌, ◌≡◌, refl, List, [], ◌∷◌}
use vaccel_google_test.Common.Memory.{Ptr, ok, ◌>>=◌}
use vaccel_google_test.Ops.State.{Arg, Machine}
use vaccel_google_test.Ops.Calls.{Sgemm, vaccel_sgemm}
use vaccel_google_test.Ops.Genop.{vaccel_genop}
use vaccel_google_test.Ops.Entry.{vaccel_genop-sgemm}

-- `M`, `N` and `K`, and `sizeof(float)`
abbrev pub rows : ℕ
rows = 512

abbrev pub columns : ℕ
columns = 512

abbrev pub inner : ℕ
inner = 512

abbrev float_bytes : ℕ
float_bytes = 4

-- The variables of `main` whose addresses are packed.
pub record SgemmBuffers : Type 0 where
  pub op_type : Ptr
  pub m : Ptr
  pub n : Ptr
  pub k : Ptr
  pub alpha : Ptr
  pub a : Ptr
  pub b : Ptr
  pub beta : Ptr
  pub c : Ptr

-- `read` and `write`
unfoldable pub sgemm_read : SgemmBuffers → List Arg
sgemm_read x =
    record { size = 4; buf = x.op_type }
    ∷ record { size = 4; buf = x.m }
    ∷ record { size = 4; buf = x.n }
    ∷ record { size = 4; buf = x.k }
    ∷ record { size = float_bytes; buf = x.alpha }
    ∷ record { size = float_bytes * rows * inner; buf = x.a }
    ∷ record { size = float_bytes * columns * inner; buf = x.b }
    ∷ record { size = float_bytes; buf = x.beta }
    ∷ []

unfoldable pub sgemm_write : SgemmBuffers → List Arg
sgemm_write x = record { size = float_bytes * rows * columns; buf = x.c } ∷ []

-- What the variables hold when `main` calls `vaccel_genop`: the op code of sgemm, `M`, `N` and `K` in
-- 64 bits, and the bits of the two floats.
pub record IsFilled (m : Machine) (x : SgemmBuffers) (alpha beta : ℕ) : Type 0 where
  pub op_word : m.load 4 x.op_type ≡ ok 1
  pub m_word : m.load 8 x.m ≡ ok rows
  pub n_word : m.load 8 x.n ≡ ok columns
  pub k_word : m.load 8 x.k ≡ ok inner
  pub alpha_word : m.load 4 x.alpha ≡ ok alpha
  pub beta_word : m.load 4 x.beta ≡ ok beta

-- The parameters that sgemm is called with: the leading dimensions are the sizes in bytes.
abbrev pub byte_sized : SgemmBuffers → (alpha beta : ℕ) → Sgemm
byte_sized x alpha beta = record {
  m = rows;
  n = columns;
  k = inner;
  alpha = alpha;
  a = x.a;
  lda = float_bytes * rows * inner;
  b = x.b;
  ldb = float_bytes * columns * inner;
  beta = beta;
  c = x.c;
  ldc = float_bytes * rows * columns;
}

-- The call of `vaccel_genop` in examples/sgemm_generic.c, where the variables hold the op code of
-- sgemm, the dimensions 512 and two floats, is `vaccel_sgemm` with these and the matrices, and
-- with the leading dimensions 4 * 512 * 512, the sizes of the matrices in bytes.
pub vaccel_genop-sgemm_generic :
    (garbage : Ptr) (m : Machine) (sess : Ptr) (x : SgemmBuffers) (alpha beta : ℕ)
    → (read_base write_base : Ptr) → IsFilled m x alpha beta
    → vaccel_genop garbage m sess
        (record { base = read_base; items = sgemm_read x })
        8
        (record { base = write_base; items = sgemm_write x })
        1
      ≡ (vaccel_sgemm m sess (byte_sized x alpha beta) >>= λ reply. ok (reply, m.image_op_stats))
unfolding sgemm_read sgemm_write
vaccel_genop-sgemm_generic garbage m sess x alpha beta read_base write_base filled =
    vaccel_genop-sgemm garbage m sess (byte_sized x alpha beta)
      (record { base = read_base; items = sgemm_read x })
      (record { base = write_base; items = sgemm_write x })
      (record {
        op = filled.op_word;
        m_word = filled.m_word;
        n_word = filled.n_word;
        k_word = filled.k_word;
        alpha_word = filled.alpha_word;
        a_arg = refl;
        b_arg = refl;
        beta_word = filled.beta_word;
        c_arg = refl;
      })
