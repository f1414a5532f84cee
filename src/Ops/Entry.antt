-- ===== src/Ops/Entry.antt =====
-- What a caller of `vaccel_genop` reaches.
use vaccel_google_test.Common.{
  to_size, ℕ, zero, suc, ◌+◌, ◌-◌, ◌%◌, ◌^◌, ◌≤◌, ◌<◌, ◌≡◌, ◌≢◌, refl, subst, ◌⊎◌, inl, inr,
  Bool-cases, some, List, [], ◌∷◌, arith, leb, ◌==◌, true, false, has, length, get_elem?,
}
use vaccel_google_test.Common.Code.{vaccel_einval}
use vaccel_google_test.Common.Memory.{Ptr, null, ok, ◌>>=◌}
use vaccel_google_test.Plugins.{functions_nr}
use vaccel_google_test.Ops.State.{Arg, Args, Machine, answer, arg, after, vaccel_exec_op}
use vaccel_google_test.Ops.Calls.{Sgemm, vaccel_sgemm, vaccel_exec}
use vaccel_google_test.Ops.Unpack.{
  load_arg, fewer_than_two, vaccel_noop_unpack, vaccel_sgemm_unpack, vaccel_exec_unpack,
  vaccel_fpga_mmult_unpack,
}
use vaccel_google_test.Ops.Image.{ProfiledFunc}
use vaccel_google_test.Ops.Genop.{callbacks, callback, unprofiled, vaccel_genop}

length-callbacks : (garbage : Ptr) → length (callbacks garbage) ≡ functions_nr
unfolding callbacks
length-callbacks garbage = refl

get_elem?-inside :
    {A : Type 0} (xs : List A) (i : ℕ) → i < length xs → (x : A) × (get_elem? xs i ≡ some x)
get_elem?-inside [] i h = elim h [ ]
get_elem?-inside (x ∷ xs) zero h = (x, refl)
get_elem?-inside (x ∷ xs) (suc i) h = get_elem?-inside xs i (omega arith)

-- With arguments, the first of which holds an op code, `vaccel_genop` refuses a code that is not
-- below `VACCEL_FUNCTIONS_NR` with EINVAL; for any other one the table has an entry, which is
-- called with one argument less.
pub vaccel_genop-callback :
    (garbage : Ptr) (m : Machine) (sess : Ptr) (read : Args) (nr_read : ℕ) (write : Args)
    → (nr_write op : ℕ) → nr_read ≢ 0
    → nr_read < 2 ^ 32
    → load_arg m 4 read 0 ≡ ok op
    → ((functions_nr ≤ op)
        × (vaccel_genop garbage m sess read nr_read write nr_write
            ≡ ok (answer vaccel_einval, m.image_op_stats)))
      ⊎ ((op < functions_nr)
          × (f : ProfiledFunc) × (callback garbage op ≡ ok f)
          × (vaccel_genop garbage m sess read nr_read write nr_write
              ≡ f m sess (after 1 read) (nr_read - 1) write nr_write))
unfolding vaccel_genop
vaccel_genop-callback garbage m sess read nr_read write nr_write op some_args int e =
    let given : (nr_read == 0) ≡ false = ground arith in
    elim (Bool-cases (leb functions_nr op)) [
      | inl big ↦ inl (ground arith, rw (vaccel_genop, given, e, big))
      | inr small ↦
          let below : op < functions_nr = ground arith in
          let (f, found) =
            get_elem?-inside (callbacks garbage) op (rw (length-callbacks garbage) below) in
          let entry : callback garbage op ≡ ok f = rw (callback, found) in
          let count : (nr_read + (2 ^ 32 - 1)) % 2 ^ 32 ≡ nr_read - 1 = omega arith in
          inr (below, f, entry, rw (vaccel_genop, given, e, small, entry, count))
    ]

-- The op codes whose entry in the table is `vaccel_noop_unpack`.
abbrev pub noop_entries : List ℕ
noop_entries = 0 ∷ 8 ∷ 9 ∷ 10 ∷ 11 ∷ 12 ∷ 13 ∷ 14 ∷ 21 ∷ 22 ∷ []

-- The entry at `op` is there, and is the one for the no-op.
abbrev IsNoop : Ptr → ℕ → Type 0
IsNoop garbage op =
    (leb functions_nr op ≡ false) × (callback garbage op ≡ ok (unprofiled vaccel_noop_unpack))

data Each (P : ℕ → Type 0) : List ℕ → Type 0 where
  stop : Each P []
  also : {x : ℕ} {xs : List ℕ} → P x → Each P xs → Each P (x ∷ xs)

each_has : (P : ℕ → Type 0) (op : ℕ) (xs : List ℕ) → Each P xs → has op xs ≡ true → P op
each_has P op [] all h = ground arith
each_has P op (x ∷ xs) (also p all) h = elim (Bool-cases (x == op)) [
  | inl same ↦ subst P (ground arith) p
  | inr other ↦ each_has P op xs all (ground arith)
]

noop_entries-IsNoop : (garbage : Ptr) → Each (IsNoop garbage) noop_entries
unfolding callbacks
noop_entries-IsNoop garbage =
    also (refl, refl)
      (also (refl, refl)
        (also (refl, refl)
          (also (refl, refl)
            (also (refl, refl)
              (also (refl, refl)
                (also (refl, refl)
                  (also (refl, refl) (also (refl, refl) (also (refl, refl) stop)))))))))

has-IsNoop : (garbage : Ptr) (op : ℕ) → has op noop_entries ≡ true → IsNoop garbage op
has-IsNoop garbage op h = each_has (IsNoop garbage) op noop_entries (noop_entries-IsNoop garbage) h

noop_refuses :
    (m : Machine) (sess : Ptr) (read : Args) (nr_read : ℕ) (write : Args) (nr_write : ℕ)
    → read.base ≢ null
    → vaccel_noop_unpack m sess read nr_read write nr_write ≡ ok (answer vaccel_einval)
unfolding vaccel_noop_unpack
noop_refuses m sess read nr_read write nr_write ne = ground arith

-- Where the first argument holds an op code whose entry in the table is `vaccel_noop_unpack`,
-- that of the no-op included, `vaccel_genop` answers EINVAL, however many arguments are given.
vaccel_genop-noop :
    (garbage : Ptr) (m : Machine) (sess : Ptr) (read : Args) (nr_read : ℕ) (write : Args)
    → (nr_write op : ℕ) → load_arg m 4 read 0 ≡ ok op
    → has op noop_entries ≡ true
    → vaccel_genop garbage m sess read nr_read write nr_write
      ≡ ok (answer vaccel_einval, m.image_op_stats)
unfolding vaccel_genop
vaccel_genop-noop garbage m sess read nr_read write nr_write op e noop =
    let (known, entry) = has-IsNoop garbage op noop in
    let count = (nr_read + (2 ^ 32 - 1)) % 2 ^ 32 in
    let refused = noop_refuses m sess (after 1 read) count write nr_write (ground arith) in
    elim (Bool-cases (nr_read == 0)) [
      | inl no_args ↦ rw (vaccel_genop, no_args)
      | inr some_args ↦ rw (vaccel_genop, some_args, e, known, entry, refused)
    ]

-- A caller who packs the op code and the parameters of `vaccel_sgemm` into arguments.
pub record SgemmPacked (m : Machine) (g : Sgemm) (read write : Args) : Type 0 where
  pub op : load_arg m 4 read 0 ≡ ok 1
  pub m_word : load_arg m 8 (after 1 read) 0 ≡ ok g.m
  pub n_word : load_arg m 8 (after 1 read) 1 ≡ ok g.n
  pub k_word : load_arg m 8 (after 1 read) 2 ≡ ok g.k
  pub alpha_word : load_arg m 4 (after 1 read) 3 ≡ ok g.alpha
  pub a_arg : arg (after 1 read) 4 ≡ ok (record { size = g.lda; buf = g.a })
  pub b_arg : arg (after 1 read) 5 ≡ ok (record { size = g.ldb; buf = g.b })
  pub beta_word : load_arg m 4 (after 1 read) 6 ≡ ok g.beta
  pub c_arg : arg write 0 ≡ ok (record { size = g.ldc; buf = g.c })

-- `vaccel_genop` with the packed op code and parameters of `vaccel_sgemm`, eight arguments to
-- read and one to write, is `vaccel_sgemm` with these parameters.
pub vaccel_genop-sgemm :
    (garbage : Ptr) (m : Machine) (sess : Ptr) (g : Sgemm) (read write : Args)
    → SgemmPacked m g read write
    → vaccel_genop garbage m sess read 8 write 1
      ≡ (vaccel_sgemm m sess g >>= λ reply. ok (reply, m.image_op_stats))
unfolding vaccel_genop callbacks vaccel_sgemm_unpack
vaccel_genop-sgemm garbage m sess g read write p = rw (
  vaccel_genop, p.op, p.m_word, p.n_word, p.k_word, p.alpha_word, p.a_arg, p.b_arg, p.beta_word,
  p.c_arg,
)

exec_unpack_lem :
    (m : Machine) (sess : Ptr) (library symbol : Arg) (rest : List Arg) (base : Ptr) (n : ℕ)
    → (write : Args) (nr_write : ℕ) → n + 3 < 2 ^ 31
    → vaccel_exec_unpack m sess
        (record { base = base + 16; items = library ∷ symbol ∷ rest })
        (n + 2)
        write
        nr_write
      ≡ vaccel_exec m sess library.buf symbol.buf
          (record { base = base + 48; items = rest })
          n
          write
          (to_size nr_write)
unfolding vaccel_exec_unpack
exec_unpack_lem m sess library symbol rest base n write nr_write int =
    let many : fewer_than_two (n + 2) ≡ false = ground arith in
    let further : base + 16 + 32 ≡ base + 48 = omega arith in
    let left : (n + 2) - 2 ≡ n = omega arith in rw (vaccel_exec_unpack, many, further, left)

-- `vaccel_genop` with the op code of exec, a library, a symbol and `n` further arguments, `n + 3`
-- below 2^31, is `vaccel_exec` of these, with the further arguments passed on.
vaccel_genop-exec :
    (garbage : Ptr) (m : Machine) (sess : Ptr) (op_arg library symbol : Arg) (rest : List Arg)
    (base : Ptr)
    → (n : ℕ) (write : Args) (nr_write : ℕ) → n + 3 < 2 ^ 31
    → m.load 4 op_arg.buf ≡ ok vaccel_exec_op
    → vaccel_genop garbage m sess
        (record { base = base; items = op_arg ∷ library ∷ symbol ∷ rest })
        (n + 3)
        write
        nr_write
      ≡ (vaccel_exec m sess library.buf symbol.buf
            (record { base = base + 48; items = rest })
            n
            write
            (to_size nr_write)
          >>= λ reply. ok (reply, m.image_op_stats))
unfolding vaccel_genop callbacks
vaccel_genop-exec garbage m sess op_arg library symbol rest base n write nr_write int e =
    let given : (n + 3 == 0) ≡ false = ground arith in
    let count : (n + 3 + (2 ^ 32 - 1)) % 2 ^ 32 ≡ n + 2 = omega arith in
    rw (
      vaccel_genop,
      given,
      e,
      count,
      exec_unpack_lem m sess library symbol rest base n write nr_write int,
    )

-- The number of elements that `vaccel_fpga_mmult_unpack` passes on does not depend on the size of
-- the first argument: it is the argument's address.
pub vaccel_fpga_mmult_unpack-size :
    (m : Machine) (sess : Ptr) (size size' : ℕ) (a b base : Ptr) (rest : List Arg) (bsize : ℕ)
    → (write : Args) (nr_read nr_write : ℕ)
    → vaccel_fpga_mmult_unpack m sess
        (record {
          base = base;
          items = record { size = size; buf = a } ∷ record { size = bsize; buf = b } ∷ rest;
        })
        nr_read
        write
        nr_write
      ≡ vaccel_fpga_mmult_unpack m sess
          (record {
            base = base;
            items = record { size = size'; buf = a } ∷ record { size = bsize; buf = b } ∷ rest;
          })
          nr_read
          write
          nr_write
unfolding vaccel_fpga_mmult_unpack
vaccel_fpga_mmult_unpack-size m sess size size' a b base rest bsize write nr_read nr_write = refl
