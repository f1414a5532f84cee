-- ===== src/Ops/State.antt =====
-- What the operations of src/ops share: the op codes (src/include/ops/vaccel_ops.h), the generic
-- arguments (src/include/ops/genop.h), and the way they end.
use vaccel_google_test.Common.{ℕ, ◌+◌, ◌*◌, none, some, List, [], ◌∷◌, get_elem?, zero, suc}
use vaccel_google_test.Common.Code.{Code}
use vaccel_google_test.Common.Memory.{Ptr, Outcome, ok, fault}
use vaccel_google_test.Plugins.{PluginState}
use vaccel_google_test.Prof.State.{Env, Region}
use vaccel_google_test.Resources.{ResourceState}

abbrev pub vaccel_no_op : ℕ
vaccel_no_op = 0

abbrev pub vaccel_blas_sgemm : ℕ
vaccel_blas_sgemm = 1

abbrev pub vaccel_img_class : ℕ
vaccel_img_class = 2

abbrev pub vaccel_img_detec : ℕ
vaccel_img_detec = 3

abbrev pub vaccel_img_segme : ℕ
vaccel_img_segme = 4

abbrev pub vaccel_img_pose : ℕ
vaccel_img_pose = 5

abbrev pub vaccel_img_depth : ℕ
vaccel_img_depth = 6

abbrev pub vaccel_exec_op : ℕ
vaccel_exec_op = 7

abbrev pub vaccel_minmax_op : ℕ
vaccel_minmax_op = 15

abbrev pub vaccel_f_arraycopy : ℕ
vaccel_f_arraycopy = 16

abbrev pub vaccel_f_mmult : ℕ
vaccel_f_mmult = 17

abbrev pub vaccel_f_parallel : ℕ
vaccel_f_parallel = 18

abbrev pub vaccel_f_vectoradd : ℕ
vaccel_f_vectoradd = 19

abbrev pub vaccel_exec_with_resource_op : ℕ
vaccel_exec_with_resource_op = 20

abbrev pub vaccel_opencv_op : ℕ
vaccel_opencv_op = 23

-- `struct vaccel_arg`
pub record Arg : Type 0 where
  pub size : ℕ
  pub buf : Ptr

-- A pointer to the first of a row of arguments, and the arguments that stand there.
pub record Args : Type 0 where
  pub base : Ptr
  pub items : List Arg

-- What an operation reads: the state of plugin.c and of resources.c, the hints of the sessions, and
-- the memory behind the arguments: `load n p` reads `n` bytes at `p`. An image operation also reads
-- and writes its profile; the clock and the memory differ at the two ends of the operation.
pub record Machine : Type 0 where
  pub plugins : PluginState
  pub resources : ResourceState
  pub hint : Ptr → ℕ
  pub load : ℕ → Ptr → Outcome ℕ
  pub shared_object_path : Ptr → Outcome Ptr
  pub image_op_stats : Region
  pub entering : Env
  pub leaving : Env

-- How an operation ends: with a code of its own, or with what the plugin's function answers to these
-- arguments. The machine words of the arguments are listed, a float by its bits.
pub data Reply : Type 0 where
  answer : Code → Reply
  plugin : (func : Ptr) → (args : List ℕ) → Reply

-- `a[i]`; past the arguments there is no object to read.
abbrev pub arg : Args → ℕ → Outcome Arg
arg a i = elim (get_elem? a.items i) [ none ↦ fault | some x ↦ ok x ]

-- The arguments after the first `n`.
abbrev pub drop : ℕ → List Arg → List Arg
drop zero xs = xs
drop (suc n) [] = []
drop (suc n) (x ∷ xs) = drop n xs

-- `&a[n]`; an argument takes 16 bytes.
abbrev pub after : ℕ → Args → Args
after n a = record { base = a.base + 16 * n; items = drop n a.items }
