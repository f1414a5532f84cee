-- ===== src/Tensors/State.antt =====
-- Buffers, nodes and tensors of src/ops/tf.c and src/ops/torch.c, with the types of
-- src/include/ops/tf.h and src/include/ops/torch.h.
use vaccel_google_test.Common.{
  ℕ, ◌-◌, ◌^◌, ◌%◌, ◌/◌, Bool, true, false, ◌&&◌, not, Option, none, some, List, [], ◌∷◌, ◌==◌,
  if◌then◌else◌, has, remove, take, replicate,
}
use vaccel_google_test.Common.Code.{Code, vaccel_ok, vaccel_einval}
use vaccel_google_test.Common.Memory.{Ptr, null, Outcome, ok, fault, ◌>>=◌}

-- The addresses that are allocated.
abbrev pub Heap : Type 0
Heap = List Ptr

-- `malloc` or `calloc`, which gave `p`; NULL if there was no memory.
abbrev pub allocate : (p : Ptr) → Heap → Heap
allocate p h = if p == null then h else p ∷ h

-- Freeing NULL does nothing; freeing what is not allocated is a fault.
unfoldable pub free : Ptr → Heap → Outcome Heap
free p h = if p == null then ok h else if has p h then ok (remove p h) else fault

-- `struct vaccel_tf_buffer` and `struct vaccel_torch_buffer`
pub record Buffer : Type 0 where
  pub self : Ptr
  pub contents : Ptr
  pub size : ℕ

abbrev new_buffer : (calloc contents : Ptr) (size : ℕ) → Heap → Option Buffer × Heap
new_buffer calloc contents size h =
    if calloc == null
    then (none, h)
    else (some (record { self = calloc; contents = contents; size = size }), allocate calloc h)

abbrev destroy_buffer : Buffer → Heap → Outcome Heap
destroy_buffer b h = free b.contents h >>= λ h'. free b.self h'

-- The pointer and, unless the buffer is NULL, what is stored through `size`.
abbrev take_buffer : Option Buffer → Option (Ptr × ℕ) × Option Buffer
take_buffer none = (none, none)
take_buffer (some b) = (some (b.contents, b.size), some (record b { contents = null; size = 0 }))

abbrev get_buffer : Option Buffer → Option (Ptr × ℕ)
get_buffer none = none
get_buffer (some b) = some (b.contents, b.size)

unfoldable pub vaccel_tf_buffer_new :
    (calloc contents : Ptr) (size : ℕ) → Heap → Option Buffer × Heap
vaccel_tf_buffer_new = new_buffer

unfoldable pub vaccel_tf_buffer_destroy : Buffer → Heap → Outcome Heap
vaccel_tf_buffer_destroy = destroy_buffer

unfoldable pub vaccel_tf_buffer_take_data : Option Buffer → Option (Ptr × ℕ) × Option Buffer
vaccel_tf_buffer_take_data = take_buffer

unfoldable pub vaccel_tf_buffer_get_data : Option Buffer → Option (Ptr × ℕ)
vaccel_tf_buffer_get_data = get_buffer

unfoldable pub vaccel_torch_buffer_new :
    (calloc contents : Ptr) (size : ℕ) → Heap → Option Buffer × Heap
vaccel_torch_buffer_new = new_buffer

unfoldable pub vaccel_torch_buffer_destroy : Buffer → Heap → Outcome Heap
vaccel_torch_buffer_destroy = destroy_buffer

unfoldable pub vaccel_torch_buffer_take_data : Option Buffer → Option (Ptr × ℕ) × Option Buffer
vaccel_torch_buffer_take_data = take_buffer

unfoldable pub vaccel_torch_buffer_get_data : Option Buffer → Option (Ptr × ℕ)
vaccel_torch_buffer_get_data = get_buffer

-- `struct vaccel_tf_node`: the address of the name, and its text.
pub record Node : Type 0 where
  pub self : Ptr
  pub name : Ptr
  pub text : List ℕ
  pub id : ℕ

unfoldable pub vaccel_tf_node_new :
    (malloc strdup : Ptr) (name : List ℕ) (id : ℕ) → Heap → Option Node × Heap
vaccel_tf_node_new malloc strdup name id h =
    if malloc == null
    then (none, h)
    else if strdup == null
    then (none, remove malloc (allocate malloc h))
    else (
      some (record { self = malloc; name = strdup; text = name; id = id }),
      allocate strdup (allocate malloc h),
    )

unfoldable pub vaccel_tf_node_destroy : Option Node → Heap → Outcome Heap
vaccel_tf_node_destroy none h = ok h
vaccel_tf_node_destroy (some n) h = free n.name h >>= λ h'. free n.self h'

unfoldable pub vaccel_tf_node_get_name : Option Node → Option (List ℕ)
vaccel_tf_node_get_name none = none
vaccel_tf_node_get_name (some n) = some n.text

-- -VACCEL_EINVAL as a 64-bit pattern.
unfoldable pub vaccel_tf_node_get_id : Option Node → ℕ
vaccel_tf_node_get_id none = 2 ^ 64 - vaccel_einval
vaccel_tf_node_get_id (some n) = n.id

-- `struct vaccel_tf_tensor` and `struct vaccel_torch_tensor`; `shape` lists what `dims[i]` reads for
-- each i below `nr_dims`, as 32-bit words.
pub record Tensor : Type 0 where
  pub self : Ptr
  pub contents : Ptr
  pub size : ℕ
  pub owned : Bool
  pub nr_dims : ℕ
  pub dims : Ptr
  pub shape : List ℕ
  pub data_type : ℕ

-- The addresses that the two calls of `calloc` and the one of `malloc` give.
pub record Grants : Type 0 where
  pub tensor : Ptr
  pub dims : Ptr
  pub contents : Ptr

abbrev new_tensor :
    Grants → (nr_dims : ℕ) (shape : List ℕ) (data_type : ℕ) → Heap → Option Tensor × Heap
new_tensor g nr_dims shape data_type h =
    if g.tensor == null
    then (none, h)
    else if g.dims == null
    then (none, remove g.tensor (allocate g.tensor h))
    else (
      some (record {
        self = g.tensor;
        contents = null;
        size = 0;
        owned = false;
        nr_dims = nr_dims;
        dims = g.dims;
        shape = shape;
        data_type = data_type;
      }),
      allocate g.dims (allocate g.tensor h),
    )

-- That `malloc` failed is not noticed: the test behind it is of the tensor.
abbrev allocate_tensor : Grants → (total_size : ℕ) → Option Tensor × Heap → Option Tensor × Heap
allocate_tensor g total_size (none, h) = (none, h)
allocate_tensor g total_size (some t, h) = if total_size == 0 then (some t, h) else (
  some (record t { contents = g.contents; size = total_size; owned = true }),
  allocate g.contents h,
)

abbrev free_contents : Tensor → Heap → Outcome Heap
free_contents t h = if not (t.contents == null) && t.owned then free t.contents h else ok h

abbrev destroy_tensor : Option Tensor → Heap → Outcome (Code × Heap)
destroy_tensor none h = ok (vaccel_einval, h)
destroy_tensor (some t) h =
    free t.dims h >>= λ h₁. free_contents t h₁ >>= λ h₂. free t.self h₂ >>= λ h₃. ok (vaccel_ok, h₃)

-- `owned` stays as it is.
abbrev set_tensor :
    Option Tensor → (contents : Ptr) (size : ℕ) → Heap → Outcome (Code × Option Tensor × Heap)
set_tensor none contents size h = ok (vaccel_einval, none, h)
set_tensor (some t) contents size h = free_contents t h >>= λ h'.
    ok (vaccel_ok, some (record t { contents = contents; size = size }), h')

abbrev get_tensor : Option Tensor → Ptr
get_tensor none = null
get_tensor (some t) = t.contents

-- What `dims[i]` reads: the 32-bit numbers of the caller, or zeros.
abbrev pub tf_shape : (nr_dims : ℕ) (dims : Option (List ℕ)) → List ℕ
tf_shape nr_dims none = replicate nr_dims 0
tf_shape nr_dims (some dims) = take nr_dims dims

-- A 64-bit number as two 32-bit words, the low one first.
abbrev pub words : List ℕ → List ℕ
words [] = []
words (d ∷ ds) = d % 2 ^ 32 ∷ d / 2 ^ 32 ∷ words ds

-- The caller's numbers have 64 bits and are copied as they are; `dims` is an array of 32-bit words.
abbrev pub torch_shape : (nr_dims : ℕ) (dims : Option (List ℕ)) → List ℕ
torch_shape nr_dims none = replicate nr_dims 0
torch_shape nr_dims (some dims) = take nr_dims (words (take nr_dims dims))

unfoldable pub vaccel_tf_tensor_new :
    Grants → (nr_dims : ℕ) (dims : Option (List ℕ)) (data_type : ℕ) → Heap → Option Tensor × Heap
vaccel_tf_tensor_new g nr_dims dims = new_tensor g nr_dims (tf_shape nr_dims dims)

unfoldable pub vaccel_tf_tensor_allocate :
    Grants
    → (nr_dims : ℕ) (dims : Option (List ℕ)) (data_type total_size : ℕ) → Heap
    → Option Tensor × Heap
unfolding vaccel_tf_tensor_new
vaccel_tf_tensor_allocate g nr_dims dims data_type total_size h =
    allocate_tensor g total_size (vaccel_tf_tensor_new g nr_dims dims data_type h)

unfoldable pub vaccel_tf_tensor_destroy : Option Tensor → Heap → Outcome (Code × Heap)
vaccel_tf_tensor_destroy = destroy_tensor

unfoldable pub vaccel_tf_tensor_set_data :
    Option Tensor → (contents : Ptr) (size : ℕ) → Heap → Outcome (Code × Option Tensor × Heap)
vaccel_tf_tensor_set_data = set_tensor

unfoldable pub vaccel_tf_tensor_get_data : Option Tensor → Ptr
vaccel_tf_tensor_get_data = get_tensor

unfoldable pub vaccel_torch_tensor_new :
    Grants → (nr_dims : ℕ) (dims : Option (List ℕ)) (data_type : ℕ) → Heap → Option Tensor × Heap
vaccel_torch_tensor_new g nr_dims dims = new_tensor g nr_dims (torch_shape nr_dims dims)

unfoldable pub vaccel_torch_tensor_allocate :
    Grants
    → (nr_dims : ℕ) (dims : Option (List ℕ)) (data_type total_size : ℕ) → Heap
    → Option Tensor × Heap
unfolding vaccel_torch_tensor_new
vaccel_torch_tensor_allocate g nr_dims dims data_type total_size h =
    allocate_tensor g total_size (vaccel_torch_tensor_new g nr_dims dims data_type h)

unfoldable pub vaccel_torch_tensor_destroy : Option Tensor → Heap → Outcome (Code × Heap)
vaccel_torch_tensor_destroy = destroy_tensor

unfoldable pub vaccel_torch_tensor_set_data :
    Option Tensor → (contents : Ptr) (size : ℕ) → Heap → Outcome (Code × Option Tensor × Heap)
vaccel_torch_tensor_set_data = set_tensor

unfoldable pub vaccel_torch_tensor_get_data : Option Tensor → Ptr
vaccel_torch_tensor_get_data = get_tensor
