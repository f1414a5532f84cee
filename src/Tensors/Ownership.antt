-- ===== src/Tensors/Ownership.antt =====
-- Who frees what.
use vaccel_google_test.Common.{
  ℕ, ◌≡◌, ◌≢◌, refl, arith, Bool, true, false, Option, some, List, [], ◌∷◌, ◌==◌, has, remove,
  remove_absent, has-remove_self, has-remove-le, Distinct,
}
use vaccel_google_test.Common.Code.{vaccel_ok}
use vaccel_google_test.Common.Memory.{Ptr, null, ok, fault}
use vaccel_google_test.Tensors.State.{
  Heap, Tensor, tf_shape, Grants, free, vaccel_tf_tensor_new, vaccel_tf_tensor_allocate,
  vaccel_tf_tensor_destroy, vaccel_tf_tensor_set_data,
}

-- The addresses that a tensor is given are not NULL, not allocated, and different from each other.
pub record IsGranted (g : Grants) (h : Heap) : Type 0 where
  pub tensor_real : g.tensor ≢ null
  pub dims_real : g.dims ≢ null
  pub contents_real : g.contents ≢ null
  pub distinct : Distinct (g.contents ∷ g.dims ∷ g.tensor ∷ h)

free_first : (p : Ptr) (h : Heap) → p ≢ null → has p h ≡ false → free p (p ∷ h) ≡ ok h
unfolding free
free_first p h real fresh = ground (arith, remove_absent p h)

free_second :
    (p q : Ptr) (h : Heap)
    → p ≢ null
    → has p (q ∷ []) ≡ false
    → has p h ≡ false
    → free p (q ∷ p ∷ h) ≡ ok (q ∷ h)
unfolding free
free_second p q h real apart fresh = ground (arith, remove_absent p h)

-- The tensor that `new` makes, with the data and their owner filled in.
abbrev granted :
    Grants
    → (contents : Ptr) (size : ℕ) (owned : Bool) (nr_dims : ℕ) (shape : List ℕ) → (data_type : ℕ)
    → Tensor
granted g contents size owned nr_dims shape data_type = record {
  self = g.tensor;
  contents = contents;
  size = size;
  owned = owned;
  nr_dims = nr_dims;
  dims = g.dims;
  shape = shape;
  data_type = data_type;
}

module _ (g : Grants) (nr_dims : ℕ) (dims : Option (List ℕ)) (data_type : ℕ) (h : Heap)
    (v : IsGranted g h) where
  new_granted : vaccel_tf_tensor_new g nr_dims dims data_type h ≡ (
    some (granted g null 0 false nr_dims (tf_shape nr_dims dims) data_type),
    g.dims ∷ g.tensor ∷ h,
  )
  unfolding vaccel_tf_tensor_new
  new_granted = ground (arith, v.tensor_real, v.dims_real)

  allocate_granted :
      (total_size : ℕ)
      → total_size ≢ 0
      → vaccel_tf_tensor_allocate g nr_dims dims data_type total_size h ≡ (
        some (granted g g.contents total_size true nr_dims (tf_shape nr_dims dims) data_type),
        g.contents ∷ g.dims ∷ g.tensor ∷ h,
      )
  unfolding vaccel_tf_tensor_allocate
  allocate_granted total_size filled =
      let real : (g.contents == null) ≡ false = ground (arith, v.contents_real) in
      let some_size : (total_size == 0) ≡ false = ground arith in
      rw (vaccel_tf_tensor_allocate, new_granted, some_size, real) refl

  free_dims : free g.dims (g.dims ∷ g.tensor ∷ h) ≡ ok (g.tensor ∷ h)
  free_dims = free_first g.dims (g.tensor ∷ h) v.dims_real v.distinct.1.0

  free_self : free g.tensor (g.tensor ∷ h) ≡ ok h
  free_self = free_first g.tensor h v.tensor_real v.distinct.1.1.0

  -- Destroying a tensor that owns its data, from what its three calls of `free` do.
  destroy_owned :
      (c : Ptr) (size : ℕ) (h₀ h₁ h₂ h₃ : Heap)
      → c ≢ null
      → free g.dims h₀ ≡ ok h₁
      → free c h₁ ≡ ok h₂
      → free g.tensor h₂ ≡ ok h₃
      → vaccel_tf_tensor_destroy
          (some (granted g c size true nr_dims (tf_shape nr_dims dims) data_type))
          h₀
        ≡ ok (vaccel_ok, h₃)
  unfolding vaccel_tf_tensor_destroy
  destroy_owned c size h₀ h₁ h₂ h₃ real a b e =
      let given : (c == null) ≡ false = ground arith in rw (a, given) (rw (b, e) refl)

  -- A round trip: a tensor that was allocated with data of a size that is not 0, at fresh
  -- addresses, and destroyed, leaves the heap as it was.
  pub vaccel_tf_tensor_allocate-destroy :
      (total_size : ℕ)
      → total_size ≢ 0
      → (t : Tensor) × (h' : Heap) × (vaccel_tf_tensor_allocate g nr_dims dims data_type total_size
            h
          ≡ (some t, h'))
        × (vaccel_tf_tensor_destroy (some t) h' ≡ ok (vaccel_ok, h))
  unfolding vaccel_tf_tensor_destroy
  vaccel_tf_tensor_allocate-destroy total_size filled = (
    _,
    _,
    allocate_granted total_size filled,
    destroy_owned g.contents total_size (g.contents ∷ g.dims ∷ g.tensor ∷ h)
        (g.contents ∷ g.tensor ∷ h) (g.tensor ∷ h) h v.contents_real
        (free_second g.dims g.contents (g.tensor ∷ h) v.dims_real (ground (arith, v.distinct.0))
          v.distinct.1.0)
        (free_first g.contents (g.tensor ∷ h) v.contents_real (ground (arith, v.distinct.0)))
        free_self,
  )

  -- A tensor that was made without data, and was given data of the caller: destroying it leaves the
  -- caller's data allocated, and the heap as it was.
  pub vaccel_tf_tensor_set_data-destroy :
      (contents : Ptr) (size : ℕ)
      → (t t' : Tensor) × (h' : Heap) × (vaccel_tf_tensor_new g nr_dims dims data_type h
          ≡ (some t, h'))
        × (vaccel_tf_tensor_set_data (some t) contents size h' ≡ ok (vaccel_ok, some t', h'))
        × (vaccel_tf_tensor_destroy (some t') h' ≡ ok (vaccel_ok, h))
  unfolding vaccel_tf_tensor_set_data vaccel_tf_tensor_destroy
  vaccel_tf_tensor_set_data-destroy contents size = (
    granted g null 0 false nr_dims (tf_shape nr_dims dims) data_type,
    granted g contents size false nr_dims (tf_shape nr_dims dims) data_type,
    g.dims ∷ g.tensor ∷ h,
    new_granted,
    refl,
    ground (arith, free_dims, free_self),
  )

  -- A tensor that was allocated with its data, at fresh addresses, and was given allocated data
  -- of the caller, owns those: to destroy it frees them, and to free them afterwards, as their
  -- caller would, is a fault.
  pub vaccel_tf_tensor_set_data-freed :
      (total_size contents size : ℕ)
      → total_size ≢ 0
      → contents ≢ null
      → has contents h ≡ true
      → (t t' : Tensor) × (h₁ h₂ h₃ : Heap) × (vaccel_tf_tensor_allocate g nr_dims dims data_type
            total_size h
          ≡ (some t, h₁))
        × (vaccel_tf_tensor_set_data (some t) contents size h₁ ≡ ok (vaccel_ok, some t', h₂))
        × (vaccel_tf_tensor_destroy (some t') h₂ ≡ ok (vaccel_ok, h₃))
        × (free contents h₃ ≡ fault)
  unfolding vaccel_tf_tensor_set_data free
  vaccel_tf_tensor_set_data-freed total_size contents size filled real held = (
    _,
    granted g contents size true nr_dims (tf_shape nr_dims dims) data_type,
    _,
    g.dims ∷ g.tensor ∷ h,
    remove contents h,
    allocate_granted total_size filled,
    ground (
      arith,
      free_first g.contents (g.dims ∷ g.tensor ∷ h) v.contents_real v.distinct.0,
      v.contents_real,
    ),
    destroy_owned contents size (g.dims ∷ g.tensor ∷ h) (g.tensor ∷ h)
        (g.tensor ∷ remove contents h) (remove contents h) real free_dims
        (ground (arith, real, held, v.distinct.1.1.0))
        (free_first g.tensor (remove contents h) v.tensor_real
          (has-remove-le contents g.tensor h v.distinct.1.1.0)),
    ground (arith, has-remove_self contents h),
  )
