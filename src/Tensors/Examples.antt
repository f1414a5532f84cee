-- ===== src/Tensors/Examples.antt =====
-- Tensors at the addresses 8 to 24, and data of the caller at 64.
use vaccel_google_test.Common.{◌≡◌, refl, arith, none, some, [], ◌∷◌}
use vaccel_google_test.Common.Code.{vaccel_ok}
use vaccel_google_test.Common.Memory.{ok, fault}
use vaccel_google_test.Tensors.State.{
  Heap, Tensor, Grants, free, vaccel_tf_tensor_allocate, vaccel_tf_tensor_set_data,
  vaccel_tf_tensor_destroy,
}
use vaccel_google_test.Tensors.Ownership.{
  IsGranted, vaccel_tf_tensor_allocate-destroy, vaccel_tf_tensor_set_data-freed,
}

abbrev grants : Grants
grants = record { tensor = 8; dims = 16; contents = 24 }

grants-IsGranted : IsGranted grants (64 ∷ [])
grants-IsGranted = record {
  tensor_real = ground arith;
  dims_real = ground arith;
  contents_real = ground arith;
  distinct = (refl, (refl, (refl, (refl, tt))));
}

vaccel_tf_tensor_allocate-destroy_example :
    (t : Tensor) × (h' : Heap) × (vaccel_tf_tensor_allocate grants 2
        (some (3 ∷ 4 ∷ []))
        1
        48
        (64 ∷ [])
      ≡ (some t, h'))
    × (vaccel_tf_tensor_destroy (some t) h' ≡ ok (vaccel_ok, 64 ∷ []))
vaccel_tf_tensor_allocate-destroy_example =
    vaccel_tf_tensor_allocate-destroy grants 2 (some (3 ∷ 4 ∷ [])) 1 (64 ∷ []) grants-IsGranted 48
      (ground arith)

vaccel_tf_tensor_set_data-freed_example :
    (t t' : Tensor) × (h₁ h₂ h₃ : Heap) × (vaccel_tf_tensor_allocate grants 2 none 1 48 (64 ∷ [])
      ≡ (some t, h₁))
    × (vaccel_tf_tensor_set_data (some t) 64 48 h₁ ≡ ok (vaccel_ok, some t', h₂))
    × (vaccel_tf_tensor_destroy (some t') h₂ ≡ ok (vaccel_ok, h₃))
    × (free 64 h₃ ≡ fault)
vaccel_tf_tensor_set_data-freed_example =
    vaccel_tf_tensor_set_data-freed grants 2 none 1 (64 ∷ []) grants-IsGranted 48 64 48
      (ground arith) (ground arith) refl
