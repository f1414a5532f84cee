-- ===== src/Models/TfSaved/Abandon.antt =====
-- Giving a registration up: the destructor of a model that was made of buffers.
use vaccel_google_test.Common.{◌≡◌, ◌≢◌, ◌++◌, refl, arith, List, [], ◌∷◌, remove}
use mathlib.Core.List.{append_assoc, append-nil}
use vaccel_google_test.Common.Memory.{Ptr, null, ok}
use vaccel_google_test.Resources.Live.{IsLive}
use vaccel_google_test.Files.State.{
  File, FileOs, FileCall, FilePath, path, no_path, freed, destroy_file, vaccel_file_destroy,
}
use vaccel_google_test.Models.State.{World, destroy_file_of}
use vaccel_google_test.Models.Lifetime.{closing}
use vaccel_google_test.Models.Saved.{remove_variables}
use vaccel_google_test.Models.TfSaved.{TfSavedModel, destroy_files, tf_saved_model_destructor}

destroy_by_path :
    (q : FilePath) (f : File)
    → f.path ≡ q
    → q ≢ freed
    → (f' : File) × (log : List FileCall) × ((w : World)
        → destroy_file_of f w ≡ ok (f', record w { calls = w.calls ++ log }))
unfolding destroy_file_of vaccel_file_destroy destroy_file
destroy_by_path no_path f e n = (f, [], λ w. ground (arith, e, append-nil w.calls))
destroy_by_path freed f e n = ground (arith, n refl)
destroy_by_path (path p) f e n = (record f { path = freed }, closing f p, λ w. ground (arith, e))

-- Destroying a file whose path was not freed succeeds, with the same calls wherever it happens.
destroy_file_of-unfreed :
    (f : File)
    → f.path ≢ freed
    → (f' : File) × (log : List FileCall) × ((w : World)
        → destroy_file_of f w ≡ ok (f', record w { calls = w.calls ++ log }))
destroy_file_of-unfreed f n = destroy_by_path f.path f refl n

-- The three files can be destroyed, and there is no older resource.
pub record IsFresh (m : TfSavedModel) : Type 0 where
  pub resource : m.resource ≡ null
  pub model : m.model.path ≢ freed
  pub checkpoint : m.checkpoint.path ≢ freed
  pub var_index : m.var_index.path ≢ freed

pub destructor_runs :
    (os : FileOs) (m : TfSavedModel)
    → IsFresh m
    → (m' : TfSavedModel) × (log : List FileCall) × (m'.resource ≡ m.resource)
      × (m'.path ≡ m.path)
      × ((w : World)
          → tf_saved_model_destructor os m w ≡ ok (m', record w { calls = w.calls ++ log }))
unfolding tf_saved_model_destructor destroy_files remove_variables
destructor_runs os m fresh =
    let (a, l₁, e₁) = destroy_file_of-unfreed m.model fresh.model in
    let (b, l₂, e₂) = destroy_file_of-unfreed m.checkpoint fresh.checkpoint in
    let (c, l₃, e₃) = destroy_file_of-unfreed m.var_index fresh.var_index in
    (
      record m { model = a; checkpoint = b; var_index = c },
      l₁ ++ (l₂ ++ l₃),
      refl,
      refl,
      λ w. ground (
        arith,
        e₁ w,
        e₂ (record w { calls = w.calls ++ l₁ }),
        e₃ (record w { calls = (w.calls ++ l₁) ++ l₂ }),
        fresh.resource,
        append_assoc w.calls l₁ l₂,
        append_assoc (w.calls ++ l₁) l₂ l₃,
        append_assoc w.calls l₁ (l₂ ++ l₃),
      ),
    )

-- What a failure leaves of the world after `resource_new`: the resource is live no more, and freed.
pub record IsAbandoned (res : Ptr) (m : TfSavedModel) (w : World) (m' : TfSavedModel) (w' : World)
    : Type 0 where
  pub live : IsLive w'.resources
  pub gone : w'.resources.live 0 ≡ remove res (w.resources.live 0)
  pub freed : w'.freed ≡ w.freed ++ res ∷ []
  pub resource : m'.resource ≡ null
  pub path : m'.path ≡ m.path
