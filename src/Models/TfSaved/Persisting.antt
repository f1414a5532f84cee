-- ===== src/Models/TfSaved/Persisting.antt =====
-- Persisting the files of a saved model.
use vaccel_google_test.Common.{
  ℕ, ◌≡◌, ◌≢◌, ◌++◌, ◌⊎◌, inl, inr, refl, ap, ◌∙◌, arith, false, none, some, List, [], ◌∷◌, remove,
}
use vaccel_google_test.Common.Code.{Code, vaccel_ok}
use vaccel_google_test.Common.Memory.{Ptr, Outcome, ok}
use vaccel_google_test.Files.State.{FileCall}
use vaccel_google_test.Files.Persist.{persist_named}
use vaccel_google_test.Models.State.{World}
use vaccel_google_test.Models.Ready.{IsReady, destroy_with-Destroyed}
use vaccel_google_test.Models.Saved.{rundir_of_resource, in_dir, variables}
use vaccel_google_test.Models.TfSaved.{
  TfSavedModel, SavedEnv, tf_saved_model_destructor, abandon, persist_files,
}
use vaccel_google_test.Models.TfSaved.Abandon.{IsFresh, destructor_runs, IsAbandoned}
use vaccel_google_test.Models.TfSaved.Stored.{
  saved_model_pb, variables_data, variables_index, IsStored, IsBuffered, unfreed_no_path,
  unfreed_path, not_ok,
}

module _ (destructor : Ptr) (e : SavedEnv) (self : Ptr) (alone : e.env.virtio ≡ none) where
  -- How registering ends from the world after `resource_new`.
  abbrev pub Ends :
      TfSavedModel
      → World
      → (dir : List ℕ) (calls : List FileCall) → Outcome (Code × TfSavedModel × World)
      → Type 0
  Ends m w dir calls result =
      (c : Code) × (m' : TfSavedModel) × (w' : World) × (result ≡ ok (c, m', w'))
      × (((c ≡ vaccel_ok)
            × ((m'.path ≡ rundir_of_resource e.env.malloc)
                × (m'.resource ≡ e.env.malloc)
                × IsReady destructor self e.env.malloc w'.resources
                × (w'.resources.live ≡ w.resources.live)
                × ((w'.resources.res e.env.malloc).rundir ≡ some dir)
                × IsStored e dir m' calls w'.calls))
          ⊎ ((c ≢ vaccel_ok) × IsAbandoned e.env.malloc m w m' w'))

  pub abandon-Ends :
      (ret : Code) (m m₁ : TfSavedModel) (w w₁ : World) (dir : List ℕ) (calls : List FileCall)
      → ret ≢ vaccel_ok
      → IsReady destructor self e.env.malloc w₁.resources
      → w₁.resources.live ≡ w.resources.live
      → w₁.freed ≡ w.freed
      → IsFresh m₁
      → m₁.path ≡ m.path
      → Ends m w dir calls (abandon destructor e self ret m₁ w₁)
  unfolding abandon
  abandon-Ends ret m m₁ w w₁ dir calls bad r same kept fresh at =
      let (m', log, none_yet, path_kept, runs) = destructor_runs e.env.os m₁ fresh in
      let (s, ends, gone) =
        destroy_with-Destroyed destructor self (tf_saved_model_destructor e.env.os) e.env
          e.env.malloc m₁ m' w₁ (w₁.calls ++ log) alone r
          (λ s. runs (record w₁ { resources = s })) in
      (
        ret,
        m',
        record w₁ { resources = s; calls = w₁.calls ++ log; freed = w₁.freed ++ e.env.malloc ∷ [] },
        ground (arith, ends),
        inr (
          bad,
          record {
            live = gone.live;
            gone = gone.gone ∙ ap (λ l. remove e.env.malloc (l 0)) same;
            freed = ap (λ l. l ++ e.env.malloc ∷ []) kept;
            resource = none_yet ∙ fresh.resource;
            path = path_kept ∙ at;
          },
        ),
      )

  pub persist_files-Ends :
      (dir : List ℕ) (m : TfSavedModel) (w w₁ : World)
      → IsBuffered m
      → IsReady destructor self e.env.malloc w₁.resources
      → w₁.resources.live ≡ w.resources.live
      → w₁.freed ≡ w.freed
      → (w₁.resources.res e.env.malloc).rundir ≡ some dir
      → Ends m w dir w₁.calls (persist_files destructor e self dir (in_dir dir variables) m w₁)
  unfolding persist_files
  persist_files-Ends dir m w w₁ b r same kept made =
      let (c₁, f₁, l₁, runs₁, o₁) =
        persist_named e.env.os m.model dir saved_model_pb false w₁.calls in
      let (c₂, f₂, l₂, runs₂, o₂) =
        persist_named e.os_checkpoint m.checkpoint (in_dir dir variables) variables_data false l₁ in
      let (c₃, f₃, l₃, runs₃, o₃) =
        persist_named e.os_var_index m.var_index (in_dir dir variables) variables_index false l₂ in
      let fail : (c : Code) (m' : TfSavedModel) (calls : List FileCall)
          → c ≢ vaccel_ok
          → IsFresh m'
          → m'.path ≡ m.path
          → Ends m w dir w₁.calls (abandon destructor e self c m' (record w₁ { calls = calls })) =
        λ c m' calls bad fresh at.
          abandon-Ends c m m' w (record w₁ { calls = calls }) dir w₁.calls bad r same kept fresh
            at in
      let model_left = unfreed_no_path m.model.path b.model in
      let checkpoint_left = unfreed_no_path m.checkpoint.path b.checkpoint in
      let var_index_left = unfreed_no_path m.var_index.path b.var_index in
      elim o₁ [
        | inr (bad, u) ↦
            rw (runs₁, not_ok c₁ bad)
              (fail c₁ (record m { model = f₁ }) l₁ bad
                (record {
                  resource = b.resource;
                  model = unfreed_no_path f₁.path (u.same_path ∙ b.model);
                  checkpoint = checkpoint_left;
                  var_index = var_index_left;
                })
                refl)
        | inl (good₁, stored₁) ↦ elim o₂ [
          | inr (bad, u) ↦
              rw (runs₁, good₁, runs₂, not_ok c₂ bad)
                (fail c₂ (record m { model = f₁; checkpoint = f₂ }) l₂ bad
                  (record {
                    resource = b.resource;
                    model = unfreed_path f₁.path _ stored₁.at_path;
                    checkpoint = unfreed_no_path f₂.path (u.same_path ∙ b.checkpoint);
                    var_index = var_index_left;
                  })
                  refl)
          | inl (good₂, stored₂) ↦ elim o₃ [
            | inr (bad, u) ↦
                rw (runs₁, good₁, runs₂, good₂, runs₃, not_ok c₃ bad)
                  (fail c₃ (record m { model = f₁; checkpoint = f₂; var_index = f₃ }) l₃ bad
                    (record {
                      resource = b.resource;
                      model = unfreed_path f₁.path _ stored₁.at_path;
                      checkpoint = unfreed_path f₂.path _ stored₂.at_path;
                      var_index = unfreed_no_path f₃.path (u.same_path ∙ b.var_index);
                    })
                    refl)
            | inl (good₃, stored₃) ↦
                rw (runs₁, good₁, runs₂, good₂, runs₃, good₃)
                  (
                    vaccel_ok,
                    _,
                    _,
                    refl,
                    inl (
                      refl,
                      (
                        refl,
                        refl,
                        r,
                        same,
                        made,
                        record {
                          calls₁ = l₁;
                          calls₂ = l₂;
                          model = stored₁;
                          checkpoint = stored₂;
                          var_index = stored₃;
                        },
                      ),
                    ),
                  )
          ]
        ]
      ]
