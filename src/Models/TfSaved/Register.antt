-- ===== src/Models/TfSaved/Register.antt =====
-- Registering a saved model that was made of buffers.
use vaccel_google_test.Common.{
  ℕ, ◌≡◌, ◌≢◌, ◌++◌, ◌<◌, ◌⊎◌, inl, inr, refl, ap, sym, ◌∙◌, subst, arith, Bool-cases, true, false,
  none, some, List, [], ◌∷◌, length, ◌==◌, leb, has, remove, has-append,
}
use vaccel_google_test.Common.Code.{Code, vaccel_ok, vaccel_enametoolong}
use vaccel_google_test.Common.Memory.{Ptr, null, ok}
use vaccel_google_test.Resources.{ResourceState, resource_create_rundir}
use vaccel_google_test.Resources.Live.{IsLive, resource_new-New}
use vaccel_google_test.Resources.Rundir.{set_rundir, set_rundir_own, resource_create_rundir-Made}
use vaccel_google_test.Files.State.{vaccel_file_initialized, made_dir}
use vaccel_google_test.Models.State.{World, text_of, create_rundir}
use vaccel_google_test.Models.Ready.{IsReady, New-IsReady, set_rundir-IsReady}
use vaccel_google_test.Models.Buffer.{rundir_of}
use vaccel_google_test.Models.Lifetime.{remove_last}
use vaccel_google_test.Models.Saved.{no_saved_path, rundir_of_resource, in_dir, variables, max_path}
use vaccel_google_test.Models.TfSaved.{
  TfSavedModel, SavedEnv, abandon, persist_model, vaccel_tf_saved_model_register, res_tf_model,
}
use vaccel_google_test.Models.TfSaved.Abandon.{IsFresh}
use vaccel_google_test.Models.TfSaved.Stored.{IsStored, IsBuffered, unfreed_no_path, not_ok}
use vaccel_google_test.Models.TfSaved.Persisting.{Ends, abandon-Ends, persist_files-Ends}

module _ (destructor : Ptr) (e : SavedEnv) (self : Ptr) (alone : e.env.virtio ≡ none) where
  persist_model-Ends :
      (m : TfSavedModel) (w : World)
      → IsBuffered m
      → IsReady destructor self e.env.malloc w.resources
      → let dir = rundir_of e.env (w.resources.res e.env.malloc).id in
        Ends destructor e self alone m w dir
          (w.calls ++ made_dir (in_dir dir variables) ∷ [])
          (persist_model destructor e self m w)
  unfolding persist_model create_rundir
  persist_model-Ends m w b r =
      let res = e.env.malloc in
      let dir = rundir_of e.env (w.resources.res res).id in
      let made =
        resource_create_rundir e.env.root e.env.print_id e.env.mkdir e.env.strndup_ok res
          w.resources in
      let calls = w.calls ++ made_dir (in_dir dir variables) ∷ [] in
      let fresh : IsFresh m = record {
        resource = b.resource;
        model = unfreed_no_path m.model.path b.model;
        checkpoint = unfreed_no_path m.checkpoint.path b.checkpoint;
        var_index = unfreed_no_path m.var_index.path b.var_index;
      } in
      let fail : (c : Code) (s : ResourceState)
          → c ≢ vaccel_ok
          → made.1 ≡ s
          → s.live ≡ w.resources.live
          → IsReady destructor self res s
          → Ends destructor e self alone m w dir calls
              (abandon destructor e self c m (record w { resources = made.1 })) =
        λ c s bad is same ready.
          abandon-Ends destructor e self alone c m m w (record w { resources = made.1 }) dir calls
            bad (subst (IsReady destructor self res) (sym is) ready) (ap (λ s. s.live) is ∙ same)
            refl fresh refl in
      elim (resource_create_rundir-Made e.env.root e.env.print_id e.env.mkdir e.env.strndup_ok res
        w.resources) [
          | inr (bad, inl is) ↦ rw (not_ok made.0 bad) (fail made.0 w.resources bad is refl r)
          | inr (bad, inr is) ↦ rw (not_ok made.0 bad) (
              fail made.0 (set_rundir res none w.resources) bad is refl
                (set_rundir-IsReady destructor self res none w.resources r))
          | inl (good, is) ↦
              let s = set_rundir res (some dir) w.resources in
              let ready = set_rundir-IsReady destructor self res (some dir) w.resources r in
              let named : (made.1.res res).rundir ≡ some dir =
                ap (λ s. (s.res res).rundir) is
                ∙ ap (λ r. r.rundir) (set_rundir_own res (some dir) w.resources) in
              let text : text_of (made.1.res res).rundir ≡ dir = ap text_of named in
              elim (Bool-cases (leb max_path (length (in_dir dir variables)))) [
                | inl long ↦
                    rw (good, text, long)
                      (fail vaccel_enametoolong s (λ z. ground (arith, z)) is refl ready)
                | inr short ↦ elim (Bool-cases (e.env.mkdir (in_dir dir variables) == vaccel_ok)) [
                  | inr bad ↦
                      rw (good, text, short, bad)
                        (fail (e.env.mkdir (in_dir dir variables)) s (λ z. ground (arith, z, bad))
                          is refl ready)
                  | inl there ↦
                      rw (good, text, short, there)
                        (persist_files-Ends destructor e self alone dir m w
                          (record w { resources = made.1; calls = calls }) b
                          (subst (IsReady destructor self res) (sym is) ready) (ap (λ s. s.live) is)
                          refl named)
                ]
              ]
        ]

-- What registering leaves when it succeeds.
pub record Registered (e : SavedEnv) (w : World) (m' : TfSavedModel) (w' : World) : Type 0 where
  pub dir : List ℕ
  pub path : m'.path ≡ rundir_of_resource e.env.malloc
  pub resource : m'.resource ≡ e.env.malloc
  pub live : IsLive w'.resources
  pub last : w'.resources.live 0 ≡ w.resources.live 0 ++ e.env.malloc ∷ []
  pub rundir : (w'.resources.res e.env.malloc).rundir ≡ some dir
  pub stored : IsStored e dir m' (w.calls ++ made_dir (in_dir dir variables) ∷ []) w'.calls

-- What registering leaves when it fails behind its checks.
pub record Unregistered (e : SavedEnv) (w : World) (m' : TfSavedModel) (w' : World) : Type 0 where
  pub live : IsLive w'.resources
  pub same_live : w'.resources.live 0 ≡ w.resources.live 0
  pub freed : has e.env.malloc w'.freed ≡ true
  pub resource : m'.resource ≡ null
  pub path : m'.path ≡ no_saved_path

-- Without a host, with memory for the resource at an address that is no live resource, and while
-- fewer resources are live than the pool has ids, registering a model whose three files were set
-- from buffers, and which has no path and no resource, ends in one of two ways. If the answer is
-- OK, the resource is the last live one, its directory is the path of the model, and in it, after
-- its directory "variables", the three files were made, in the order model, checkpoint, index;
-- the contents of each are what `mmap` of it answered, which is not NULL but can be MAP_FAILED.
-- If the answer is an error, the live resources are as before, the resource that was allocated is
-- freed, and the model has no resource and no path.
pub vaccel_tf_saved_model_register-Outcome :
    (destructor : Ptr) (e : SavedEnv) (self : Ptr) (m : TfSavedModel) (w : World)
    → e.env.virtio ≡ none
    → e.env.malloc ≢ null
    → IsBuffered m
    → vaccel_file_initialized (some m.model) ≡ true
    → vaccel_file_initialized (some m.checkpoint) ≡ true
    → vaccel_file_initialized (some m.var_index) ≡ true
    → IsLive w.resources
    → has e.env.malloc (w.resources.live 0) ≡ false
    → length (w.resources.live 0) < w.resources.pool.max
    → (c : Code) × (m' : TfSavedModel) × (w' : World) × (vaccel_tf_saved_model_register destructor e
          self m w
        ≡ ok (c, m', w'))
      × (((c ≡ vaccel_ok) × Registered e w m' w') ⊎ ((c ≢ vaccel_ok) × Unregistered e w m' w'))
unfolding vaccel_tf_saved_model_register
vaccel_tf_saved_model_register-Outcome destructor e self m w alone real b i₁ i₂ i₃ v fresh room =
    let res = e.env.malloc in
    let (s, runs, n) =
      resource_new-New res res_tf_model self destructor w.resources v real (omega arith) fresh
        room in
    let w₁ : World = record { resources = s; calls = w.calls; freed = remove res w.freed } in
    let (c, m', w', ends, outcome) =
      persist_model-Ends destructor e self alone m w₁ b
        (New-IsReady destructor self res res_tf_model w.resources s n) in
    (
      c,
      m',
      w',
      ground (arith, alone, i₁, i₂, i₃, real, runs, b.path, ends),
      elim outcome [
        | inl (good, (at, owner, ready, same, named, stored)) ↦ inl (
          good,
          record {
            dir = rundir_of e.env (s.res res).id;
            path = at;
            resource = owner;
            live = ready.live;
            last = ap (λ l. l 0) same ∙ n.last;
            rundir = named;
            stored = stored;
          },
        )
        | inr (bad, a) ↦ inr (
          bad,
          record {
            live = a.live;
            same_live =
                a.gone ∙ ap (remove res) n.last ∙ remove_last res (w.resources.live 0) fresh;
            freed = rw a.freed (ground (arith, has-append res (remove res w.freed) (res ∷ [])));
            resource = a.resource;
            path = a.path ∙ b.path;
          },
        )
      ],
    )
