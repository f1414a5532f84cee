-- ===== src/Library/End.antt =====
-- What `vaccel_fini` leaves, and what goes wrong at the end.
use vaccel_google_test.Common.{
  ℕ, ◌^◌, ◌≡◌, ◌≢◌, ◌≤◌, ◌<◌, refl, ap, ◌∙◌, arith, true, false, none, some, List, [], ◌∷◌, ◌==◌,
  length, map,
}
use vaccel_google_test.Common.Code.{vaccel_ok}
use vaccel_google_test.Common.Memory.{Ptr, null, update, ok, fault, ◌>>=◌}
use vaccel_google_test.IdPool.{id_pool_release}
use vaccel_google_test.Plugins.{get_virtio_plugin, plugins_shutdown}
use vaccel_google_test.Plugins.Wellformed.{Wellformed}
use vaccel_google_test.Plugins.Shutdown.{Cleared, plugins_shutdown-Cleared}
use vaccel_google_test.Resources.{
  Host, ResourceState, resource_new, resource_destroy, resources_cleanup, obtain_id, enlist,
  return_id, destroy_list, destroy_from, res_max,
}
use vaccel_google_test.Resources.Live.{IsLive, id_of}
use vaccel_google_test.Resources.Destroy.{used, resources_cleanup-used}
use vaccel_google_test.Sessions.{sessions_cleanup}
use vaccel_google_test.Files.State.{FileOs}
use vaccel_google_test.Library.State.{Library, host_of, cleanup_vaccel_rundir, vaccel_fini}

-- What is left at the end.
pub record IsFinished (s s' : Library) : Type 0 where
  pub plugins : Cleared s.plugins s.plugins.plugins s'.plugins
  pub no_virtio : s'.plugins.virtio ≡ null
  pub plugins_down : s'.plugins.initialized ≡ false
  pub resources :
      s'.sessions.resources.live 0 ≡ used s.sessions.resources.res (s.sessions.resources.live 0)
  pub sessions_down : s'.sessions.initialized ≡ false
  pub rundir : s'.rundir ≡ s.rundir

cleanup_frame :
    (os : FileOs) (s : Library)
    → ((cleanup_vaccel_rundir os s).1.plugins ≡ s.plugins)
      × ((cleanup_vaccel_rundir os s).1.sessions ≡ s.sessions)
      × ((cleanup_vaccel_rundir os s).1.rundir ≡ s.rundir)
unfolding cleanup_vaccel_rundir
cleanup_frame os s = (ground arith, ground arith, ground arith)

-- From well-formed plugins, and live resources whose ids are from the library's own pool,
-- `vaccel_fini` runs to its end: no plugin and none of their operations is left, the live
-- resources that are left are those that sessions use, and the sessions and the plugins are shut
-- down.
pub vaccel_fini-IsFinished :
    (os : FileOs) (hosts : Ptr → Host) (s : Library)
    → Wellformed s.plugins
    → s.plugins.initialized ≡ true
    → IsLive s.sessions.resources
    → (s' : Library) × (vaccel_fini os hosts s ≡ ok s') × IsFinished s s'
unfolding vaccel_fini sessions_cleanup
vaccel_fini-IsFinished os hosts s w up v =
    let (_, cleared, no_virtio, down) = plugins_shutdown-Cleared s.plugins w up in
    let (r, runs, left, _) = resources_cleanup-used s.sessions.resources v in
    let ended : Library = record s {
      plugins = (plugins_shutdown s.plugins).1;
      sessions = (sessions_cleanup (record s.sessions { resources = r })).1;
    } in
    let (plugins, sessions, rundir) = cleanup_frame os ended in
    (
      (cleanup_vaccel_rundir os ended).1,
      rw (no_virtio, runs) refl,
      record {
        plugins = rw plugins cleared;
        no_virtio = rw plugins no_virtio;
        plugins_down = rw plugins down;
        resources = rw sessions left;
        sessions_down = rw sessions refl;
        rundir = rundir;
      },
    )

-- `resource_destroy` of a resource with an id that the pool never gave, while it gave none.
destroy_foreign :
    (res : Ptr) (s : ResourceState)
    → s.initialized ≡ true
    → res ≢ null
    → (s.res res).refcount ≡ 0
    → 1 ≤ (s.res res).id
    → (s.res res).id ≤ s.pool.max
    → s.pool.max < 2 ^ 31
    → length s.pool.ids ≡ s.pool.max
    → s.pool.next ≡ 0
    → resource_destroy none res s ≡ fault
unfolding resource_destroy return_id id_pool_release
destroy_foreign res s up real unused low high int size none_given = ground arith

cleanup_foreign :
    (res : Ptr) (rest : List Ptr) (s : ResourceState)
    → s.initialized ≡ true
    → s.live 0 ≡ res ∷ rest
    → resource_destroy none res s ≡ fault
    → resources_cleanup none s ≡ fault
unfolding resources_cleanup destroy_from destroy_list
cleanup_foreign res rest s up first stuck =
    let step : destroy_list none (s.live 0) s ≡ fault =
      ap (λ l. destroy_list none l s) first
      ∙ ap (λ o. o >>= λ (_, s'). destroy_list none rest s') stuck in
    ground (arith, up, step)

-- The resource that `resource_new` makes with the id of a host.
abbrev of_host :
    (res : Ptr) (type : ℕ) (data_ptr cleanup : Ptr) (id : ℕ) → ResourceState → ResourceState
of_host res type data_ptr cleanup id s =
    enlist res type data_ptr cleanup
      (record s { res = update s.res res (record (s.res res) { id = id }) })

resource_new-of_host :
    (h : Host) (res : Ptr) (type : ℕ) (data_ptr cleanup : Ptr) (id : ℕ) (s : ResourceState)
    → s.initialized ≡ true
    → res ≢ null
    → type < res_max
    → h.resource_new type data_ptr ≡ (vaccel_ok, id)
    → 1 ≤ id
    → id < 2 ^ 31
    → resource_new (some h) res type data_ptr cleanup s
      ≡ ok (vaccel_ok, of_host res type data_ptr cleanup id s)
unfolding resource_new obtain_id
resource_new-of_host h res type data_ptr cleanup id s up real known gives low high =
    rw gives (ground arith)

-- A resource that is made with an id of the host, of a VirtIO plugin, while no other is live: at
-- the end of the library the plugin is gone before the resources are destroyed, so that the id
-- goes to the library's own pool, which never gave one, and `vaccel_fini` writes in front of the
-- array of ids. The id is one of 1 to the size of that pool, and the plugins are well-formed.
pub vaccel_fini-of_host :
    (os : FileOs) (hosts : Ptr → Host) (lib : Library) (res : Ptr) (type : ℕ)
    → (data_ptr cleanup : Ptr) (id : ℕ) → Wellformed lib.plugins
    → lib.plugins.initialized ≡ true
    → lib.plugins.virtio ≢ null
    → IsLive lib.sessions.resources
    → lib.sessions.resources.live 0 ≡ []
    → res ≢ null
    → type < res_max
    → (hosts lib.plugins.virtio).resource_new type data_ptr ≡ (vaccel_ok, id)
    → 1 ≤ id
    → id ≤ lib.sessions.resources.pool.max
    → (s : ResourceState) × (resource_new
          (host_of hosts lib.plugins)
          res
          type
          data_ptr
          cleanup
          lib.sessions.resources
        ≡ ok (vaccel_ok, s))
      × (vaccel_fini os hosts (record lib { sessions = record lib.sessions { resources = s } })
          ≡ fault)
unfolding vaccel_fini get_virtio_plugin enlist
vaccel_fini-of_host os hosts lib res type data_ptr cleanup id w up virtio v none_live real known
      gives low high =
    let r = lib.sessions.resources in
    let s = of_host res type data_ptr cleanup id r in
    let (_, _, no_virtio, _) = plugins_shutdown-Cleared lib.plugins w up in
    let is_host : (lib.plugins.virtio == null) ≡ false = ground arith in
    let none_given : r.pool.next ≡ 0 =
      v.serves.counted ∙ ap (λ l. length (map (id_of r) l)) none_live in
    (
      s,
      rw is_host (
          resource_new-of_host (hosts lib.plugins.virtio) res type data_ptr cleanup id r
            v.initialized real known gives low (omega (arith, v.serves.int))),
      rw
          (
            no_virtio,
            cleanup_foreign res [] s v.initialized (ground (arith, none_live)) (
                destroy_foreign res s v.initialized real (ground arith) (ground arith)
                  (ground arith) v.serves.int v.serves.size none_given),
          )
          refl,
    )
