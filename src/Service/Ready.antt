-- ===== src/Service/Ready.antt =====
-- cmd/coriolis-snapshot-agent/main.go: what holds when the server starts.
use mathlib.Core.Path.{subst}
use coriolis_snapshot_agent.Common.{◌≡◌, refl, true, [], String, inl, inr, Bool-cases, arith, []}
use coriolis_snapshot_agent.Result.{
  ok, ◌>>◌, wrapping, Result-cases, bind-ok, wrapping-ok, on_error-ok,
}
use coriolis_snapshot_agent.Bolthold.{Bolthold, matching}
use coriolis_snapshot_agent.Config.{Config, validate, validate_tls, parse_config}
use coriolis_snapshot_agent.Config.Validation.{IsValid, parse_config-IsValid}
use coriolis_snapshot_agent.Ioctl.{Module, set_missing_kernel_entries}
use coriolis_snapshot_agent.Db.Models.{SnapStore}
use coriolis_snapshot_agent.Manager.{Texts, logged}
use coriolis_snapshot_agent.Manager.State.{Agent, on_disk, removed_file}
use coriolis_snapshot_agent.Manager.Startup.{
  populate_watchers, bring_up, needs_init, add_locations, init_tracked_disks, clean_storage,
  first_start, clean_start, new_manager,
}
use coriolis_snapshot_agent.Db.Connection.{Database}
use coriolis_snapshot_agent.Manager.Kept.{InDb}
use coriolis_snapshot_agent.Manager.Kept.Watching.{Keeps-populate_watchers}
use coriolis_snapshot_agent.Manager.Startup.Populated.{AllWatched, populate_watchers-AllWatched}
use coriolis_snapshot_agent.Service.{World, new_manager}
use coriolis_snapshot_agent.Service.Main.{Flags, come_up, main, serves, get_logging_writer}

module _ ⦃bolt : Bolthold⦄ {InfoStat VirtualMemoryStat : Type 0} (texts : Texts) (kmod : Module)
    (w : World InfoStat VirtualMemoryStat) where
  open bolt use {rows}

  module _ (config : Config) where
    -- Every snap store of the database has a watcher.
    pub IsReady : Agent → Type 0
    IsReady t =
        AllWatched w.host config texts (matching (λ store. true) (rows SnapStore t.db.snap_stores))
          t

    populated : (s t : Agent) → populate_watchers w.host config texts s ≡ (ok tt, t) → IsReady t
    unfolding IsReady InDb
    populated s t h =
        let same : ((populate_watchers w.host config texts s).1).db ≡ s.db =
          (Keeps-populate_watchers (λ d. d ≡ s.db) w.host config texts).step s refl in
        let back : s.db ≡ t.db = cc (same, h) in
        subst
          (λ (d : Database).
            AllWatched w.host config texts (matching (λ store. true) (rows SnapStore d.snap_stores))
              t)
          back (populate_watchers-AllWatched w.host config texts s t h)

    brought_up :
        (s t : Agent)
        → bring_up w.host config texts w.kernel w.view w.new_id s ≡ (ok tt, t)
        → IsReady t
    unfolding bring_up
    brought_up s t h =
        let disks = wrapping (init_tracked_disks w.host config texts w.kernel w.view w.new_id) in
        let watchers = wrapping (populate_watchers w.host config texts) in
        let (a, u, e, f) =
          bind-ok (wrapping (add_locations w.host config.cow_destination)) (λ x. disks >> watchers)
            s t tt h in
        let (b, v, g, i) = bind-ok disks (λ x. watchers) u t tt f in
        populated v t (wrapping-ok (populate_watchers w.host config texts) v t tt i)

    cleanly_started :
        (s t : Agent)
        → first_start w.host config texts w.kernel w.view w.new_id s ≡ (ok tt, t)
        → IsReady t
    unfolding first_start clean_start
    cleanly_started s t h =
        let started =
          on_error-ok
            (logged (on_disk (removed_file config.db_file) (w.host.remove_file config.db_file)))
            (clean_start w.host config texts w.kernel w.view w.new_id) s t tt h in
        let (a, u, e, f) =
          bind-ok (wrapping (clean_storage w.host config.cow_destination))
            (λ x. bring_up w.host config texts w.kernel w.view w.new_id) s t tt started in
        brought_up u t f

    managed :
        (s t : Agent)
        → new_manager w.host config texts w.kernel w.view w.config_host w.open_database w.new_id s
          ≡ (ok tt, t)
        → IsReady t
    unfolding new_manager
    managed s t h = elim (Result-cases (validate w.config_host config)) [
      | inr (x, e) ↦ absurd (ground (arith, e, h))
      | inl (a, e) ↦
          elim (Result-cases (
            needs_init w.host config texts w.kernel w.view
              ((w.host.outside s.disk_ops).stat config.db_file))) [
                | inr (x, f) ↦ absurd (ground (arith, e, f, h))
                | inl (init, f) ↦ elim (Result-cases w.open_database) [
                  | inr (x, g) ↦ absurd (ground (arith, e, f, g, h))
                  | inl (b, g) ↦ elim (Bool-cases init) [
                    | inl y ↦ cleanly_started s t (ground (arith, e, f, g, y, h))
                    | inr n ↦ brought_up s t (ground (arith, e, f, g, n, h))
                  ]
                ]
              ]
    ]

  came_up :
      (conf : String) (s t : Agent) (config : Config)
      → come_up texts kmod w conf s ≡ (ok config, t)
      → IsValid w.config_host config
        × ((set_missing_kernel_entries kmod []).0 ≡ ok tt)
        × IsReady config t
  unfolding come_up
  came_up conf s t config h = elim (Result-cases (parse_config w.config_host conf)) [
    | inr (x, e) ↦ absurd (ground (arith, e, h))
    | inl (c, e) ↦
        let u = (get_logging_writer texts kmod w c s).1 in
        let v =
          (new_manager w.host c texts w.kernel w.view w.config_host w.open_database w.new_id u).1 in
        elim (Result-cases ((get_logging_writer texts kmod w c s).0)) [
          | inr (x, f) ↦ absurd (ground (arith, e, f, h))
          | inl (out, f) ↦ elim (Result-cases ((set_missing_kernel_entries kmod []).0)) [
            | inr (x, g) ↦ absurd (ground (arith, e, f, g, h))
            | inl (k, g) ↦
                elim (Result-cases (
                  (new_manager w.host c texts w.kernel w.view w.config_host w.open_database w.new_id
                    u).0)) [
                      | inr (x, i) ↦ absurd (ground (arith, e, f, g, i, h))
                      | inl (m, i) ↦
                          elim (Result-cases (validate_tls w.config_host c.api_server.tls_config)) [
                            | inr (x, j) ↦ absurd (ground (arith, e, f, g, i, j, h))
                            | inl (l, j) ↦
                                let ends : (c, v) ≡ (config, t) =
                                  ground (arith, e, f, g, i, j, h) in
                                subst
                                  (λ (r : Config × Agent).
                                    IsValid w.config_host (r.0)
                                    × ((set_missing_kernel_entries kmod []).0 ≡ ok tt)
                                    × IsReady (r.0) (r.1))
                                  ends
                                  (
                                    (parse_config-IsValid w.config_host conf c e).0,
                                    g,
                                    managed c u v (ground (arith, i)),
                                  )
                          ]
                    ]
          ]
        ]
  ]

  -- A process whose server starts has a configuration that is valid, has resolved the kernel entries,
  -- and has a watcher for every snap store of its database.
  pub main-IsReady :
      (flags : Flags) (s t : Agent) (config : Config)
      → main texts kmod w flags s ≡ (serves config, t)
      → IsValid w.config_host config
        × ((set_missing_kernel_entries kmod []).0 ≡ ok tt)
        × IsReady config t
  unfolding main
  main-IsReady flags s t config h = elim (Bool-cases flags.version) [
    | inl y ↦ absurd (ground (arith, y, h))
    | inr n ↦ elim (Bool-cases flags.install) [
      | inl y ↦ absurd (ground (arith, n, y, h))
      | inr k ↦
          elim (Result-cases ((come_up texts kmod w flags.conf (record s { watchers = [] })).0)) [
            | inr (x, e) ↦ absurd (ground (arith, n, k, e, h))
            | inl (c, e) ↦
                came_up flags.conf (record s { watchers = [] }) t config
                  (ground (arith, n, k, e, h))
          ]
    ]
  ]
