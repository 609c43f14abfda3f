-- ===== src/Service/Invariants.antt =====
-- What is kept by the calls that change the database holds in every state that the service reaches.
use coriolis_snapshot_agent.Common.{
  ℕ, inl, inr, Bool, true, false, List, [], String, none, some, ◌==◌, ◌||◌, if◌then◌else◌,
  Bool-cases,
}
use coriolis_snapshot_agent.Result.{Result, ok, err, Action, pure}
use coriolis_snapshot_agent.Bolthold.{Bolthold}
use coriolis_snapshot_agent.Config.{Config}
use coriolis_snapshot_agent.Db.Connection.{Database}
use coriolis_snapshot_agent.Manager.{Texts}
use coriolis_snapshot_agent.Manager.State.{Agent}
use coriolis_snapshot_agent.Manager.Kept.{Keeps, InDb, Keeps-in_db, Keeps-bind, Keeps-pure}
use coriolis_snapshot_agent.Manager.Kept.Queries.{
  Keeps-list_all_disks, Keeps-show_tracked_disk, Keeps-get_system_info, Keeps-list_locations,
  Keeps-show_snap_stores, Keeps-list_mappings, Keeps-show_snapshot, Keeps-show_snapshots,
  Keeps-find_volume_snapshot_for_disk, Keeps-get_changed_sectors,
}
use coriolis_snapshot_agent.Manager.Request.{DiskRequest}
use coriolis_snapshot_agent.Manager.Mappings.{MappingRequest}
use coriolis_snapshot_agent.Manager.Responses.{snapshot_response}
use coriolis_snapshot_agent.Manager.Closed.{IsClosed}
use coriolis_snapshot_agent.Manager.Closed.Requests.{Closed-request_snapshot}
use coriolis_snapshot_agent.Manager.Closed.Removal.{Closed-remove_snapshot, Closed-handle_message}
use coriolis_snapshot_agent.Manager.Closed.Startup.{Closed-new_manager}
use coriolis_snapshot_agent.Api.{
  Reply, refuse, answer, list_disks_handler, get_disk_handler, list_snap_store_locations,
  list_snap_store_handler, create_snapshot_handler, list_snapshots_handler, get_snapshot_handler,
  delete_snapshot_handler, create_snap_store_mapping_handler, list_snap_store_mappings_handler,
  get_changed_sectors_handler, consume_snapshot_handler, not_found_handler, system_info_handler,
}
use coriolis_snapshot_agent.Service.{
  World, Request, Step, Reach, served, started, request, message, watched, restart, fresh_start,
  here, next, list_disks, get_disk, list_locations, list_snap_stores, create_snapshot,
  list_snapshots, get_snapshot, delete_snapshot, create_mapping, list_mappings, get_changes,
  consume_snapshot, system_info, not_found,
}

-- `if b { …; return }`, before a method of the manager is called.
guarded :
    ⦃bolt : Bolthold⦄ (P : Database → Type 0) {A : Type 0} (b : Bool) (r : Reply A)
    (m : Action Agent A) (s : Agent)
    → Keeps (InDb P) m
    → P s.db
    → P (((if b then refuse r else answer m) s).1).db
unfolding InDb
guarded P true r m s h p = p
guarded P false r m s h p = h.step s p

module _ ⦃bolt : Bolthold⦄ (P : Database → Type 0) (c : IsClosed P)
    (InfoStat VirtualMemoryStat : Type 0) (config : Config) (texts : Texts) where
  module _ (w : World InfoStat VirtualMemoryStat) where
    Closed-created :
        (body : Result (List DiskRequest)) (s : Agent)
        → P s.db
        → P ((create_snapshot_handler w.host config texts w.kernel w.view body s).1).db
    unfolding create_snapshot_handler InDb
    Closed-created (err e) s p = p
    Closed-created (ok qs) s p =
        (Keeps-bind (InDb P) _ (λ snapshot. pure (snapshot_response snapshot))
            (Closed-request_snapshot P c w.host config texts w.kernel w.view qs)
            (λ snapshot. Keeps-pure (InDb P) (snapshot_response snapshot))).step
          s p

    Closed-mapped :
        (id : String) (body : Result MappingRequest) (s : Agent)
        → P s.db
        → P ((create_snap_store_mapping_handler w.host config texts w.kernel w.view id body s).1).db
    unfolding create_snap_store_mapping_handler
    Closed-mapped id (err e) s p = p
    Closed-mapped id (ok param) s p = guarded P _ _ _ s (Keeps-in_db P _ (c.mapping id param)) p

    Closed-changes :
        (id disk generation : String) (previous : ℕ) (s : Agent)
        → P s.db
        → P
            ((get_changed_sectors_handler w.host config texts w.kernel w.view w.block_size id disk
                generation previous s).1
              ).db
    unfolding get_changed_sectors_handler
    Closed-changes id disk generation previous s p =
        guarded P _ _ _ s
          (Keeps-in_db P _ (Keeps-get_changed_sectors P texts w.block_size id disk generation _)) p

    Closed-consumed :
        (id disk : String) (s : Agent)
        → P s.db
        → P
            ((consume_snapshot_handler w.host config texts w.kernel w.view w.open_image id disk s).1
              ).db
    unfolding consume_snapshot_handler
    Closed-consumed id disk s p = elim (Bool-cases ((id == "") || (disk == ""))) [
      | inl t ↦ rw t p
      | inr t ↦ rw t ((Keeps-find_volume_snapshot_for_disk P id disk).step s.db p)
    ]

    Closed-served :
        (q : Request) (s : Agent)
        → P s.db
        → P ((served InfoStat VirtualMemoryStat config texts w q s).db)
    unfolding served InDb list_disks_handler list_snap_store_locations get_disk_handler
        list_snap_store_handler list_snapshots_handler get_snapshot_handler delete_snapshot_handler
        list_snap_store_mappings_handler system_info_handler not_found_handler
    Closed-served (list_disks a b) s p = (Keeps-list_all_disks P w.host config _ _).step s.db p
    Closed-served (get_disk none) s p = p
    Closed-served (get_disk (some id)) s p =
        (Keeps-show_tracked_disk P w.host config id).step s.db p
    Closed-served list_locations s p = (Keeps-list_locations P w.host config).step s.db p
    Closed-served list_snap_stores s p = (Keeps-show_snap_stores P texts w.kernel).step s p
    Closed-served (create_snapshot body) s p = Closed-created body s p
    Closed-served list_snapshots s p = (Keeps-show_snapshots P).step s.db p
    Closed-served (get_snapshot none) s p = p
    Closed-served (get_snapshot (some id)) s p = (Keeps-show_snapshot P id).step s.db p
    Closed-served (delete_snapshot none) s p = p
    Closed-served (delete_snapshot (some id)) s p =
        (Closed-remove_snapshot P c texts w.kernel id).step s p
    Closed-served (create_mapping id body) s p = Closed-mapped id body s p
    Closed-served list_mappings s p = (Keeps-list_mappings P).step s.db p
    Closed-served (get_changes id disk generation previous) s p =
        Closed-changes id disk generation previous s p
    Closed-served (consume_snapshot id disk) s p = Closed-consumed id disk s p
    Closed-served system_info s p = (Keeps-get_system_info P w.host config w.facts).step s.db p
    Closed-served not_found s p = p

    Closed-started :
        (s : Agent) → P s.db → P ((started InfoStat VirtualMemoryStat config texts w s).db)
    unfolding started InDb
    Closed-started s p =
        (Closed-new_manager P c w.host config texts w.kernel w.view w.new_id w.config_host
            w.open_database).step
          (record s { watchers = [] }) p

  pub Step-Closed :
      {s t : Agent} → Step InfoStat VirtualMemoryStat config texts s t → P s.db → P t.db
  Step-Closed (request w q s) p = Closed-served w q s p
  Step-Closed (message m s) p = (Closed-handle_message P c texts m).step s.db p
  Step-Closed (watched ws s) p = p
  Step-Closed (restart w s e) p = Closed-started w s p
  Step-Closed (fresh_start w s e n) p = Closed-started w s p

  pub Reach-Closed :
      {s t : Agent} → P s.db → Reach InfoStat VirtualMemoryStat config texts s t → P t.db
  Reach-Closed p here = p
  Reach-Closed p (next r st) = Step-Closed st (Reach-Closed p r)
