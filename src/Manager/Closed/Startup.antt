-- ===== src/Manager/Closed/Startup.antt =====
-- worker/manager/initialization.go: the start of the manager keeps what is closed.
use coriolis_snapshot_agent.Common.{List, [], ◌∷◌, String}
use coriolis_snapshot_agent.Result.{Result, ok, err, attempt}
use coriolis_snapshot_agent.Types.{CbtInfo}
use coriolis_snapshot_agent.Bolthold.{Bolthold}
use coriolis_snapshot_agent.Config.{Config, ConfigHost, StoreMapping}
use coriolis_snapshot_agent.Storage.{BlockVolume}
use coriolis_snapshot_agent.Db.Models.{TrackedDisk}
use coriolis_snapshot_agent.Manager.{Texts}
use coriolis_snapshot_agent.Manager.State.{Kernel, View, removed_tree}
use coriolis_snapshot_agent.Manager.Host.{Host}
use coriolis_snapshot_agent.Manager.Host.{asked_now}
use coriolis_snapshot_agent.Manager.Kept.{
  Keeps-attempt, Keeps-asked_now, Keeps, kept, InDb, Keeps-pure, Keeps-bind, Keeps-wrapping,
  Keeps-done_now,
}
use coriolis_snapshot_agent.Manager.Kept.Reads.{reads}
use coriolis_snapshot_agent.Manager.Disks.{ensure_tracking, ensure_row, add_tracked_disk}
use coriolis_snapshot_agent.Manager.Locations.{add_snap_store_location}
use coriolis_snapshot_agent.Manager.Startup.{
  remove_names, clean_one, clean_storage, add_location, add_locations, map_device, add_mappings,
  init_storage_mappings, add_disks, init_tracked_disks, bring_up, clean_start, first_start,
  new_manager,
}
use coriolis_snapshot_agent.Manager.Closed.{IsClosed}
use coriolis_snapshot_agent.Db.Connection.{Database}
use coriolis_snapshot_agent.Manager.Closed.Writes.{closed_writes}
use coriolis_snapshot_agent.Manager.Kept.Watching.{Keeps-populate_watchers}

module _ ⦃bolt : Bolthold⦄ (P : Database → Type 0) (c : IsClosed P) (host : Host) where
  Closed-remove_names :
      (dir : String) (ns : List String) → Keeps (InDb P) (remove_names host dir ns)
  unfolding remove_names
  Closed-remove_names dir [] = Keeps-pure (InDb P) tt
  Closed-remove_names dir (n ∷ ns) =
      Keeps-bind (InDb P) _ _
        (Keeps-wrapping (InDb P) _ (
          Keeps-done_now P host (removed_tree (host.join dir n))
            (λ out. out.remove_all (host.join dir n))))
        (λ a. Closed-remove_names dir ns)

  Closed-clean_one : (dir : String) (r : Result (Unit {0})) → Keeps (InDb P) (clean_one host dir r)
  unfolding clean_one
  Closed-clean_one dir (ok a) = search (kept, Closed-remove_names) depth 8
  Closed-clean_one dir (err e) = search (kept) depth 8

  Closed-clean_storage : (dirs : List String) → Keeps (InDb P) (clean_storage host dirs)
  unfolding clean_storage
  Closed-clean_storage [] = Keeps-pure (InDb P) tt
  Closed-clean_storage (dir ∷ dirs) =
      Keeps-bind (InDb P) (attempt (asked_now host (λ out. out.stat dir))) _
        (Keeps-attempt (InDb P) _ (Keeps-asked_now P host (λ out. out.stat dir)))
        (λ found.
          Keeps-bind (InDb P) (clean_one host dir found) (λ a. clean_storage host dirs)
            (Closed-clean_one dir found) (λ a. Closed-clean_storage dirs))

  Closed-add_snap_store_location : (path : String) → Keeps P (add_snap_store_location host path)
  unfolding add_snap_store_location
  Closed-add_snap_store_location path = search (kept, reads, closed_writes) depth 24

  Closed-add_location : (path : String) → Keeps (InDb P) (add_location host path)
  unfolding add_location
  Closed-add_location path = search (kept, Closed-add_snap_store_location) depth 12

  Closed-add_locations : (paths : List String) → Keeps (InDb P) (add_locations host paths)
  unfolding add_locations
  Closed-add_locations [] = Keeps-pure (InDb P) tt
  Closed-add_locations (path ∷ paths) =
      Keeps-bind (InDb P) _ _ (Closed-add_location path) (λ a. Closed-add_locations paths)

  module _ (config : Config) (texts : Texts) where
    module _ (new_id : String → String) where
      Closed-map_device :
          (m : StoreMapping) → Keeps (InDb P) (map_device host config texts new_id m)
      unfolding map_device
      Closed-map_device m = search (kept, closed_writes) depth 12

      Closed-mappings :
          (ms : List StoreMapping) → Keeps (InDb P) (add_mappings host config texts new_id ms)
      unfolding add_mappings
      Closed-mappings [] = Keeps-pure (InDb P) tt
      Closed-mappings (m ∷ ms) =
          Keeps-bind (InDb P) _ _ (Closed-map_device m) (λ a. Closed-mappings ms)

      Closed-init_storage_mappings : Keeps (InDb P) (init_storage_mappings host config texts new_id)
      unfolding init_storage_mappings
      Closed-init_storage_mappings = search (kept, Closed-mappings) depth 8

    module _ (kernel : Kernel) (view : View) where
      Closed-ensure_tracking :
          (v : BlockVolume) (infos : List CbtInfo)
          → Keeps (InDb P) (ensure_tracking host config texts kernel view v infos)
      unfolding ensure_tracking
      Closed-ensure_tracking v infos = search (kept) depth 8

      Closed-ensure_row :
          (v : BlockVolume) (d : TrackedDisk)
          → Keeps (InDb P) (ensure_row host config texts kernel view v d)
      unfolding ensure_row
      Closed-ensure_row v d = search (kept, closed_writes) depth 8

      Closed-add_tracked_disk :
          (path : String) → Keeps (InDb P) (add_tracked_disk host config texts kernel view path)
      unfolding add_tracked_disk
      Closed-add_tracked_disk path =
          search (kept, reads, Closed-ensure_tracking, Closed-ensure_row) depth 24

      Closed-add_disks :
          (vs : List BlockVolume) → Keeps (InDb P) (add_disks host config texts kernel view vs)
      unfolding add_disks
      Closed-add_disks [] = Keeps-pure (InDb P) tt
      Closed-add_disks (v ∷ vs) =
          Keeps-bind (InDb P) _ _ (Keeps-wrapping (InDb P) _ (Closed-add_tracked_disk v.path))
            (λ a. Closed-add_disks vs)

      module _ (new_id : String → String) where
        Closed-init_tracked_disks :
            Keeps (InDb P) (init_tracked_disks host config texts kernel view new_id)
        unfolding init_tracked_disks
        Closed-init_tracked_disks =
            search (kept, Closed-add_disks, Closed-init_storage_mappings) depth 12

        Closed-bring_up : Keeps (InDb P) (bring_up host config texts kernel view new_id)
        unfolding bring_up
        Closed-bring_up =
            search (kept, Closed-add_locations, Closed-init_tracked_disks, Keeps-populate_watchers)
              depth 12

        Closed-first_start : Keeps (InDb P) (first_start host config texts kernel view new_id)
        unfolding first_start clean_start
        Closed-first_start = search (kept, Closed-clean_storage, Closed-bring_up) depth 12

        -- `NewManager`, whether or not it succeeds.
        pub Closed-new_manager :
            (checks : ConfigHost) (opened : Result (Unit {0}))
            → Keeps (InDb P) (new_manager host config texts kernel view checks opened new_id)
        unfolding new_manager
        Closed-new_manager checks opened =
            search (kept, Closed-first_start, Closed-bring_up) depth 16
