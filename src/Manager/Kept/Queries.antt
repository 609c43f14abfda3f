-- ===== src/Manager/Kept/Queries.antt =====
-- worker/manager/ and internal/system/: the methods that only show something keep every property of
-- the database.
use coriolis_snapshot_agent.Common.{ℕ, Bool, false, List, [], ◌∷◌, String}
use coriolis_snapshot_agent.Result.{Result}
use coriolis_snapshot_agent.Bolthold.{Bolthold}
use coriolis_snapshot_agent.Config.{Config}
use coriolis_snapshot_agent.Storage.{BlockVolume}
use coriolis_snapshot_agent.System.{Facts, get_system_info}
use coriolis_snapshot_agent.Db.Models.{SnapStoreFilesLocation, SnapStore, Snapshot}
use coriolis_snapshot_agent.Db.Connection.{Database}
use coriolis_snapshot_agent.Manager.{Texts}
use coriolis_snapshot_agent.Manager.State.{Kernel}
use coriolis_snapshot_agent.Manager.Host.{Host}
use coriolis_snapshot_agent.Manager.Kept.{
  Keeps, kept, InDb, Keeps-pure, Keeps-bind, Keeps-lift, Keeps-attempt,
}
use coriolis_snapshot_agent.Manager.Kept.Reads.{reads, Keeps-get_tracked_disk}
use coriolis_snapshot_agent.Manager.Disks.{disk_info, disk_infos, list_all_disks, show_tracked_disk}
use coriolis_snapshot_agent.Manager.Locations.{
  snap_store_location_info, fill_entries, list_locations,
}
use coriolis_snapshot_agent.Manager.Stores.Usage.{
  usage_of, snap_store_used_bytes, store_response, store_responses, show_snap_stores,
}
use coriolis_snapshot_agent.Manager.Mappings.{list_mappings}
use coriolis_snapshot_agent.Manager.Responses.{show_snapshot, show_snapshots}
use coriolis_snapshot_agent.Manager.Changes.{get_changed_sectors}
use coriolis_snapshot_agent.Manager.Volumes.{find_volume_snapshot_for_disk}

module _ ⦃bolt : Bolthold⦄ (P : Database → Type 0) where
  module _ (host : Host) (config : Config) where
    Keeps-disk_infos : (vs : List BlockVolume) → Keeps P (disk_infos host config vs)
    unfolding disk_infos
    Keeps-disk_infos [] = Keeps-pure P []
    Keeps-disk_infos (v ∷ vs) =
        Keeps-bind P _ _ (Keeps-attempt P _ (Keeps-get_tracked_disk P v.major v.minor)) (λ found.
          Keeps-bind P _ _ (Keeps-lift P (disk_info v found))
            (λ info. Keeps-bind P _ _ (Keeps-disk_infos vs) (λ rest. Keeps-pure P (info ∷ rest))))

    pub Keeps-list_all_disks : (a b : Bool) → Keeps P (list_all_disks host config a b)
    unfolding list_all_disks
    Keeps-list_all_disks a b = search (kept, Keeps-disk_infos) depth 8

    pub Keeps-show_tracked_disk : (id : String) → Keeps P (show_tracked_disk host config id)
    unfolding show_tracked_disk
    Keeps-show_tracked_disk id = search (kept, reads) depth 16

    pub Keeps-get_system_info :
        {InfoStat VirtualMemoryStat : Type 0} (facts : Facts InfoStat VirtualMemoryStat)
        → Keeps P (get_system_info facts (list_all_disks host config false false))
    unfolding get_system_info
    Keeps-get_system_info facts = search (kept, Keeps-list_all_disks) depth 24

  module _ (host : Host) where
    Keeps-snap_store_location_info :
        (l : SnapStoreFilesLocation) → Keeps P (snap_store_location_info host l)
    unfolding snap_store_location_info
    Keeps-snap_store_location_info l = search (kept, reads) depth 12

    Keeps-fill_entries :
        (n : ℕ) (ls : List SnapStoreFilesLocation) → Keeps P (fill_entries host n ls)
    unfolding fill_entries
    Keeps-fill_entries n [] = Keeps-pure P _
    Keeps-fill_entries n (l ∷ ls) = Keeps-bind P _ _ (Keeps-snap_store_location_info l) (λ info.
        Keeps-bind P _ _ (Keeps-lift P _) (λ left.
          Keeps-bind P _ _ (Keeps-fill_entries left ls) (λ rest. Keeps-pure P (info ∷ rest))))

    pub Keeps-list_locations : (config : Config) → Keeps P (list_locations host config)
    unfolding list_locations
    Keeps-list_locations config = search (kept, reads, Keeps-fill_entries) depth 8

  module _ (texts : Texts) (kernel : Kernel) where
    Keeps-usage_of :
        (id : List ℕ) (ss : List Snapshot) → Keeps (InDb P) (usage_of texts kernel id ss)
    unfolding usage_of
    Keeps-usage_of id [] = Keeps-pure (InDb P) 0
    Keeps-usage_of id (s ∷ ss) = search (kept) depth 8

    Keeps-snap_store_used_bytes :
        (id : String) → Keeps (InDb P) (snap_store_used_bytes texts kernel id)
    unfolding snap_store_used_bytes
    Keeps-snap_store_used_bytes id = search (kept, reads, Keeps-usage_of) depth 16

    Keeps-store_response : (store : SnapStore) → Keeps (InDb P) (store_response texts kernel store)
    unfolding store_response
    Keeps-store_response store = search (kept, reads, Keeps-snap_store_used_bytes) depth 12

    Keeps-store_responses : (ss : List SnapStore) → Keeps (InDb P) (store_responses texts kernel ss)
    unfolding store_responses
    Keeps-store_responses [] = Keeps-pure (InDb P) []
    Keeps-store_responses (s ∷ ss) = Keeps-bind (InDb P) _ _ (Keeps-store_response s) (λ r.
        Keeps-bind (InDb P) _ _ (Keeps-store_responses ss) (λ rs. Keeps-pure (InDb P) (r ∷ rs)))

    pub Keeps-show_snap_stores : Keeps (InDb P) (show_snap_stores texts kernel)
    unfolding show_snap_stores
    Keeps-show_snap_stores = search (kept, reads, Keeps-store_responses) depth 12

  pub Keeps-list_mappings : Keeps P list_mappings
  unfolding list_mappings
  Keeps-list_mappings = search (kept, reads) depth 8

  pub Keeps-show_snapshot : (id : String) → Keeps P (show_snapshot id)
  unfolding show_snapshot
  Keeps-show_snapshot id = search (kept, reads) depth 8

  pub Keeps-show_snapshots : Keeps P show_snapshots
  unfolding show_snapshots
  Keeps-show_snapshots = search (kept, reads) depth 8

  pub Keeps-find_volume_snapshot_for_disk :
      (id disk : String) → Keeps P (find_volume_snapshot_for_disk id disk)
  unfolding find_volume_snapshot_for_disk
  Keeps-find_volume_snapshot_for_disk id disk = search (kept, reads) depth 8

  pub Keeps-get_changed_sectors :
      (texts : Texts) (size : Result ℕ) (id disk generation : String) (previous : ℕ)
      → Keeps P (get_changed_sectors texts size id disk generation previous)
  unfolding get_changed_sectors
  Keeps-get_changed_sectors texts size id disk generation previous =
      search (kept, Keeps-find_volume_snapshot_for_disk) depth 12
