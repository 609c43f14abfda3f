-- ===== src/Manager/Linked.antt =====
-- worker/manager/: what a mapping and a snap store refer to is in the database.
pub mod Calls
use coriolis_snapshot_agent.Common.{List, String, ◌==◌, All}
use coriolis_snapshot_agent.Bolthold.{Bolthold}
use coriolis_snapshot_agent.Bolthold.Present.{IsPresent}
use coriolis_snapshot_agent.Db.Models.{
  TrackedDisk, SnapStoreFilesLocation, SnapStoreMapping, SnapStore,
}
use coriolis_snapshot_agent.Db.Connection.{Database}

module _ ⦃bolt : Bolthold⦄ where
  open bolt use {Bucket, rows}

  abbrev pub HasDisk : Bucket TrackedDisk → TrackedDisk → Type 0
  HasDisk disks d = IsPresent (λ t. t.tracking_id == d.tracking_id) (rows TrackedDisk disks)

  abbrev pub HasLocation : Bucket SnapStoreFilesLocation → SnapStoreFilesLocation → Type 0
  HasLocation locations l =
      IsPresent (λ f. f.path == l.path) (rows SnapStoreFilesLocation locations)

  -- The disk and the location of every mapping and of every snap store.
  pub record IsLinked (disks : Bucket TrackedDisk) (locations : Bucket SnapStoreFilesLocation)
      (mappings : Bucket SnapStoreMapping) (stores : Bucket SnapStore) : Type 0 where
    pub mapped_disks :
        All
          (λ (r : String × SnapStoreMapping). HasDisk disks r.1.tracked_disk)
          (rows SnapStoreMapping mappings)
    pub mapped_places :
        All
          (λ (r : String × SnapStoreMapping). HasLocation locations r.1.location)
          (rows SnapStoreMapping mappings)
    pub store_disks :
        All (λ (r : String × SnapStore). HasDisk disks r.1.tracked_disk) (rows SnapStore stores)
    pub store_places :
        All
          (λ (r : String × SnapStore). HasLocation locations r.1.storage_location)
          (rows SnapStore stores)

  unfoldable pub Linked : Database → Type 0
  Linked d = IsLinked d.tracked_disks d.locations d.mappings d.snap_stores
