-- ===== src/Manager/Closed.antt =====
-- worker/manager/: what is kept by the calls that change the database is kept by every method.
pub mod Writes
pub mod Stores
pub mod Requests
pub mod Removal
pub mod Startup
use coriolis_snapshot_agent.Common.{ℕ, ◌≡◌, false, List, [], ◌∷◌, String, ◌==◌}
use coriolis_snapshot_agent.Bolthold.{Bolthold, matching, has_key}
use coriolis_snapshot_agent.Bolthold.Present.{IsPresent}
use coriolis_snapshot_agent.Db.Models.{
  TrackedDisk, SnapStoreFilesLocation, SnapStore, SnapStoreFile, SnapshotImage, VolumeSnapshot,
  Snapshot, SnapStoreMapping,
}
use coriolis_snapshot_agent.Db.Connection.{Database}
use coriolis_snapshot_agent.Db.Disks.{create_tracked_disk, create_snap_store_file_location}
use coriolis_snapshot_agent.Db.Stores.{delete_snap_store}
use coriolis_snapshot_agent.Manager.{Texts}
use coriolis_snapshot_agent.Manager.Kept.{Keeps}
use coriolis_snapshot_agent.Manager.Mappings.{MappingRequest, add_mapping}
use coriolis_snapshot_agent.Manager.MessageLoop.{record_snap_store_file}

module _ ⦃bolt : Bolthold⦄ where
  open bolt use {Bucket, rows, inserted}

  -- When `CreateSnapStore` stores a row: its disk and its location are known, the disk is mapped to the place of the store and has
  -- no snap store, and its id is free.
  pub record IsNewStore (store : SnapStore) (d : Database) : Type 0 where
    pub more : List TrackedDisk
    pub disk_known :
        matching
          (λ t. t.tracking_id == store.tracked_disk.tracking_id)
          (rows TrackedDisk d.tracked_disks)
        ≡ store.tracked_disk ∷ more
    pub mapping : SnapStoreMapping
    pub others : List SnapStoreMapping
    pub disk_mapped :
        matching
          (λ m. m.tracked_disk.tracking_id == store.tracked_disk.tracking_id)
          (rows SnapStoreMapping d.mappings)
        ≡ mapping ∷ others
    pub placed : store.storage_location.path ≡ mapping.location.path
    pub place_known :
        IsPresent
          (λ f. f.path == store.storage_location.path)
          (rows SnapStoreFilesLocation d.locations)
    pub unstored :
        matching
          (λ t. t.tracked_disk.tracking_id == store.tracked_disk.tracking_id)
          (rows SnapStore d.snap_stores)
        ≡ []
    pub free : has_key store.snap_store_id (rows SnapStore d.snap_stores) ≡ false

  abbrev pub with_store : SnapStore → Database → Database
  with_store store d = record d {
    snap_stores = inserted SnapStore store.snap_store_id store d.snap_stores;
  }

  -- The property does not depend on the files and the snapshots, and the calls that change another
  -- bucket keep it.
  pub record IsClosed (P : Database → Type 0) : Type 0 where
    pub files : (b : Bucket SnapStoreFile) (d : Database) → P d → P (record d { files = b })
    pub images : (b : Bucket SnapshotImage) (d : Database) → P d → P (record d { images = b })
    pub volume_snapshots :
        (b : Bucket VolumeSnapshot) (d : Database) → P d → P (record d { volume_snapshots = b })
    pub snapshots : (b : Bucket Snapshot) (d : Database) → P d → P (record d { snapshots = b })
    pub disk : (disk : TrackedDisk) → Keeps P (create_tracked_disk disk)
    pub location : (l : SnapStoreFilesLocation) → Keeps P (create_snap_store_file_location l)
    pub mapping : (id : String) (param : MappingRequest) → Keeps P (add_mapping id param)
    pub store :
        (store : SnapStore) (d : Database) → IsNewStore store d → P d → P (with_store store d)
    pub record_file :
        (texts : Texts) (id path : String) (size : ℕ)
        → Keeps P (record_snap_store_file texts id path size)
    pub delete_store : (id : String) → Keeps P (delete_snap_store id)
