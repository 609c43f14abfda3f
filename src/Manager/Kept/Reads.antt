-- ===== src/Manager/Kept/Reads.antt =====
-- db/db.go: the queries change nothing, and the other calls change the bucket of one type.
use coriolis_snapshot_agent.Common.{ℕ, String}
use coriolis_snapshot_agent.Result.{Result, ok, err, wrapping, pure, ◌>>◌}
use coriolis_snapshot_agent.Bolthold.{Bolthold}
use coriolis_snapshot_agent.Db.Connection.{
  Database, Table, changed, con_insert, con_update, con_delete,
}
use coriolis_snapshot_agent.Db.Disks.{
  get_tracked_disk, get_tracked_disk_by_tracking_id, get_all_tracked_disks,
  get_snap_store_files_location, get_snap_store_files_location_by_id,
  list_snap_store_files_locations, get_snap_store_mapping_by_device_id, list_snap_store_mappings,
}
use coriolis_snapshot_agent.Db.Stores.{
  get_snap_store, get_snap_store_by_disk_id, list_snap_stores, find_snap_store_files,
  find_snap_stores_for_device, list_snap_store_files_for_snap_store, find_snap_store_location_files,
}
use coriolis_snapshot_agent.Db.Snapshots.{
  get_snapshot, list_snapshots_for_disk, list_all_snapshots, list_volume_snapshots_by_snapstore_id,
}
use coriolis_snapshot_agent.Manager.Kept.{Keeps, Keeps-pure, Keeps-read, Keeps-wrapping, Keeps-bind}

module _ ⦃bolt : Bolthold⦄ (P : Database → Type 0) where
  open bolt use {Bucket, insert, update, delete}

  Keeps-changed :
      {V : Type 0} (t : Table V) (r : Result (Bucket V)) (d : Database)
      → ((b : Bucket V) (d : Database) → P d → P (t.with_bucket b d))
      → P d
      → P ((changed t d r).1)
  Keeps-changed t (ok b) d h p = h b d p
  Keeps-changed t (err e) d h p = p

  module _ {V : Type 0} (t : Table V) where
    pub Keeps-con_insert :
        (k : String) (v : V)
        → ((b : Bucket V) (d : Database) → P d → P (t.with_bucket b d))
        → Keeps P (con_insert t k v)
    Keeps-con_insert k v h = record {
      step = λ d p. Keeps-changed t (insert V k v (t.bucket d)) d h p;
    }

    -- `d.con.Insert(k, &v)`, after which `v` is returned.
    pub Keeps-created :
        (k : String) (v : V)
        → ((b : Bucket V) (d : Database) → P d → P (t.with_bucket b d))
        → Keeps P (do wrapping (con_insert t k v); pure v)
    Keeps-created k v h =
        Keeps-bind P (wrapping (con_insert t k v)) (λ a. pure v)
          (Keeps-wrapping P (con_insert t k v) (Keeps-con_insert k v h)) (λ a. Keeps-pure P v)

    pub Keeps-con_update :
        (k : String) (v : V)
        → ((b : Bucket V) (d : Database) → P d → P (t.with_bucket b d))
        → Keeps P (con_update t k v)
    Keeps-con_update k v h = record {
      step = λ d p. Keeps-changed t (update V k v (t.bucket d)) d h p;
    }

    pub Keeps-con_delete :
        (k : String)
        → ((b : Bucket V) (d : Database) → P d → P (t.with_bucket b d))
        → Keeps P (con_delete t k)
    Keeps-con_delete k h = record { step = λ d p. Keeps-changed t (delete V k (t.bucket d)) d h p }

  pub Keeps-get_tracked_disk : (major minor : ℕ) → Keeps P (get_tracked_disk major minor)
  unfolding get_tracked_disk
  Keeps-get_tracked_disk major minor = record { step = λ d p. p }

  pub Keeps-get_tracked_disk_by_tracking_id :
      (id : String) → Keeps P (get_tracked_disk_by_tracking_id id)
  unfolding get_tracked_disk_by_tracking_id
  Keeps-get_tracked_disk_by_tracking_id id = record { step = λ d p. p }

  pub Keeps-get_all_tracked_disks : Keeps P get_all_tracked_disks
  unfolding get_all_tracked_disks
  Keeps-get_all_tracked_disks = record { step = λ d p. p }

  pub Keeps-get_snap_store_files_location :
      (path : String) → Keeps P (get_snap_store_files_location path)
  unfolding get_snap_store_files_location
  Keeps-get_snap_store_files_location path = record { step = λ d p. p }

  pub Keeps-get_snap_store_files_location_by_id :
      (id : String) → Keeps P (get_snap_store_files_location_by_id id)
  unfolding get_snap_store_files_location_by_id
  Keeps-get_snap_store_files_location_by_id id = record { step = λ d p. p }

  pub Keeps-list_snap_store_files_locations : Keeps P list_snap_store_files_locations
  unfolding list_snap_store_files_locations
  Keeps-list_snap_store_files_locations = record { step = λ d p. p }

  pub Keeps-get_snap_store_mapping_by_device_id :
      (id : String) → Keeps P (get_snap_store_mapping_by_device_id id)
  unfolding get_snap_store_mapping_by_device_id
  Keeps-get_snap_store_mapping_by_device_id id = record { step = λ d p. p }

  pub Keeps-list_snap_store_mappings : Keeps P list_snap_store_mappings
  unfolding list_snap_store_mappings
  Keeps-list_snap_store_mappings = record { step = λ d p. p }

  pub Keeps-get_snap_store : (id : String) → Keeps P (get_snap_store id)
  unfolding get_snap_store
  Keeps-get_snap_store id = record { step = λ d p. p }

  pub Keeps-get_snap_store_by_disk_id : (id : String) → Keeps P (get_snap_store_by_disk_id id)
  unfolding get_snap_store_by_disk_id
  Keeps-get_snap_store_by_disk_id id = record { step = λ d p. p }

  pub Keeps-list_snap_stores : Keeps P list_snap_stores
  unfolding list_snap_stores
  Keeps-list_snap_stores = record { step = λ d p. p }

  pub Keeps-find_snap_store_files : (id : String) → Keeps P (find_snap_store_files id)
  unfolding find_snap_store_files
  Keeps-find_snap_store_files id = record { step = λ d p. p }

  pub Keeps-find_snap_stores_for_device : (id : String) → Keeps P (find_snap_stores_for_device id)
  unfolding find_snap_stores_for_device
  Keeps-find_snap_stores_for_device id = record { step = λ d p. p }

  pub Keeps-list_snap_store_files_for_snap_store :
      (id : String) → Keeps P (list_snap_store_files_for_snap_store id)
  unfolding list_snap_store_files_for_snap_store
  Keeps-list_snap_store_files_for_snap_store id = record { step = λ d p. p }

  pub Keeps-find_snap_store_location_files :
      (path : String) → Keeps P (find_snap_store_location_files path)
  unfolding find_snap_store_location_files
  Keeps-find_snap_store_location_files path = record { step = λ d p. p }

  pub Keeps-get_snapshot : (id : String) → Keeps P (get_snapshot id)
  unfolding get_snapshot
  Keeps-get_snapshot id = record { step = λ d p. p }

  pub Keeps-list_all_snapshots : Keeps P list_all_snapshots
  unfolding list_all_snapshots
  Keeps-list_all_snapshots = record { step = λ d p. p }

  pub Keeps-list_volume_snapshots_by_snapstore_id :
      (id : String) → Keeps P (list_volume_snapshots_by_snapstore_id id)
  unfolding list_volume_snapshots_by_snapstore_id
  Keeps-list_volume_snapshots_by_snapstore_id id = record { step = λ d p. p }

  pub Keeps-list_snapshots_for_disk : (id : String) → Keeps P (list_snapshots_for_disk id)
  unfolding list_snapshots_for_disk
  Keeps-list_snapshots_for_disk id = search (Keeps-bind, Keeps-wrapping, Keeps-read) depth 8

  pub ruleset reads = (
    Keeps-get_tracked_disk, Keeps-get_tracked_disk_by_tracking_id, Keeps-get_all_tracked_disks,
    Keeps-get_snap_store_files_location, Keeps-get_snap_store_files_location_by_id,
    Keeps-list_snap_store_files_locations, Keeps-get_snap_store_mapping_by_device_id,
    Keeps-list_snap_store_mappings, Keeps-get_snap_store, Keeps-get_snap_store_by_disk_id,
    Keeps-list_snap_stores, Keeps-find_snap_store_files, Keeps-find_snap_stores_for_device,
    Keeps-list_snap_store_files_for_snap_store, Keeps-find_snap_store_location_files,
    Keeps-get_snapshot, Keeps-list_all_snapshots, Keeps-list_volume_snapshots_by_snapstore_id,
    Keeps-list_snapshots_for_disk,
  )
