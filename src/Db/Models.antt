-- ===== src/Db/Models.antt =====
-- db/models.go. A `[]byte` is the list of its bytes; the paths are texts.
use coriolis_snapshot_agent.Common.{ℕ, Bool, false, List}
use Prim.Native.String.{String}

pub data VolumeStatus : Type 0 where
  -- the zero value of the string type
  unset : VolumeStatus
  healthy overflow : VolumeStatus

pub record TrackedDisk : Type 0 where
  pub tracking_id : String
  pub path : String
  pub major : ℕ
  pub minor : ℕ
  pub sector_size : ℕ

pub record SnapStoreFilesLocation : Type 0 where
  pub path : String
  pub total_capacity : ℕ
  pub device_path : String
  pub major : ℕ
  pub minor : ℕ
  pub enabled : Bool

pub record SnapStore : Type 0 where
  pub snap_store_id : String
  pub tracked_disk : TrackedDisk
  pub storage_location : SnapStoreFilesLocation
  pub total_allocated_size : ℕ

pub record SnapStoreMapping : Type 0 where
  pub tracking_id : String
  pub tracked_disk : TrackedDisk
  pub location : SnapStoreFilesLocation

pub record SnapStoreFile : Type 0 where
  pub tracking_id : String
  pub snap_store : SnapStore
  pub location : SnapStoreFilesLocation
  pub path : String
  pub size : ℕ

pub record SnapshotImage : Type 0 where
  pub tracking_id : String
  pub device_path : String
  pub major : ℕ
  pub minor : ℕ
  pub snapshot_id : String

pub record VolumeSnapshot : Type 0 where
  pub tracking_id : String
  pub snapshot_number : ℕ
  pub generation_id : String
  pub original_device : TrackedDisk
  pub snapshot_image : SnapshotImage
  pub bitmap : List ℕ
  pub snapshot_id : String
  pub snap_store : SnapStore
  pub status : VolumeStatus

pub record Snapshot : Type 0 where
  pub snapshot_id : String
  pub volume_snapshots : List VolumeSnapshot

-- The zero values of the struct types.
abbrev pub no_disk : TrackedDisk
no_disk = record { tracking_id = ""; path = ""; major = 0; minor = 0; sector_size = 0 }

abbrev pub no_location : SnapStoreFilesLocation
no_location = record {
  path = "";
  total_capacity = 0;
  device_path = "";
  major = 0;
  minor = 0;
  enabled = false;
}

abbrev pub no_store : SnapStore
no_store = record {
  snap_store_id = "";
  tracked_disk = no_disk;
  storage_location = no_location;
  total_allocated_size = 0;
}

abbrev pub no_image : SnapshotImage
no_image = record { tracking_id = ""; device_path = ""; major = 0; minor = 0; snapshot_id = "" }
