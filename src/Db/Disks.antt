-- ===== src/Db/Disks.antt =====
-- db/db.go: tracked disks, snap store locations and snap store mappings.
use coriolis_snapshot_agent.Common.{ℕ, true, ◌&&◌, List, String, ◌==◌, eqb}
use coriolis_snapshot_agent.Result.{Action, pure, wrapping, ◌>>◌}
use coriolis_snapshot_agent.Bolthold.{Bolthold}
use coriolis_snapshot_agent.Db.Models.{TrackedDisk, SnapStoreFilesLocation, SnapStoreMapping}
use coriolis_snapshot_agent.Db.Connection.{
  Database, disks_table, locations_table, mappings_table, con_find, con_find_one, con_insert,
  con_delete, or_not_found,
}

module _ ⦃bolt : Bolthold⦄ where
  unfoldable pub get_tracked_disk : ℕ → ℕ → Action Database TrackedDisk
  get_tracked_disk major minor =
      wrapping (con_find_one disks_table (λ t. eqb t.major major && eqb t.minor minor))

  unfoldable pub get_tracked_disk_by_tracking_id : String → Action Database TrackedDisk
  get_tracked_disk_by_tracking_id id =
      wrapping (con_find_one disks_table (λ t. t.tracking_id == id))

  -- The expression `.*` matches every text.
  unfoldable pub get_all_tracked_disks : Action Database (List TrackedDisk)
  get_all_tracked_disks = wrapping (con_find disks_table (λ t. true))

  unfoldable pub create_tracked_disk : TrackedDisk → Action Database TrackedDisk
  create_tracked_disk device = do
    wrapping (con_insert disks_table device.tracking_id device)
    pure device

  unfoldable pub get_snap_store_files_location : String → Action Database SnapStoreFilesLocation
  get_snap_store_files_location path =
      or_not_found (con_find_one locations_table (λ l. l.path == path))

  unfoldable pub get_snap_store_files_location_by_id :
      String → Action Database SnapStoreFilesLocation
  get_snap_store_files_location_by_id tracking_id =
      or_not_found (con_find_one locations_table (λ l. l.path == tracking_id))

  unfoldable pub create_snap_store_file_location :
      SnapStoreFilesLocation → Action Database SnapStoreFilesLocation
  create_snap_store_file_location location = do
    wrapping (con_insert locations_table location.path location)
    pure location

  unfoldable pub list_snap_store_files_locations : Action Database (List SnapStoreFilesLocation)
  list_snap_store_files_locations = wrapping (con_find locations_table (λ l. true))

  unfoldable pub get_snap_store_mapping_by_device_id : String → Action Database SnapStoreMapping
  get_snap_store_mapping_by_device_id id =
      or_not_found (con_find_one mappings_table (λ m. m.tracked_disk.tracking_id == id))

  unfoldable pub create_snap_store_mapping : SnapStoreMapping → Action Database SnapStoreMapping
  create_snap_store_mapping mapping = do
    wrapping (con_insert mappings_table mapping.tracking_id mapping)
    pure mapping

  unfoldable pub list_snap_store_mappings : Action Database (List SnapStoreMapping)
  list_snap_store_mappings = wrapping (con_find mappings_table (λ m. true))

  unfoldable pub delete_snap_store_mapping : String → Action Database (Unit {0})
  delete_snap_store_mapping tracking_id = wrapping (con_delete mappings_table tracking_id)
