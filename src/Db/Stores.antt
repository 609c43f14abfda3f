-- ===== src/Db/Stores.antt =====
-- db/db.go: snap stores and their files.
use coriolis_snapshot_agent.Common.{true, List, String, ◌==◌}
use coriolis_snapshot_agent.Result.{Action, pure, wrapping, ◌>>◌}
use coriolis_snapshot_agent.Bolthold.{Bolthold}
use coriolis_snapshot_agent.Db.Models.{SnapStore, SnapStoreFile}
use coriolis_snapshot_agent.Db.Connection.{
  Database, stores_table, files_table, con_find, con_find_one, con_insert, con_update, con_delete,
  or_not_found, or_missing,
}

module _ ⦃bolt : Bolthold⦄ where
  unfoldable pub get_snap_store : String → Action Database SnapStore
  get_snap_store id = or_not_found (con_find_one stores_table (λ s. s.snap_store_id == id))

  unfoldable pub update_snap_store : SnapStore → Action Database (Unit {0})
  update_snap_store param = wrapping (con_update stores_table param.snap_store_id param)

  unfoldable pub get_snap_store_by_disk_id : String → Action Database SnapStore
  get_snap_store_by_disk_id disk_id =
      or_not_found (con_find_one stores_table (λ s. s.tracked_disk.tracking_id == disk_id))

  unfoldable pub list_snap_stores : Action Database (List SnapStore)
  list_snap_stores = wrapping (con_find stores_table (λ s. true))

  unfoldable pub find_snap_store_files : String → Action Database (List SnapStoreFile)
  find_snap_store_files id = wrapping (con_find files_table (λ f. f.snap_store.snap_store_id == id))

  unfoldable pub create_snap_store : SnapStore → Action Database SnapStore
  create_snap_store param = do
    wrapping (con_insert stores_table param.snap_store_id param)
    pure param

  -- Unlike `get_snap_store_by_disk_id` it passes bolthold's error on.
  unfoldable pub find_snap_stores_for_device : String → Action Database SnapStore
  find_snap_stores_for_device disk_id =
      wrapping (con_find_one stores_table (λ s. s.tracked_disk.tracking_id == disk_id))

  unfoldable pub delete_snap_store : String → Action Database (Unit {0})
  delete_snap_store id = or_missing (con_delete stores_table id)

  unfoldable pub create_snap_store_file : SnapStoreFile → Action Database SnapStoreFile
  create_snap_store_file param = do
    wrapping (con_insert files_table param.tracking_id param)
    pure param

  unfoldable pub delete_snap_store_file : String → Action Database (Unit {0})
  delete_snap_store_file id = or_missing (con_delete files_table id)

  unfoldable pub list_snap_store_files_for_snap_store :
      String → Action Database (List SnapStoreFile)
  list_snap_store_files_for_snap_store id =
      wrapping (con_find files_table (λ f. f.snap_store.snap_store_id == id))

  unfoldable pub find_snap_store_location_files : String → Action Database (List SnapStoreFile)
  find_snap_store_location_files path =
      wrapping (con_find files_table (λ f. f.location.path == path))
