-- ===== src/Manager/Mappings.antt =====
-- worker/manager/manager.go: the mapping of a disk to the location of its snap store.
pub mod Once
use coriolis_snapshot_agent.Common.{List, map, String, if◌then◌else◌}
use coriolis_snapshot_agent.Errors.{typed, conflict, not_found, any_of, is, wrap}
use coriolis_snapshot_agent.Result.{
  Result, ok, err, Action, pure, raise, attempt, wrapping, ◌>>=◌, ◌>>◌,
}
use coriolis_snapshot_agent.Bolthold.{Bolthold}
use coriolis_snapshot_agent.Db.Models.{SnapStoreMapping}
use coriolis_snapshot_agent.Db.Connection.{Database}
use coriolis_snapshot_agent.Db.Disks.{
  get_tracked_disk_by_tracking_id, get_snap_store_mapping_by_device_id,
  get_snap_store_files_location_by_id, create_snap_store_mapping, list_snap_store_mappings,
}

-- `params.CreateSnapStoreMappingRequest`, `params.SnapStoreMappingResponse`
pub record MappingRequest : Type 0 where
  pub snap_store_location : String
  pub tracked_disk : String

pub record MappingResponse : Type 0 where
  pub id : String
  pub tracked_disk_id : String
  pub storage_location_id : String

module _ ⦃bolt : Bolthold⦄ where
  -- A mapping that exists is a conflict.
  abbrev pub none_yet : Result SnapStoreMapping → Action Database (Unit {0})
  none_yet (ok m) = raise (typed conflict)
  none_yet (err e) = if is e (any_of not_found) then pure tt else raise (wrap e)

  -- `CreateSnapStoreMapping`, with the new id.
  unfoldable pub add_mapping : String → MappingRequest → Action Database MappingResponse
  unfolding get_tracked_disk_by_tracking_id get_snap_store_mapping_by_device_id
      get_snap_store_files_location_by_id create_snap_store_mapping
  add_mapping new_id param = do
    disk ← wrapping (get_tracked_disk_by_tracking_id param.tracked_disk)
    existing ← attempt (get_snap_store_mapping_by_device_id param.tracked_disk)
    none_yet existing
    location ← wrapping (get_snap_store_files_location_by_id param.snap_store_location)
    mapping ← wrapping (
        create_snap_store_mapping
          (record { tracking_id = new_id; tracked_disk = disk; location = location }))
    pure (record {
      id = mapping.tracking_id;
      tracked_disk_id = disk.tracking_id;
      storage_location_id = location.path;
    })

  abbrev pub mapping_response : SnapStoreMapping → MappingResponse
  mapping_response m = record {
    id = m.tracking_id;
    tracked_disk_id = m.tracked_disk.tracking_id;
    storage_location_id = m.location.path;
  }

  -- `ListSnapStoreMappings`
  unfoldable pub list_mappings : Action Database (List MappingResponse)
  unfolding list_snap_store_mappings
  list_mappings = do
    mappings ← wrapping list_snap_store_mappings
    pure (map mapping_response mappings)
