-- ===== src/Manager/Responses.antt =====
-- worker/manager/util.go, and the methods of worker/manager/manager.go that show snapshots.
use coriolis_snapshot_agent.Common.{ℕ, List, map, String}
use coriolis_snapshot_agent.Result.{Action, pure, wrapping, ◌>>=◌}
use coriolis_snapshot_agent.Bolthold.{Bolthold}
use coriolis_snapshot_agent.Db.Models.{VolumeSnapshot, Snapshot}
use coriolis_snapshot_agent.Db.Connection.{Database}
use coriolis_snapshot_agent.Db.Snapshots.{get_snapshot, list_all_snapshots}

-- `params.TrackedDevice`, `params.SnapshotImage`
pub record DeviceInfo : Type 0 where
  pub tracking_id : String
  pub device_path : String
  pub major : ℕ
  pub minor : ℕ

pub record ImageResponse : Type 0 where
  pub device_path : String
  pub major : ℕ
  pub minor : ℕ

-- `params.VolumeSnapshot`, `params.SnapshotResponse`
pub record VolumeResponse : Type 0 where
  pub snapshot_number : ℕ
  pub generation_id : String
  pub original_device : DeviceInfo
  pub snapshot_image : ImageResponse

pub record SnapshotResponse : Type 0 where
  pub snapshot_id : String
  pub volume_snapshots : List VolumeResponse

-- `internalVolumeSnapToParamvolumeSnap`
unfoldable pub volume_response : VolumeSnapshot → VolumeResponse
volume_response v = record {
  snapshot_number = v.snapshot_number;
  generation_id = v.generation_id;
  original_device = record {
    tracking_id = v.original_device.tracking_id;
    device_path = v.original_device.path;
    major = v.original_device.major;
    minor = v.original_device.minor;
  };
  snapshot_image = record {
    device_path = v.snapshot_image.device_path;
    major = v.snapshot_image.major;
    minor = v.snapshot_image.minor;
  };
}

-- `internalSnapToSnapResponse`
unfoldable pub snapshot_response : Snapshot → SnapshotResponse
unfolding volume_response
snapshot_response s = record {
  snapshot_id = s.snapshot_id;
  volume_snapshots = map volume_response s.volume_snapshots;
}

module _ ⦃bolt : Bolthold⦄ where
  -- `GetSnapshot`
  unfoldable pub show_snapshot : String → Action Database SnapshotResponse
  unfolding get_snapshot snapshot_response
  show_snapshot id = do snapshot ← wrapping (get_snapshot id); pure (snapshot_response snapshot)

  -- `ListSnapshots`
  unfoldable pub show_snapshots : Action Database (List SnapshotResponse)
  unfolding list_all_snapshots snapshot_response
  show_snapshots = do
    snapshots ← wrapping list_all_snapshots
    pure (map snapshot_response snapshots)
