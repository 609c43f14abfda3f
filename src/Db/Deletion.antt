-- ===== src/Db/Deletion.antt =====
-- db/db.go: `DeleteSnapshot` where a row is missing.
use coriolis_snapshot_agent.Common.{◌≡◌, false, List, [], ◌∷◌, String, arith, ◌==◌}
use coriolis_snapshot_agent.Errors.{bolt_not_found, sentinel, is, wrap}
use coriolis_snapshot_agent.Result.{ok, err}
use coriolis_snapshot_agent.Bolthold.{Bolthold, matching, has_key}
use coriolis_snapshot_agent.Db.Models.{Snapshot, SnapshotImage, VolumeSnapshot}
use coriolis_snapshot_agent.Db.Connection.{Database}
use coriolis_snapshot_agent.Db.Snapshots.{delete_snapshot, delete_volumes, delete_snapshot_image}

module _ ⦃bolt : Bolthold⦄ where
  open bolt use {Bucket, rows, faulty, find_one_lem, delete_lem}

  image_missing :
      (v : VolumeSnapshot) (vs : List VolumeSnapshot) (d : Database)
      → faulty SnapshotImage d.images ≡ false
      → has_key v.snapshot_image.tracking_id (rows SnapshotImage d.images) ≡ false
      → delete_volumes (v ∷ vs) d ≡ (err (wrap (wrap (sentinel bolt_not_found))), d)
  unfolding delete_volumes delete_snapshot_image is
  image_missing v vs d f k =
      ground (arith, delete_lem SnapshotImage v.snapshot_image.tracking_id d.images, f, k)

  -- A snapshot that no row has is deleted without an error and without a change.
  pub delete_snapshot_absent :
      (id : String) (d : Database)
      → faulty Snapshot d.snapshots ≡ false
      → matching (λ s. s.snapshot_id == id) (rows Snapshot d.snapshots) ≡ []
      → delete_snapshot id d ≡ (ok tt, d)
  unfolding delete_snapshot is
  delete_snapshot_absent id d f h =
      ground (arith, find_one_lem Snapshot (λ s. s.snapshot_id == id) d.snapshots, f, h)

  -- A snapshot whose first image has no row is not deleted: the call fails with bolthold's error,
  -- which the code does not take for a missing row, and changes nothing.
  pub delete_snapshot_missing_image :
      (id : String) (d : Database) (s : Snapshot) (more : List Snapshot) (v : VolumeSnapshot)
      (vs : List VolumeSnapshot)
      → faulty Snapshot d.snapshots ≡ false
      → faulty SnapshotImage d.images ≡ false
      → matching (λ s. s.snapshot_id == id) (rows Snapshot d.snapshots) ≡ s ∷ more
      → s.volume_snapshots ≡ v ∷ vs
      → has_key v.snapshot_image.tracking_id (rows SnapshotImage d.images) ≡ false
      → delete_snapshot id d ≡ (err (wrap (wrap (sentinel bolt_not_found))), d)
  unfolding delete_snapshot
  delete_snapshot_missing_image id d s more v vs f g h e k =
      let query = find_one_lem Snapshot (λ s. s.snapshot_id == id) d.snapshots in
      ground (arith, query, f, h, e, image_missing v vs d g k)
