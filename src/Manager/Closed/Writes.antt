-- ===== src/Manager/Closed/Writes.antt =====
-- db/db.go: the calls that change the database keep what is closed.
use coriolis_snapshot_agent.Common.{ℕ, List, [], ◌∷◌, String}
use coriolis_snapshot_agent.Result.{Result, ok, err, Action}
use coriolis_snapshot_agent.Bolthold.{Bolthold}
use coriolis_snapshot_agent.Db.Models.{
  TrackedDisk, SnapStoreFilesLocation, SnapStoreFile, SnapshotImage, VolumeSnapshot, Snapshot,
}
use coriolis_snapshot_agent.Db.Connection.{
  Database, files_table, images_table, volume_snapshots_table, snapshots_table,
}
use coriolis_snapshot_agent.Db.Disks.{create_tracked_disk, create_snap_store_file_location}
use coriolis_snapshot_agent.Db.Stores.{
  create_snap_store_file, delete_snap_store, delete_snap_store_file,
}
use coriolis_snapshot_agent.Db.Snapshots.{
  create_snapshot, create_volume_snapshot, update_volume_snapshot, create_snapshot_image,
  delete_snapshot_image, delete_volume_snapshot, delete_volumes, delete_snapshot,
  delete_found_volume_snapshot, delete_found_snapshot, or_typed_missing,
}
use coriolis_snapshot_agent.Manager.Kept.{Keeps, kept, Keeps-wrapping, Keeps-bind, Keeps-pure}
use coriolis_snapshot_agent.Manager.Kept.Reads.{
  reads, Keeps-created, Keeps-con_update, Keeps-con_delete,
}
use coriolis_snapshot_agent.Manager.{Texts}
use coriolis_snapshot_agent.Manager.Mappings.{MappingRequest, add_mapping}
use coriolis_snapshot_agent.Manager.MessageLoop.{record_snap_store_file}
use coriolis_snapshot_agent.Manager.Closed.{IsClosed}
use coriolis_snapshot_agent.Db.Connection.{Database}

module _ ⦃bolt : Bolthold⦄ (P : Database → Type 0) (c : IsClosed P) where
  pub Closed-disk : (disk : TrackedDisk) → Keeps P (create_tracked_disk disk)
  Closed-disk = c.disk

  pub Closed-location : (l : SnapStoreFilesLocation) → Keeps P (create_snap_store_file_location l)
  Closed-location = c.location

  pub Closed-mapping : (id : String) (param : MappingRequest) → Keeps P (add_mapping id param)
  Closed-mapping = c.mapping

  pub Closed-record_file :
      (texts : Texts) (id path : String) (size : ℕ)
      → Keeps P (record_snap_store_file texts id path size)
  Closed-record_file = c.record_file

  pub Closed-delete_store : (id : String) → Keeps P (delete_snap_store id)
  Closed-delete_store = c.delete_store

  pub Closed-create_snap_store_file : (file : SnapStoreFile) → Keeps P (create_snap_store_file file)
  unfolding create_snap_store_file
  Closed-create_snap_store_file file = Keeps-created P files_table _ file c.files

  pub Closed-create_snapshot_image : (image : SnapshotImage) → Keeps P (create_snapshot_image image)
  unfolding create_snapshot_image
  Closed-create_snapshot_image image = Keeps-created P images_table _ image c.images

  pub Closed-create_volume_snapshot : (vol : VolumeSnapshot) → Keeps P (create_volume_snapshot vol)
  unfolding create_volume_snapshot
  Closed-create_volume_snapshot vol =
      Keeps-created P volume_snapshots_table _ vol c.volume_snapshots

  pub Closed-create_snapshot : (snapshot : Snapshot) → Keeps P (create_snapshot snapshot)
  unfolding create_snapshot
  Closed-create_snapshot snapshot = Keeps-created P snapshots_table _ snapshot c.snapshots

  pub Closed-update_volume_snapshot : (vol : VolumeSnapshot) → Keeps P (update_volume_snapshot vol)
  unfolding update_volume_snapshot
  Closed-update_volume_snapshot vol =
      Keeps-wrapping P _ (Keeps-con_update P volume_snapshots_table _ vol c.volume_snapshots)

  pub Closed-delete_snapshot_image : (id : String) → Keeps P (delete_snapshot_image id)
  unfolding delete_snapshot_image
  Closed-delete_snapshot_image id = Keeps-wrapping P _ (Keeps-con_delete P images_table id c.images)

  -- It only looks at the error.
  pub Closed-delete_snap_store_file : (id : String) → Keeps P (delete_snap_store_file id)
  unfolding delete_snap_store_file
  Closed-delete_snap_store_file id = record {
    step = (Keeps-con_delete P files_table id c.files).step;
  }

  Closed-delete_found_volume_snapshot :
      (id : String) (found : Result VolumeSnapshot)
      → Keeps P (delete_found_volume_snapshot id found)
  unfolding delete_found_volume_snapshot
  Closed-delete_found_volume_snapshot id (ok v) =
      Keeps-wrapping P _ (Keeps-con_delete P volume_snapshots_table id c.volume_snapshots)
  Closed-delete_found_volume_snapshot id (err e) = search (kept) depth 8

  pub Closed-delete_volume_snapshot : (id : String) → Keeps P (delete_volume_snapshot id)
  unfolding delete_volume_snapshot
  Closed-delete_volume_snapshot id =
      search (kept, reads, Closed-delete_found_volume_snapshot) depth 8

  Closed-or_typed_missing :
      (m : Action Database (Unit {0})) → Keeps P m → Keeps P (or_typed_missing m)
  Closed-or_typed_missing m h = record { step = h.step }

  Closed-delete_volumes : (vols : List VolumeSnapshot) → Keeps P (delete_volumes vols)
  unfolding delete_volumes
  Closed-delete_volumes [] = Keeps-pure P tt
  Closed-delete_volumes (vol ∷ vols) =
      Keeps-bind P _ _
        (Closed-or_typed_missing _ (Closed-delete_snapshot_image vol.snapshot_image.tracking_id))
        (λ a.
          Keeps-bind P _ _
            (Closed-or_typed_missing _ (Closed-delete_volume_snapshot vol.tracking_id))
            (λ b. Closed-delete_volumes vols))

  Closed-delete_found_snapshot :
      (id : String) (found : Result Snapshot) → Keeps P (delete_found_snapshot id found)
  unfolding delete_found_snapshot
  Closed-delete_found_snapshot id (ok snap) =
      Keeps-bind P _ _ (Closed-delete_volumes snap.volume_snapshots)
        (λ a. Keeps-wrapping P _ (Keeps-con_delete P snapshots_table id c.snapshots))
  Closed-delete_found_snapshot id (err e) = search (kept) depth 8

  pub Closed-delete_snapshot : (id : String) → Keeps P (delete_snapshot id)
  unfolding delete_snapshot
  Closed-delete_snapshot id = search (kept, reads, Closed-delete_found_snapshot) depth 8

  pub ruleset closed_writes = (
    Closed-disk, Closed-location, Closed-mapping, Closed-record_file, Closed-delete_store,
    Closed-create_snap_store_file, Closed-create_snapshot_image, Closed-create_volume_snapshot,
    Closed-create_snapshot, Closed-update_volume_snapshot, Closed-delete_snapshot_image,
    Closed-delete_snap_store_file, Closed-delete_volume_snapshot, Closed-delete_snapshot,
  )
