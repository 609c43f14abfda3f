-- ===== src/Db/Snapshots.antt =====
-- db/db.go: snapshots, volume snapshots and snapshot images.
use coriolis_snapshot_agent.Common.{true, List, [], ◌∷◌, map, String, ◌==◌, any, if◌then◌else◌}
use coriolis_snapshot_agent.Errors.{not_found, any_of, is, wrap}
use coriolis_snapshot_agent.Result.{
  Action, Result, ok, err, pure, raise, attempt, wrapping, ◌>>=◌, ◌>>◌,
}
use coriolis_snapshot_agent.Bolthold.{Bolthold}
use coriolis_snapshot_agent.Db.Models.{SnapshotImage, VolumeSnapshot, Snapshot}
use coriolis_snapshot_agent.Db.Connection.{
  Database, images_table, volume_snapshots_table, snapshots_table, con_find, con_find_one,
  con_insert, con_update, con_delete, or_not_found,
}

module _ ⦃bolt : Bolthold⦄ where
  unfoldable pub get_snapshot : String → Action Database Snapshot
  get_snapshot id = or_not_found (con_find_one snapshots_table (λ s. s.snapshot_id == id))

  -- A `bolthold.Where(…).In` of no values matches nothing.
  unfoldable pub list_snapshots_for_disk : String → Action Database (List Snapshot)
  list_snapshots_for_disk disk_id = do
    vols ←
        wrapping (con_find volume_snapshots_table (λ v. v.original_device.tracking_id == disk_id))
    let ids = map (λ (v : VolumeSnapshot). v.snapshot_id) vols
    wrapping (con_find snapshots_table (λ s. any (λ id. s.snapshot_id == id) ids))

  unfoldable pub list_all_snapshots : Action Database (List Snapshot)
  list_all_snapshots = wrapping (con_find snapshots_table (λ s. true))

  unfoldable pub create_snapshot : Snapshot → Action Database Snapshot
  create_snapshot param = do
    wrapping (con_insert snapshots_table param.snapshot_id param)
    pure param

  unfoldable pub get_volume_snapshot_by_id : String → Action Database VolumeSnapshot
  get_volume_snapshot_by_id id =
      or_not_found (con_find_one volume_snapshots_table (λ v. v.tracking_id == id))

  unfoldable pub list_volume_snapshots_by_snapstore_id :
      String → Action Database (List VolumeSnapshot)
  list_volume_snapshots_by_snapstore_id id =
      wrapping (con_find volume_snapshots_table (λ v. v.snap_store.snap_store_id == id))

  -- `if !errors.Is(err, vErrors.ErrNotFound) { return err }`
  abbrev pub unless_not_found : Result (Unit {0}) → Result (Unit {0})
  unless_not_found (ok a) = ok a
  unless_not_found (err e) = if is e (any_of not_found) then ok tt else err (wrap e)

  abbrev pub or_typed_missing : Action Database (Unit {0}) → Action Database (Unit {0})
  or_typed_missing m d = let (r, d') = m d in (unless_not_found r, d')

  unfoldable pub delete_found_volume_snapshot :
      String → Result VolumeSnapshot → Action Database (Unit {0})
  delete_found_volume_snapshot id (ok v) = wrapping (con_delete volume_snapshots_table id)
  delete_found_volume_snapshot id (err e) =
      if is e (any_of not_found) then pure tt else raise (wrap e)

  unfoldable pub delete_volume_snapshot : String → Action Database (Unit {0})
  unfolding delete_found_volume_snapshot get_volume_snapshot_by_id
  delete_volume_snapshot id = do
    found ← attempt (get_volume_snapshot_by_id id)
    delete_found_volume_snapshot id found

  unfoldable pub create_volume_snapshot : VolumeSnapshot → Action Database VolumeSnapshot
  create_volume_snapshot param = do
    wrapping (con_insert volume_snapshots_table param.tracking_id param)
    pure param

  unfoldable pub update_volume_snapshot : VolumeSnapshot → Action Database (Unit {0})
  update_volume_snapshot param =
      wrapping (con_update volume_snapshots_table param.tracking_id param)

  unfoldable pub delete_snapshot_image : String → Action Database (Unit {0})
  delete_snapshot_image id = wrapping (con_delete images_table id)

  unfoldable pub get_snapshot_image_by_id : String → Action Database SnapshotImage
  get_snapshot_image_by_id id = or_not_found (con_find_one images_table (λ i. i.tracking_id == id))

  unfoldable pub create_snapshot_image : SnapshotImage → Action Database SnapshotImage
  create_snapshot_image param = do
    wrapping (con_insert images_table param.tracking_id param)
    pure param

  -- The loop over `snap.VolumeSnapshots`.
  unfoldable pub delete_volumes : List VolumeSnapshot → Action Database (Unit {0})
  unfolding delete_snapshot_image delete_volume_snapshot
  delete_volumes [] = pure tt
  delete_volumes (vol ∷ vols) = do
    or_typed_missing (delete_snapshot_image vol.snapshot_image.tracking_id)
    or_typed_missing (delete_volume_snapshot vol.tracking_id)
    delete_volumes vols

  unfoldable pub delete_found_snapshot : String → Result Snapshot → Action Database (Unit {0})
  delete_found_snapshot id (ok snap) = do
    delete_volumes snap.volume_snapshots
    wrapping (con_delete snapshots_table id)
  delete_found_snapshot id (err e) = if is e (any_of not_found) then pure tt else raise (wrap e)

  unfoldable pub delete_snapshot : String → Action Database (Unit {0})
  unfolding delete_found_snapshot get_snapshot delete_volumes
  delete_snapshot id = do found ← attempt (get_snapshot id); delete_found_snapshot id found
