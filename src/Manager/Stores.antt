-- ===== src/Manager/Stores.antt =====
-- worker/manager/snapstores.go: the snap stores, from their row in the database to their watcher.
pub mod Capacity
pub mod Failures
pub mod Usage
use coriolis_snapshot_agent.Common.{ℕ, Bool, List, [], ◌∷◌, String, ◌==◌, if◌then◌else◌}
use coriolis_snapshot_agent.Errors.{
  typed, plain, conflict, bolt_not_found, fs_not_exist, this, is, wrap,
}
use coriolis_snapshot_agent.Result.{
  Result, ok, err, Action, wrapped, pure, raise, lift, attempt, wrapping, on_error, ◌>>=◌, ◌>>◌,
}
use coriolis_snapshot_agent.Types.{DevId}
use coriolis_snapshot_agent.Bolthold.{Bolthold}
use coriolis_snapshot_agent.Config.{Config}
use coriolis_snapshot_agent.Watcher.{Watcher}
use coriolis_snapshot_agent.Watcher.Start.{CreateSnapStoreParams, new_watcher}
use coriolis_snapshot_agent.Db.Models.{TrackedDisk, SnapStoreFilesLocation, SnapStore}
use coriolis_snapshot_agent.Db.Disks.{
  get_tracked_disk_by_tracking_id, get_snap_store_files_location_by_id,
  get_snap_store_mapping_by_device_id,
}
use coriolis_snapshot_agent.Db.Stores.{
  find_snap_stores_for_device, create_snap_store, delete_snap_store,
}
use coriolis_snapshot_agent.Manager.{Texts, logged}
use coriolis_snapshot_agent.Manager.State.{Agent, in_db, made_dir, removed_tree, record_watcher}
use coriolis_snapshot_agent.Manager.Host.{Host, asked_now, done_now}
use coriolis_snapshot_agent.Manager.Disks.{or_no_disk}

-- `SnapStore.Path`
unfoldable pub store_path : Host → SnapStore → String
store_path host store =
    if store.snap_store_id == ""
    then ""
    else host.join store.storage_location.path store.snap_store_id

-- A store that is found is a conflict; the error of bolthold is passed on as it is.
abbrev pub no_store_yet : Result SnapStore → Result (Unit {0})
no_store_yet (ok store) = err (typed conflict)
no_store_yet (err e) = if is e (this bolt_not_found) then ok tt else err (wrap e)

module _ ⦃bolt : Bolthold⦄ (host : Host) (config : Config) (texts : Texts) where
  abbrev pub watcher_params : List ℕ → SnapStore → CreateSnapStoreParams
  watcher_params id store = record {
    id = id;
    base_dir = store_path host store;
    snap_device_id = record {
      major = store.storage_location.major;
      minor = store.storage_location.minor;
    };
    device_id = record { major = store.tracked_disk.major; minor = store.tracked_disk.minor };
    snap_store_file_size = config.snap_store_file_size;
  }

  -- A watcher for the store, recorded under the id of the store.
  unfoldable pub watch_store : List ℕ → SnapStore → Action Agent (Unit {0})
  unfolding store_path new_watcher record_watcher
  watch_store id store = do
    w ←
        wrapping
          (asked_now host (λ out. new_watcher host.open_device out (watcher_params id store)))
    record_watcher store.snap_store_id w

  -- `os.MkdirAll(store.Path(), …)` and what follows. The error of the first is `mkdirErr`, and not in
  -- the `err` that the deferred functions look at.
  unfoldable pub after_mkdir :
      List ℕ → SnapStore → Result (Unit {0}) → Action Agent (Result (Unit {0}))
  unfolding watch_store
  after_mkdir id store (err e) = pure (err (wrap e))
  after_mkdir id store (ok a) =
      on_error
        (logged (
          done_now host (removed_tree (store_path host store))
            (λ out. out.remove_all (store_path host store))))
        (do watch_store id store; pure (ok tt))

  -- The same holds of `statErr`.
  unfoldable pub after_stat :
      List ℕ → SnapStore → Result (Unit {0}) → Action Agent (Result (Unit {0}))
  unfolding watch_store after_mkdir
  after_stat id store (ok a) = do watch_store id store; pure (ok tt)
  after_stat id store (err e) =
      if is e (this fs_not_exist)
      then (do
        made ← attempt (
            done_now host (made_dir (store_path host store))
              (λ out. out.mkdir_all (store_path host store)))
        after_mkdir id store made)
      else pure (err (wrap e))

  -- What `CreateSnapStore` does when the row is there. An error in the result is one that the deferred
  -- functions do not see.
  unfoldable pub start_store : List ℕ → SnapStore → Action Agent (Result (Unit {0}))
  unfolding after_stat
  start_store id store = if store_path host store == "" then pure (err plain) else (do
    found ← attempt (asked_now host (λ out. out.stat (store_path host store)))
    after_stat id store found)

  abbrev pub store_row : List ℕ → TrackedDisk → SnapStoreFilesLocation → SnapStore
  store_row id disk location = record {
    snap_store_id = texts.uuid_string id;
    tracked_disk = disk;
    storage_location = location;
    total_allocated_size = 0;
  }

  unfoldable pub store_with_row : List ℕ → SnapStore → Action Agent SnapStore
  unfolding start_store delete_snap_store
  store_with_row id store = do
    outcome ←
        on_error (logged (in_db (delete_snap_store store.snap_store_id))) (start_store id store)
    lift outcome
    pure store

  -- `CreateSnapStore`, with the new id.
  unfoldable pub make_snap_store : List ℕ → String → Action Agent SnapStore
  unfolding find_snap_stores_for_device get_snap_store_mapping_by_device_id
      get_snap_store_files_location_by_id get_tracked_disk_by_tracking_id create_snap_store
  make_snap_store id disk_id = do
    existing ← attempt (in_db (find_snap_stores_for_device disk_id))
    lift (no_store_yet existing)
    mapping ← wrapping (in_db (get_snap_store_mapping_by_device_id disk_id))
    location ← wrapping (in_db (get_snap_store_files_location_by_id mapping.location.path))
    found ← attempt (in_db (get_tracked_disk_by_tracking_id disk_id))
    disk ← lift (or_no_disk found)
    store ← wrapping (in_db (create_snap_store (store_row id disk location)))
    store_with_row id store
