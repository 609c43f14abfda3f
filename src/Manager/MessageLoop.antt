-- ===== src/Manager/MessageLoop.antt =====
-- worker/manager/worker.go and snapstores.go: what the manager does with the messages of the watchers.
pub mod Accounts
use coriolis_snapshot_agent.Common.{ℕ, ◌+◌, ◌%◌, ◌^◌, List, [], ◌∷◌, String}
use coriolis_snapshot_agent.Result.{Result, ok, err, Action, pure, attempt, wrapping, ◌>>=◌, ◌>>◌}
use coriolis_snapshot_agent.Bolthold.{Bolthold}
use coriolis_snapshot_agent.Db.Models.{SnapStore, SnapStoreFile, VolumeSnapshot, overflow}
use coriolis_snapshot_agent.Db.Connection.{Database}
use coriolis_snapshot_agent.Db.Stores.{
  get_snap_store, create_snap_store_file, update_snap_store, delete_snap_store_file,
  delete_snap_store, list_snap_store_files_for_snap_store,
}
use coriolis_snapshot_agent.Db.Snapshots.{
  list_volume_snapshots_by_snapstore_id, update_volume_snapshot,
}
use coriolis_snapshot_agent.Watcher.Messages.{Message, add_file, deleted, overflowed, failed}
use coriolis_snapshot_agent.Manager.{Texts, logged, each_logged}

module _ ⦃bolt : Bolthold⦄ (texts : Texts) where
  abbrev pub file_of : SnapStore → String → ℕ → SnapStoreFile
  file_of store path size = record {
    tracking_id = texts.base path;
    snap_store = store;
    location = store.storage_location;
    path = path;
    size = size;
  }

  abbrev pub grown : SnapStore → ℕ → SnapStore
  grown store size = record store {
    total_allocated_size = (store.total_allocated_size + size) % 2 ^ 64;
  }

  -- `RecordSnapStoreFileInDB`
  unfoldable pub record_snap_store_file : String → String → ℕ → Action Database (Unit {0})
  unfolding get_snap_store create_snap_store_file update_snap_store
  record_snap_store_file store_id path size = do
    store ← wrapping (get_snap_store store_id)
    file ← wrapping (create_snap_store_file (file_of store path size))
    wrapping (update_snap_store (grown store size))

  abbrev pub mark_overflow : VolumeSnapshot → Action Database (Unit {0})
  mark_overflow v = update_volume_snapshot (record v { status = overflow })

  unfoldable pub delete_listed : Result (List SnapStoreFile) → Action Database (Unit {0})
  unfolding delete_snap_store_file
  delete_listed (ok files) =
      each_logged (λ (f : SnapStoreFile). delete_snap_store_file f.tracking_id) files
  delete_listed (err e) = pure tt

  unfoldable pub mark_listed : Result (List VolumeSnapshot) → Action Database (Unit {0})
  unfolding update_volume_snapshot
  mark_listed (ok vols) = each_logged mark_overflow vols
  mark_listed (err e) = pure tt

  -- One round of `handleWatcherMessages`.
  unfoldable pub handle_message : Message → Action Database (Unit {0})
  unfolding record_snap_store_file delete_listed mark_listed list_volume_snapshots_by_snapstore_id
      list_snap_store_files_for_snap_store delete_snap_store
  handle_message (add_file id path size fill) =
      logged (record_snap_store_file (texts.uuid_string id) path size)
  handle_message (deleted id) = do
    files ← attempt (list_snap_store_files_for_snap_store (texts.uuid_string id))
    delete_listed files
    logged (delete_snap_store (texts.uuid_string id))
  handle_message (overflowed id e) = do
    vols ← attempt (list_volume_snapshots_by_snapstore_id (texts.uuid_string id))
    mark_listed vols
  handle_message (failed id e) = pure tt

  -- The loop, over the messages that arrive.
  unfoldable pub handle_messages : List Message → Action Database (Unit {0})
  unfolding handle_message
  handle_messages [] = pure tt
  handle_messages (m ∷ ms) = do handle_message m; handle_messages ms
