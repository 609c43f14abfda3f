-- ===== src/Manager/Stores/Capacity.antt =====
-- worker/manager/snapstores.go: `AddCapacityToSnapStore`, with its deferred clean-ups.
use coriolis_snapshot_agent.Common.{ℕ, List, String, ltb}
use coriolis_snapshot_agent.Errors.{plain}
use coriolis_snapshot_agent.Result.{
  Result, Action, wrapped, check, lift, attempt, wrapping, on_error, ◌>>=◌, ◌>>◌,
}
use coriolis_snapshot_agent.Bolthold.{Bolthold}
use coriolis_snapshot_agent.Storage.Files
use coriolis_snapshot_agent.Watcher.{restated}
use coriolis_snapshot_agent.Db.Models.{SnapStore, SnapStoreFile}
use coriolis_snapshot_agent.Db.Stores.{
  get_snap_store, create_snap_store_file, delete_snap_store_file, update_snap_store,
}
use coriolis_snapshot_agent.Manager.{Texts, logged}
use coriolis_snapshot_agent.Manager.State.{
  Agent, Kernel, in_db, on_disk, kernel_add_file, made_file, removed_file,
}
use coriolis_snapshot_agent.Manager.Host.{Host}
use coriolis_snapshot_agent.Manager.Locations.{snap_store_location_info}
use coriolis_snapshot_agent.Manager.MessageLoop.{grown}
use coriolis_snapshot_agent.Manager.Stores.{store_path}

module _ ⦃bolt : Bolthold⦄ (host : Host) (texts : Texts) (kernel : Kernel) where
  abbrev pub capacity_row : String → SnapStore → String → ℕ → SnapStoreFile
  capacity_row name store path capacity = record {
    tracking_id = name;
    snap_store = store;
    location = store.storage_location;
    path = path;
    size = capacity;
  }

  -- The file goes to the kernel module and the store grows. Their errors are variables of their own.
  unfoldable pub hand_over : List ℕ → SnapStore → String → ℕ → Action Agent (Unit {0})
  unfolding update_snap_store
  hand_over id store path capacity = do
    wrapping (kernel_add_file kernel id path)
    wrapping (in_db (update_snap_store (grown texts store capacity)))

  -- An error in the result is one that the deferred functions do not see.
  unfoldable pub with_row : String → SnapStore → String → ℕ → Action Agent (Result (Unit {0}))
  unfolding create_snap_store_file delete_snap_store_file hand_over
  with_row name store path capacity = do
    row ← wrapping (in_db (create_snap_store_file (capacity_row name store path capacity)))
    on_error (logged (in_db (delete_snap_store_file name))) (do
      id ← lift (wrapped (texts.uuid_parse store.snap_store_id))
      attempt (hand_over id store path capacity))

  -- `AddCapacityToSnapStore`, with the name of the new file.
  unfoldable pub add_capacity : String → String → ℕ → Action Agent (Unit {0})
  unfolding get_snap_store snap_store_location_info store_path with_row
  add_capacity name store_id capacity = do
    store ← wrapping (in_db (get_snap_store store_id))
    info ← wrapping (in_db (snap_store_location_info host store.storage_location))
    lift (check (ltb info.available_capacity capacity) plain)
    let path = host.join (store_path host store) name
    (λ (s : Agent).
        on_disk (made_file path)
          (restated (Files.create_snap_store_file (host.file_calls path capacity))) s)
    outcome ←
        on_error (logged (on_disk (removed_file path) (host.remove_file path)))
          (with_row name store path capacity)
    lift outcome
