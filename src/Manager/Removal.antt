-- ===== src/Manager/Removal.antt =====
-- worker/manager/manager.go: `DeleteSnapshot` and `cleanupSnapStore`, with the calls of the kernel
-- module in the order in which they are made.
pub mod Order
use coriolis_snapshot_agent.Common.{
  ℕ, List, [], ◌∷◌, ◌++◌, Option, none, some, String, if◌then◌else◌,
}
use coriolis_snapshot_agent.Errors.{Error, plain, not_found, any_of, is, wrap}
use coriolis_snapshot_agent.Result.{
  Result, ok, err, Action, wrapped, pure, raise, lift, attempt, wrapping, gets, modify, ◌>>=◌, ◌>>◌,
}
use coriolis_snapshot_agent.Types.{DevId}
use coriolis_snapshot_agent.Bolthold.{Bolthold}
use coriolis_snapshot_agent.Db.Models.{Snapshot, SnapStore, SnapStoreFile, VolumeSnapshot}
use coriolis_snapshot_agent.Db.Connection.{Database}
use coriolis_snapshot_agent.Db.Stores.{
  delete_snap_store_file, delete_snap_store, list_snap_store_files_for_snap_store,
}
use coriolis_snapshot_agent.Db.Snapshots.{get_snapshot, delete_snapshot}
use coriolis_snapshot_agent.Manager.{Texts, each_logged}
use coriolis_snapshot_agent.Manager.State.{
  Call, Kernel, Agent, in_db, kernel_delete, kernel_cleanup,
}

module _ ⦃bolt : Bolthold⦄ where
  module _ (texts : Texts) (kernel : Kernel) where
    abbrev pub gone : Option ℕ → Action Agent (Unit {0})
    gone none = raise plain
    gone (some n) = pure tt

    unfoldable pub cleanup_snap_store : SnapStore → Action Agent (Unit {0})
    cleanup_snap_store store = do
      id ← lift (wrapped (texts.uuid_parse store.snap_store_id))
      filled ← wrapping (kernel_cleanup kernel id)
      gone filled

    -- The body of the loop over the volume snapshots.
    unfoldable pub remove_store : VolumeSnapshot → Action Agent (Unit {0})
    unfolding list_snap_store_files_for_snap_store delete_snap_store_file delete_snap_store
    remove_store vol = do
      id ← lift (wrapped (texts.uuid_parse vol.snap_store.snap_store_id))
      filled ← wrapping (kernel_cleanup kernel id)
      files ← wrapping (in_db (list_snap_store_files_for_snap_store vol.snap_store.snap_store_id))
      in_db (each_logged (λ (f : SnapStoreFile). delete_snap_store_file f.tracking_id) files)
      wrapping (in_db (delete_snap_store vol.snap_store.snap_store_id))

    unfoldable pub remove_stores : List VolumeSnapshot → Action Agent (Unit {0})
    unfolding remove_store
    remove_stores [] = pure tt
    remove_stores (vol ∷ vols) = do remove_store vol; remove_stores vols

    abbrev pub unless_gone : Result (Unit {0}) → Action Agent (Unit {0})
    unless_gone (ok a) = pure tt
    unless_gone (err e) = if is e (any_of not_found) then pure tt else raise (wrap e)

    -- What follows the deletion in the kernel module.
    unfoldable pub forget : String → Snapshot → Action Agent (Unit {0})
    unfolding remove_stores delete_snapshot
    forget id snapshot = do
      remove_stores snapshot.volume_snapshots
      done ← attempt (in_db (delete_snapshot id))
      unless_gone done

    unfoldable pub remove_found : String → Result Snapshot → Action Agent (Unit {0})
    unfolding forget
    remove_found id (err e) = if is e (any_of not_found) then pure tt else raise (wrap e)
    remove_found id (ok snapshot) = do
      number ← lift (wrapped (texts.parse_uint id))
      wrapping (kernel_delete kernel number)
      forget id snapshot

    -- `DeleteSnapshot`
    unfoldable pub remove_snapshot : String → Action Agent (Unit {0})
    unfolding get_snapshot remove_found
    remove_snapshot id = do found ← attempt (in_db (get_snapshot id)); remove_found id found
