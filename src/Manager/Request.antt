-- ===== src/Manager/Request.antt =====
-- worker/manager/manager.go: `ensureSnapStoreForDisk`, and `CreateSnapshot` from its request on.
pub mod Refusal
pub mod Release
pub mod Unfilled
use coriolis_snapshot_agent.Common.{ℕ, Bool, true, false, List, [], ◌∷◌, String, if◌then◌else◌}
use coriolis_snapshot_agent.Errors.{typed, conflict, not_found, any_of, is, wrap}
use coriolis_snapshot_agent.Result.{
  Result, ok, err, Action, wrapped, check, pure, raise, gets, lift, attempt, wrapping, ◌>>=◌, ◌>>◌,
}
use coriolis_snapshot_agent.Types.{DevId}
use coriolis_snapshot_agent.Bolthold.{Bolthold}
use coriolis_snapshot_agent.Config.{Config}
use coriolis_snapshot_agent.Watcher.{Watcher, allocate_initial_storage}
use coriolis_snapshot_agent.Db.Models.{SnapStore, Snapshot, TrackedDisk}
use coriolis_snapshot_agent.Db.Disks.{get_tracked_disk_by_tracking_id}
use coriolis_snapshot_agent.Db.Stores.{get_snap_store_by_disk_id}
use coriolis_snapshot_agent.Db.Snapshots.{list_snapshots_for_disk}
use coriolis_snapshot_agent.Manager.{Texts}
use coriolis_snapshot_agent.Manager.State.{
  Agent, Kernel, View, in_db, in_watcher, get_character_device_watcher,
}
use coriolis_snapshot_agent.Manager.Host.{Host}
use coriolis_snapshot_agent.Manager.MessageLoop.{record_snap_store_file}
use coriolis_snapshot_agent.Manager.Stores.{make_snap_store}
use coriolis_snapshot_agent.Manager.Creation.{Target, take_snapshot}

-- A disk of the request, and the ids that are made for it if they are needed.
pub record DiskRequest : Type 0 where
  pub disk : String
  pub store_id : List ℕ
  pub volume_id : String
  pub image_id : String

abbrev pub is_taken : List Snapshot → Bool
is_taken [] = false
is_taken (s ∷ ss) = true

module _ ⦃bolt : Bolthold⦄ where
  -- The first loop: a disk that has a snapshot is a conflict.
  unfoldable pub refuse_taken : List DiskRequest → Action Agent (Unit {0})
  unfolding list_snapshots_for_disk
  refuse_taken [] = pure tt
  refuse_taken (q ∷ qs) = do
    snaps ← wrapping (in_db (list_snapshots_for_disk q.disk))
    lift (check (is_taken snaps) (typed conflict))
    refuse_taken qs

  module _ (host : Host) (config : Config) (texts : Texts) where
    -- The first file of a new store, a fifth of the size of the disk.
    unfoldable pub fill_store : SnapStore → Action Agent SnapStore
    unfolding get_character_device_watcher allocate_initial_storage record_snap_store_file
    fill_store store = do
      w ← wrapping (get_character_device_watcher store.snap_store_id)
      out ← gets (λ (s : Agent). host.outside s.disk_ops)
      (path, size) ← wrapping (in_watcher store.snap_store_id w (allocate_initial_storage out))
      wrapping (in_db (record_snap_store_file texts store.snap_store_id path size))
      pure store

    unfoldable pub ensured : List ℕ → String → Result SnapStore → Action Agent SnapStore
    ensured id disk_id (ok store) = pure store
    ensured id disk_id (err e) =
        if is e (any_of not_found)
        then (do store ← wrapping (make_snap_store host config texts id disk_id); fill_store store)
        else raise (wrap e)

    -- `ensureSnapStoreForDisk`, with the id of a new store.
    unfoldable pub ensure_snap_store : List ℕ → String → Action Agent SnapStore
    unfolding get_tracked_disk_by_tracking_id get_snap_store_by_disk_id
    ensure_snap_store id disk_id = do
      disk ← wrapping (in_db (get_tracked_disk_by_tracking_id disk_id))
      found ← attempt (in_db (get_snap_store_by_disk_id disk.tracking_id))
      ensured id disk_id found

    abbrev pub target : DiskRequest → SnapStore → TrackedDisk → Target
    target q store disk = record {
      dev = record { major = disk.major; minor = disk.minor };
      disk = disk;
      store = store;
      volume_id = q.volume_id;
      image_id = q.image_id;
    }

    -- The second loop: every disk gets a snap store. It ends before the clean-ups are deferred.
    unfoldable pub make_targets : List DiskRequest → Action Agent (List Target)
    unfolding ensure_snap_store get_tracked_disk_by_tracking_id
    make_targets [] = pure []
    make_targets (q ∷ qs) = do
      store ← wrapping (ensure_snap_store q.store_id q.disk)
      disk ← wrapping (in_db (get_tracked_disk_by_tracking_id q.disk))
      rest ← make_targets qs
      pure (target q store disk ∷ rest)

    -- `CreateSnapshot`
    unfoldable pub request_snapshot : Kernel → View → List DiskRequest → Action Agent Snapshot
    unfolding refuse_taken make_targets take_snapshot
    request_snapshot kernel view qs = do
      refuse_taken qs
      targets ← make_targets qs
      take_snapshot texts kernel view targets
