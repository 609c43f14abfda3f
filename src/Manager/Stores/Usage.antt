-- ===== src/Manager/Stores/Usage.antt =====
-- worker/manager/snapstores.go: what a snap store holds, `snapStoreUsedBytes`, `ListSnapStores` and
-- `GetSnapStore`.
use coriolis_snapshot_agent.Common.{ℕ, List, [], ◌∷◌, String, Option, none, some}
use coriolis_snapshot_agent.Errors.{typed, not_found}
use coriolis_snapshot_agent.Result.{Result, ok, err, Action, wrapped, pure, lift, wrapping, ◌>>=◌}
use coriolis_snapshot_agent.Bolthold.{Bolthold}
use coriolis_snapshot_agent.Db.Models.{SnapStore, Snapshot}
use coriolis_snapshot_agent.Db.Stores.{get_snap_store, list_snap_stores, find_snap_store_files}
use coriolis_snapshot_agent.Db.Snapshots.{list_snapshots_for_disk}
use coriolis_snapshot_agent.Manager.{Texts}
use coriolis_snapshot_agent.Manager.State.{Agent, Kernel, in_db, kernel_cleanup}
use coriolis_snapshot_agent.Manager.Locations.{total_from}

-- `params.SnapStoreResponse`
pub record SnapStoreResponse : Type 0 where
  pub id : String
  pub tracked_disk_id : String
  pub storage_location_id : String
  pub allocated_disk_space : ℕ
  pub storage_usage : ℕ

abbrev pub filled_bytes : Option ℕ → Result ℕ
filled_bytes none = err (typed not_found)
filled_bytes (some n) = ok n

module _ ⦃bolt : Bolthold⦄ (texts : Texts) (kernel : Kernel) where
  -- The clean-up of a store without snapshots would delete it, so the kernel is not asked.
  unfoldable pub usage_of : List ℕ → List Snapshot → Action Agent ℕ
  usage_of id [] = pure 0
  usage_of id (s ∷ ss) = do filled ← wrapping (kernel_cleanup kernel id); lift (filled_bytes filled)

  -- `snapStoreUsedBytes`
  unfoldable pub snap_store_used_bytes : String → Action Agent ℕ
  unfolding get_snap_store list_snapshots_for_disk usage_of
  snap_store_used_bytes store_id = do
    id ← lift (wrapped (texts.uuid_parse store_id))
    store ← wrapping (in_db (get_snap_store store_id))
    snapshots ← wrapping (in_db (list_snapshots_for_disk store.tracked_disk.tracking_id))
    usage_of id snapshots

  -- The files of the store are counted; `TotalAllocatedSize` is not used.
  unfoldable pub store_response : SnapStore → Action Agent SnapStoreResponse
  unfolding find_snap_store_files snap_store_used_bytes total_from
  store_response store = do
    files ← wrapping (in_db (find_snap_store_files store.snap_store_id))
    usage ← wrapping (snap_store_used_bytes store.snap_store_id)
    pure (record {
      id = store.snap_store_id;
      tracked_disk_id = store.tracked_disk.tracking_id;
      storage_location_id = store.storage_location.path;
      allocated_disk_space = total_from 0 files;
      storage_usage = usage;
    })

  -- `GetSnapStore`
  unfoldable pub show_snap_store : String → Action Agent SnapStoreResponse
  unfolding get_snap_store store_response
  show_snap_store store_id = do
    store ← wrapping (in_db (get_snap_store store_id))
    store_response store

  unfoldable pub store_responses : List SnapStore → Action Agent (List SnapStoreResponse)
  unfolding store_response
  store_responses [] = pure []
  store_responses (s ∷ ss) = do r ← store_response s; rs ← store_responses ss; pure (r ∷ rs)

  -- `ListSnapStores`
  unfoldable pub show_snap_stores : Action Agent (List SnapStoreResponse)
  unfolding list_snap_stores store_responses
  show_snap_stores = do stores ← wrapping (in_db list_snap_stores); store_responses stores
