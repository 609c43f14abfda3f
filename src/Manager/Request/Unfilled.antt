-- ===== src/Manager/Request/Unfilled.antt =====
-- worker/manager/manager.go: a snap store that was made but got no file.
use coriolis_snapshot_agent.Common.{ℕ, ◌≡◌, List, [], ◌∷◌, ◌++◌, String}
use coriolis_snapshot_agent.Result.{ok}
use coriolis_snapshot_agent.Bolthold.{Bolthold}
use coriolis_snapshot_agent.Config.{Config}
use coriolis_snapshot_agent.Watcher.{Watcher}
use coriolis_snapshot_agent.Watcher.Start.{new_watcher}
use coriolis_snapshot_agent.Db.Models.{TrackedDisk, SnapStoreFilesLocation, SnapStore}
use coriolis_snapshot_agent.Manager.{Texts}
use coriolis_snapshot_agent.Manager.State.{Agent, DiskOp, made_dir, unwatched, put_watcher}
use coriolis_snapshot_agent.Manager.Host.{Host}
use coriolis_snapshot_agent.Manager.Stores.{store_path, watcher_params}
use coriolis_snapshot_agent.Manager.Stores.Failures.{IsStorable, IsUnmade, row, stored}

module _ ⦃bolt : Bolthold⦄ (host : Host) (config : Config) (texts : Texts) where
  open bolt use {rows, faulty, find_one_lem}

  -- The folder of the store is made, and then its watcher starts.
  pub record IsWatchable (id : List ℕ) (store : SnapStore) (ops : List DiskOp) (w : Watcher)
      : Type 0 where
    pub unmade : IsUnmade host config texts store ops
    pub made : (host.outside ops).mkdir_all (store_path host store) ≡ ok tt
    pub starts :
        new_watcher host.open_device
          (host.outside (ops ++ made_dir (store_path host store) ∷ []))
          (watcher_params host config texts id store)
        ≡ ok w

  module _ (id : List ℕ) (disk_id : String) (disk : TrackedDisk) (location : SnapStoreFilesLocation)
      (s : Agent) (h : IsStorable host config texts id disk_id disk location s) (w : Watcher)
      (k : IsWatchable id (row host config texts id disk location) s.disk_ops w) where
    abbrev store : SnapStore
    store = row host config texts id disk location

    abbrev ops : List DiskOp
    ops = s.disk_ops ++ made_dir (store_path host store) ∷ []

    abbrev before_fill : Agent
    before_fill = record (stored host config texts id disk_id disk location s h) {
      watchers = (store.snap_store_id, w) ∷ unwatched store.snap_store_id s.watchers;
      disk_ops = ops;
    }

    abbrev after_fill : Watcher → Agent
    after_fill v = record before_fill {
      watchers = put_watcher store.snap_store_id v before_fill.watchers;
    }
