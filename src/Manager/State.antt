-- ===== src/Manager/State.antt =====
-- worker/manager/manager.go: what a method of the manager changes. That is the database, the kernel
-- module (as the calls that were made), the watchers by the id of their snap store, and the disk.
use coriolis_snapshot_agent.Common.{ℕ, List, [], ◌∷◌, ◌++◌, Option, String, ◌==◌, if◌then◌else◌}
use coriolis_snapshot_agent.Errors.{typed, not_found}
use coriolis_snapshot_agent.Result.{Result, ok, err, Action}
use coriolis_snapshot_agent.Types.{DevId, CbtInfo, ImageInfo}
use coriolis_snapshot_agent.Bolthold.{Bolthold}
use coriolis_snapshot_agent.Db.Connection.{Database}
use coriolis_snapshot_agent.Watcher.{Watcher}

-- The ioctls that change the state of the kernel module.
pub data Call : Type 0 where
  tracking_add : DevId → Call
  snap_store_add_file : List ℕ → String → Call
  snapshot_create : List DevId → Call
  snapshot_delete : ℕ → Call
  snap_store_cleanup : List ℕ → Call

-- What the kernel module answers to a call, after those before it. `none` filled bytes stands for
-- SNAP_STORE_NOT_FOUND.
pub record Kernel : Type 0 where
  pub on_add : List Call → DevId → Result (Unit {0})
  pub on_add_file : List Call → List ℕ → String → Result (Unit {0})
  pub on_create : List Call → List DevId → Result ℕ
  pub on_delete : List Call → ℕ → Result (Unit {0})
  pub on_cleanup : List Call → List ℕ → Result (Option ℕ)

-- What the kernel module and udev say, after the calls so far. A bitmap is its bytes.
pub record View : Type 0 where
  pub cbt_info : List Call → Result (List CbtInfo)
  pub images : List Call → Result (List ImageInfo)
  pub bitmap : List Call → DevId → Result (List ℕ)
  pub device_node : DevId → Result String

-- Changes of the disk that the manager asks for, whether or not they are granted.
pub data DiskOp : Type 0 where
  made_dir made_file removed_tree removed_file : String → DiskOp

-- The map of the watchers.
abbrev pub unwatched : String → List (String × Watcher) → List (String × Watcher)
unwatched id [] = []
unwatched id ((k, w) ∷ ws) = let rest = unwatched id ws in if k == id then rest else (k, w) ∷ rest

abbrev pub watcher_at : String → List (String × Watcher) → Result Watcher
watcher_at id [] = err (typed not_found)
watcher_at id ((k, w) ∷ ws) = if k == id then ok w else watcher_at id ws

abbrev pub put_watcher : String → Watcher → List (String × Watcher) → List (String × Watcher)
put_watcher id v [] = []
put_watcher id v ((k, w) ∷ ws) = (k, (if k == id then v else w)) ∷ put_watcher id v ws

module _ ⦃bolt : Bolthold⦄ where
  pub record Agent : Type 0 where
    pub db : Database
    pub calls : List Call
    pub watchers : List (String × Watcher)
    pub disk_ops : List DiskOp

  -- A method of the database.
  abbrev pub in_db : {A : Type 0} → Action Database A → Action Agent A
  in_db m s = let (r, d) = m s.db in (r, record s { db = d })

  abbrev pub kernel_add : Kernel → DevId → Action Agent (Unit {0})
  kernel_add kernel dev s =
      (kernel.on_add s.calls dev, record s { calls = s.calls ++ tracking_add dev ∷ [] })

  abbrev pub kernel_add_file : Kernel → List ℕ → String → Action Agent (Unit {0})
  kernel_add_file kernel id path s = (
    kernel.on_add_file s.calls id path,
    record s { calls = s.calls ++ snap_store_add_file id path ∷ [] },
  )

  abbrev pub kernel_delete : Kernel → ℕ → Action Agent (Unit {0})
  kernel_delete kernel id s =
      (kernel.on_delete s.calls id, record s { calls = s.calls ++ snapshot_delete id ∷ [] })

  abbrev pub kernel_cleanup : Kernel → List ℕ → Action Agent (Option ℕ)
  kernel_cleanup kernel id s =
      (kernel.on_cleanup s.calls id, record s { calls = s.calls ++ snap_store_cleanup id ∷ [] })

  -- An operation on the disk, with what it answers.
  abbrev pub on_disk : {A : Type 0} → DiskOp → Result A → Action Agent A
  on_disk op answer s = (answer, record s { disk_ops = s.disk_ops ++ op ∷ [] })

  -- `RecordWatcher`, `RemoveCharacterDeviceWatcher`, `GetCharacterDeviceWatcher`
  unfoldable pub record_watcher : String → Watcher → Action Agent (Unit {0})
  record_watcher id w s = (ok tt, record s { watchers = (id, w) ∷ unwatched id s.watchers })

  unfoldable pub remove_character_device_watcher : String → Action Agent (Unit {0})
  remove_character_device_watcher id s = (ok tt, record s { watchers = unwatched id s.watchers })

  unfoldable pub get_character_device_watcher : String → Action Agent Watcher
  get_character_device_watcher id s = (watcher_at id s.watchers, s)

  -- A method of the watcher of a snap store: the manager holds a pointer to it.
  abbrev pub in_watcher : {A : Type 0} → String → Watcher → Action Watcher A → Action Agent A
  in_watcher id w m s = let (r, v) = m w in (r, record s { watchers = put_watcher id v s.watchers })
