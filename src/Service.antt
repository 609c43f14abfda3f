-- ===== src/Service.antt =====
-- cmd/coriolis-snapshot-agent/main.go and worker/manager/worker.go: the service as it runs. Requests and
-- messages of the watchers are served one after the other, in any order; the agent may stop between
-- two of them and start again.
pub mod Invariants
pub mod Main
pub mod Order
pub mod Ready
pub mod Refinement
use coriolis_snapshot_agent.Common.{ℕ, ◌≡◌, Bool, true, List, [], String, Option, ◌≡◌, true}
use coriolis_snapshot_agent.Result.{Result, ok}
use coriolis_snapshot_agent.Bolthold.{Bolthold}
use coriolis_snapshot_agent.Db.Connection.{Database}
use coriolis_snapshot_agent.Db.Models.{
  TrackedDisk, SnapStoreFilesLocation, SnapStore, SnapStoreMapping, SnapStoreFile, SnapshotImage,
  VolumeSnapshot, Snapshot,
}
use coriolis_snapshot_agent.Config.{Config, ConfigHost}
use coriolis_snapshot_agent.System.{Facts}
use coriolis_snapshot_agent.Watcher.{Watcher}
use coriolis_snapshot_agent.Watcher.Messages.{Message}
use coriolis_snapshot_agent.Manager.{Texts}
use coriolis_snapshot_agent.Manager.State.{Agent, Kernel, View, in_db}
use coriolis_snapshot_agent.Manager.Host.{Host}
use coriolis_snapshot_agent.Manager.Mappings.{MappingRequest}
use coriolis_snapshot_agent.Manager.MessageLoop.{handle_message}
use coriolis_snapshot_agent.Manager.Request.{DiskRequest}
use coriolis_snapshot_agent.Manager.Startup.{new_manager, needs_init}
use coriolis_snapshot_agent.Api.{
  list_disks_handler, get_disk_handler, list_snap_store_locations, list_snap_store_handler,
  create_snapshot_handler, list_snapshots_handler, get_snapshot_handler, delete_snapshot_handler,
  create_snap_store_mapping_handler, list_snap_store_mappings_handler, get_changed_sectors_handler,
  consume_snapshot_handler, not_found_handler, system_info_handler,
}

-- A request as its handler gets it from the router and the decoder.
pub data Request : Type 0 where
  list_disks : String → String → Request
  get_disk : Option String → Request
  list_locations : Request
  list_snap_stores : Request
  create_snapshot : Result (List DiskRequest) → Request
  list_snapshots : Request
  get_snapshot : Option String → Request
  delete_snapshot : Option String → Request
  create_mapping : String → Result MappingRequest → Request
  list_mappings : Request
  get_changes : String → String → String → ℕ → Request
  consume_snapshot : String → String → Request
  system_info : Request
  not_found : Request

-- What the machine answers while one request is served or the agent starts.
pub record World (InfoStat VirtualMemoryStat : Type 0) : Type 0 where
  pub host : Host
  pub kernel : Kernel
  pub view : View
  pub facts : Facts InfoStat VirtualMemoryStat
  pub parse_bool : String → Bool
  pub block_size : Result ℕ
  pub open_image : String → Result (Unit {0})
  pub config_host : ConfigHost
  pub open_database : Result (Unit {0})
  -- the ids that mappings get at the start
  pub new_id : String → String

-- The database of a file that has just been made.
pub record IsFresh ⦃bolt : Bolthold⦄ (d : Database) : Type 0 where
  pub no_disks : bolt.rows TrackedDisk d.tracked_disks ≡ []
  pub no_stores : bolt.rows SnapStore d.snap_stores ≡ []
  pub no_files : bolt.rows SnapStoreFile d.files ≡ []
  pub no_locations : bolt.rows SnapStoreFilesLocation d.locations ≡ []
  pub no_images : bolt.rows SnapshotImage d.images ≡ []
  pub no_volume_snapshots : bolt.rows VolumeSnapshot d.volume_snapshots ≡ []
  pub no_snapshots : bolt.rows Snapshot d.snapshots ≡ []
  pub no_mappings : bolt.rows SnapStoreMapping d.mappings ≡ []

module _ ⦃bolt : Bolthold⦄ (InfoStat VirtualMemoryStat : Type 0) (config : Config)
    (texts : Texts) where
  -- The state after a request.
  unfoldable pub served : World InfoStat VirtualMemoryStat → Request → Agent → Agent
  served w (list_disks a b) s =
      (list_disks_handler w.host config texts w.kernel w.view w.parse_bool a b s).1
  served w (get_disk id) s = (get_disk_handler w.host config texts w.kernel w.view id s).1
  served w list_locations s = (list_snap_store_locations w.host config texts w.kernel w.view s).1
  served w list_snap_stores s = (list_snap_store_handler w.host config texts w.kernel w.view s).1
  served w (create_snapshot body) s =
      (create_snapshot_handler w.host config texts w.kernel w.view body s).1
  served w list_snapshots s = (list_snapshots_handler w.host config texts w.kernel w.view s).1
  served w (get_snapshot id) s = (get_snapshot_handler w.host config texts w.kernel w.view id s).1
  served w (delete_snapshot id) s =
      (delete_snapshot_handler w.host config texts w.kernel w.view id s).1
  served w (create_mapping id body) s =
      (create_snap_store_mapping_handler w.host config texts w.kernel w.view id body s).1
  served w list_mappings s =
      (list_snap_store_mappings_handler w.host config texts w.kernel w.view s).1
  served w (get_changes id disk generation previous) s =
      (get_changed_sectors_handler w.host config texts w.kernel w.view w.block_size id disk
        generation previous s).1
  served w (consume_snapshot id disk) s =
      (consume_snapshot_handler w.host config texts w.kernel w.view w.open_image id disk s).1
  served w system_info s = (system_info_handler w.host config texts w.kernel w.view w.facts s).1
  served w not_found s = (not_found_handler w.host config texts w.kernel w.view s).1

  -- `NewManager` of a new process, whether or not it comes up: its watchers are those that it makes.
  unfoldable pub started : World InfoStat VirtualMemoryStat → Agent → Agent
  started w s =
      (new_manager w.host config texts w.kernel w.view w.config_host w.open_database w.new_id
        (record s { watchers = [] })).1

  -- What can happen next. The goroutine of a watcher changes its watcher only. The agent starts on the
  -- database file that it left, or on a new one, which has no rows: a file that is removed, as after
  -- a first start that fails, is the end of a history.
  pub data Step : Agent → Agent → Type 0 where
    request :
        (w : World InfoStat VirtualMemoryStat) (q : Request) (s : Agent) → Step s (served w q s)
    message : (m : Message) (s : Agent) → Step s ((in_db (handle_message texts m) s).1)
    watched : (ws : List (String × Watcher)) (s : Agent) → Step s (record s { watchers = ws })
    restart :
        (w : World InfoStat VirtualMemoryStat) (s : Agent)
        → (w.host.outside s.disk_ops).stat config.db_file ≡ ok tt
        → Step s (started w s)
    fresh_start :
        (w : World InfoStat VirtualMemoryStat) (s : Agent)
        → needs_init w.host config texts w.kernel w.view
            ((w.host.outside s.disk_ops).stat config.db_file)
          ≡ ok true
        → IsFresh s.db
        → Step s (started w s)

  pub data Reach (s : Agent) : Agent → Type 0 where
    here : Reach s s
    next : {t u : Agent} → Reach s t → Step t u → Reach s u
