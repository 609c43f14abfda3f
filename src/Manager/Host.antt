-- ===== src/Manager/Host.antt =====
-- What the machine answers to the manager: the listing of /sys/block, statfs, the device on which a
-- file lies, the file system, and the device file of the kernel module. The answers are those of one
-- call of the manager; those of `outside` depend on the changes of the disk that were asked for before,
-- so that a folder is there once it was made.
use coriolis_snapshot_agent.Common.{ℕ, List, String}
use coriolis_snapshot_agent.Result.{Result, Action}
use coriolis_snapshot_agent.Types.{DevId}
use coriolis_snapshot_agent.Storage.{Probe}
use coriolis_snapshot_agent.Storage.Files.{Statfs, FileCalls}
use coriolis_snapshot_agent.Watcher.{Outside}
use coriolis_snapshot_agent.Bolthold.{Bolthold}
use coriolis_snapshot_agent.Manager.State.{Agent, DiskOp, on_disk}

pub record Host : Type 0 where
  pub sys_block : Result (List Probe)
  pub statfs : String → Result Statfs
  pub device_of : String → Result DevId
  -- `filepath.Join`
  pub join : String → String → String
  pub outside : List DiskOp → Outside
  pub file_calls : String → ℕ → FileCalls
  pub remove_file : String → Result (Unit {0})
  -- `os.OpenFile(VEEAM_DEV, …)`
  pub open_device : Result (Unit {0})
  -- the names in a directory
  pub read_dir : String → Result (List String)

module _ ⦃bolt : Bolthold⦄ (host : Host) {A : Type 0} where
  -- A question to the file system as it is now.
  abbrev pub asked_now : (Outside → Result A) → Action Agent A
  asked_now question s = (question (host.outside s.disk_ops), s)

  -- An operation on the disk as it is now.
  abbrev pub done_now : DiskOp → (Outside → Result A) → Action Agent A
  done_now op question s = on_disk op (question (host.outside s.disk_ops)) s
