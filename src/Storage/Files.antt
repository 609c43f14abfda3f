-- ===== src/Storage/Files.antt =====
-- internal/util/util.go: the files of a snap store on a block device. The answers of the system calls
-- are arguments, and so are the extents that `GetExtents` finds (Storage/Fiemap).
pub mod Extents
use coriolis_snapshot_agent.Common.{
  ℕ, ◌+◌, ◌*◌, ◌-◌, ◌%◌, ◌^◌, List, [], ◌∷◌, map, String, if◌then◌else◌, Bool, false, true,
}
use coriolis_snapshot_agent.Errors.{plain, wrap}
use coriolis_snapshot_agent.Result.{Result, ok, err, wrapped}
use coriolis_snapshot_agent.Result.Plain.{◌>>=◌, ◌>>◌}
use coriolis_snapshot_agent.Types.{DevId, Range}
use coriolis_snapshot_agent.Storage.Fiemap.{Extent}
use coriolis_snapshot_agent.Storage.{
  BlockVolume, Probe, PhysicalDiskInfo, block_device_list, block_device_info,
  find_all_involved_devices,
}

-- `unix.Statfs_t`, the fields that are used.
pub record Statfs : Type 0 where
  pub type : ℕ
  pub bsize : ℕ
  pub blocks : ℕ
  pub bfree : ℕ
  pub bavail : ℕ

pub record FileSystemInfo : Type 0 where
  pub type : ℕ
  pub block_size : ℕ
  pub blocks : ℕ
  pub blocks_free : ℕ
  pub blocks_available : ℕ
  pub bytes_free : ℕ

abbrev pub uint64 : ℕ → ℕ
uint64 n = n % 2 ^ 64

-- `GetFileSystemInfoFromPath`
unfoldable pub file_system_info : Result Statfs → Result FileSystemInfo
file_system_info answer = do
  stat ← wrapped answer
  ok (record {
    type = stat.type;
    block_size = stat.bsize;
    blocks = stat.blocks;
    blocks_free = stat.bfree;
    blocks_available = stat.bavail;
    bytes_free = uint64 (stat.bsize * stat.bfree);
  })

-- `BlockDeviceList`, for what the listing of /sys/block answers.
unfoldable pub list_block_devices :
    Bool → Bool → Bool → Result (List Probe) → Result (List BlockVolume)
unfolding block_device_list
list_block_devices ignore_mounted include_virtual include_swap sys_block = do
  probes ← sys_block
  block_device_list ignore_mounted include_virtual include_swap probes

-- `GetBlockDeviceInfoFromFile`, for the device that `os.Stat` gives.
unfoldable pub file_device_info : Result DevId → Result (List Probe) → Result PhysicalDiskInfo
unfolding list_block_devices block_device_info
file_device_info stat sys_block = do
  dev ← wrapped stat
  devices ← wrapped (list_block_devices false true true sys_block)
  block_device_info dev.major dev.minor devices

-- `FindAllInvolvedDevices`, from the listing on.
unfoldable pub involved_devices : List DevId → Result (List Probe) → Result (List String)
unfolding list_block_devices find_all_involved_devices
involved_devices devices sys_block = do
  all_devices ← wrapped (list_block_devices false true true sys_block)
  find_all_involved_devices devices all_devices

-- What `CreateSnapStoreFile` is answered.
pub record FileCalls : Type 0 where
  pub stat : Result (Unit {0})
  pub create : Result (Unit {0})
  pub fallocate : Result (Unit {0})
  pub close : Result (Unit {0})

-- The loop over the one flag ends after one round. A file that cannot be allocated stays.
unfoldable pub create_snap_store_file : FileCalls → Result (Unit {0})
create_snap_store_file calls = elim calls.stat [
  | ok a ↦ err plain
  | err e ↦ (do wrapped calls.create; wrapped calls.fallocate; wrapped calls.close)
]

-- `Right: val.Physical + val.Length - 1`
abbrev pub extent_range : Extent → Range
extent_range e = record { left = e.physical; right = uint64 (e.physical + e.length + (2 ^ 64 - 1)) }

-- `GetFileRanges`
unfoldable pub file_ranges :
    Result PhysicalDiskInfo → Result (List Extent) → Result (List Range × DevId)
file_ranges info extents = do
  disk ← wrapped info
  found ← wrapped extents
  ok (map extent_range found, record { major = disk.major; minor = disk.minor })
