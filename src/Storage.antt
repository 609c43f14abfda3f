-- ===== src/Storage.antt =====
-- internal/storage/storage.go and internal/util/util.go: the block devices of the machine as the
-- agent sees them, and the searches through them. What is found out about each device is a `Probe`,
-- which Volumes makes from the answers of the system; the paths are texts.
pub mod Fiemap
pub mod Files
pub mod Probing
pub mod Search
pub mod Udev
pub mod Volumes
use coriolis_snapshot_agent.Common.{
  ℕ, ◌≡◌, Bool, true, false, not, ◌&&◌, ◌||◌, List, [], ◌∷◌, ◌++◌, String, Option, none, some, eqb,
  ◌==◌, if◌then◌else◌, any, select, find_first,
}
use coriolis_snapshot_agent.Errors.{typed, not_found, any_of, invalid_device, is, wrap, plain}
use coriolis_snapshot_agent.Result.{Result, ok, err}
use coriolis_snapshot_agent.Types.{DevId}

pub record Partition : Type 0 where
  pub name : String
  pub path : String
  pub sectors : ℕ
  pub start_sector : ℕ
  pub end_sector : ℕ
  pub filesystem_type : String
  pub major : ℕ
  pub minor : ℕ

pub record BlockVolume : Type 0 where
  pub path : String
  pub name : String
  pub size : ℕ
  pub logical_sector_size : ℕ
  pub physical_sector_size : ℕ
  pub partitions : List Partition
  pub filesystem_type : String
  pub major : ℕ
  pub minor : ℕ
  pub device_mapper_slaves : List String
  pub is_virtual : Bool

-- What `GetBlockDeviceInfo` and `HasMountedPartitions` return for one entry of /sys/block.
pub record Probe : Type 0 where
  pub info : Result BlockVolume
  pub mounted : Result Bool

-- One round of the loop of `BlockDeviceList`: an error, or the volume if it is kept.
unfoldable pub probe_one : Bool → Bool → Bool → Probe → Result (Option BlockVolume)
probe_one ignore_mounted include_virtual include_swap p = elim p.info [
  | err e ↦ if is e (any_of invalid_device) then ok none else err e
  | ok v ↦ if v.is_virtual && not include_virtual then ok none else elim p.mounted [
    | err e ↦ err (wrap e)
    | ok has_mounted ↦
        if ignore_mounted && has_mounted
        then ok none
        else if (v.filesystem_type == "swap") && not include_swap
        then ok none
        else ok (some v)
  ]
]

abbrev pub keep :
    Result (Option BlockVolume) → Result (List BlockVolume) → Result (List BlockVolume)
keep (err e) rest = err e
keep (ok none) rest = rest
keep (ok (some v)) (ok vs) = ok (v ∷ vs)
keep (ok (some v)) (err e) = err e

unfoldable pub block_device_list : Bool → Bool → Bool → List Probe → Result (List BlockVolume)
unfolding probe_one
block_device_list ignore_mounted include_virtual include_swap [] = ok []
block_device_list ignore_mounted include_virtual include_swap (p ∷ ps) =
    keep (probe_one ignore_mounted include_virtual include_swap p)
      (block_device_list ignore_mounted include_virtual include_swap ps)

abbrev pub is_dev : ℕ → ℕ → ℕ → ℕ → Bool
is_dev major minor a b = eqb a major && eqb b minor

-- `FindBlockVolumeByID`, among the devices that are listed.
unfoldable pub find_block_volume_by_id : ℕ → ℕ → List BlockVolume → Result BlockVolume
find_block_volume_by_id major minor [] = err (typed not_found)
find_block_volume_by_id major minor (v ∷ vs) =
    if is_dev major minor v.major v.minor then ok v else find_block_volume_by_id major minor vs

abbrev pub partition_path : ℕ → ℕ → List Partition → Option String
partition_path major minor [] = none
partition_path major minor (p ∷ ps) =
    if is_dev major minor p.major p.minor then some p.path else partition_path major minor ps

-- `FindDeviceByID`: the path of a disk or of a partition.
unfoldable pub find_device_by_id : ℕ → ℕ → List BlockVolume → Result String
find_device_by_id major minor [] = err (typed not_found)
find_device_by_id major minor (v ∷ vs) =
    if is_dev major minor v.major v.minor
    then ok v.path
    else elim (partition_path major minor v.partitions) [
      | some path ↦ ok path
      | none ↦ find_device_by_id major minor vs
    ]

pub record PhysicalDiskInfo : Type 0 where
  pub major : ℕ
  pub minor : ℕ
  pub device_path : String
  pub sector_size : ℕ

abbrev pub partition_info : ℕ → ℕ → ℕ → List Partition → Option PhysicalDiskInfo
partition_info major minor sector_size [] = none
partition_info major minor sector_size (p ∷ ps) =
    if is_dev major minor p.major p.minor
    then some (record {
      major = p.major;
      minor = p.minor;
      device_path = p.path;
      sector_size = sector_size;
    })
    else partition_info major minor sector_size ps

-- `GetBlockDeviceInfoFromFile`, for a file on the device `major:minor`.
unfoldable pub block_device_info : ℕ → ℕ → List BlockVolume → Result PhysicalDiskInfo
block_device_info major minor [] = err (typed not_found)
block_device_info major minor (v ∷ vs) =
    if is_dev major minor v.major v.minor
    then ok (record {
      major = v.major;
      minor = v.minor;
      device_path = v.path;
      sector_size = v.logical_sector_size;
    })
    else elim (partition_info major minor v.logical_sector_size v.partitions) [
      | some info ↦ ok info
      | none ↦ block_device_info major minor vs
    ]

abbrev pub mem_path : String → List String → Bool
mem_path path paths = any (λ p. p == path) paths

-- The inner loop of `FindAllInvolvedDevices` ends with `break` after the first partition.
abbrev pub first_partition_in : List String → List Partition → Bool
first_partition_in paths [] = false
first_partition_in paths (p ∷ ps) = mem_path p.path paths

abbrev pub volume_in : List String → BlockVolume → Bool
volume_in paths v = mem_path v.path paths || first_partition_in paths v.partitions

abbrev pub involved_of : List String → BlockVolume → List String
involved_of paths v =
    if volume_in paths v then v.path ∷ (if v.is_virtual then v.device_mapper_slaves else []) else []

unfoldable pub involved : List String → List BlockVolume → List String
involved paths [] = []
involved paths (v ∷ vs) = involved_of paths v ++ involved paths vs

-- The paths of the devices that are asked for.
unfoldable pub device_paths : List DevId → List BlockVolume → Result (List String)
unfolding find_device_by_id
device_paths [] all_devices = ok []
device_paths (d ∷ ds) all_devices = elim (find_device_by_id d.major d.minor all_devices) [
  | err e ↦ err (wrap e)
  | ok path ↦ elim (device_paths ds all_devices) [ err e ↦ err e | ok paths ↦ ok (path ∷ paths) ]
]

-- `FindAllInvolvedDevices`
unfoldable pub find_all_involved_devices : List DevId → List BlockVolume → Result (List String)
unfolding device_paths involved
find_all_involved_devices devices all_devices = elim (device_paths devices all_devices) [
  | err e ↦ err e
  | ok paths ↦ ok (involved paths all_devices)
]

-- `FindDeviceByPath`
abbrev pub partition_at : String → List Partition → Option DevId
partition_at path [] = none
partition_at path (p ∷ ps) =
    if p.path == path
    then some (record { major = p.major; minor = p.minor })
    else partition_at path ps

unfoldable pub find_device_by_path : String → List BlockVolume → Result DevId
find_device_by_path path [] = err plain
find_device_by_path path (v ∷ vs) =
    if v.path == path
    then ok (record { major = v.major; minor = v.minor })
    else elim (partition_at path v.partitions) [
      | some d ↦ ok d
      | none ↦ find_device_by_path path vs
    ]
