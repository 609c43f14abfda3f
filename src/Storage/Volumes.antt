-- ===== src/Storage/Volumes.antt =====
-- internal/storage/storage.go: a disk and its partitions, put together from what is found out about
-- them, and the entries of /sys/block that are disks.
pub mod Valid
use coriolis_snapshot_agent.Common.{
  ℕ, ◌≡◌, refl, inl, inr, ◌+◌, ◌%◌, ◌^◌, Bool, true, false, not, ◌&&◌, ◌||◌, List, [], ◌∷◌, String,
  Option, none, some, eqb, ◌==◌, if◌then◌else◌, All, arith, Bool-cases, ◌-◌,
}
use coriolis_snapshot_agent.Errors.{
  Error, typed, plain, wrap, invalid_device, no_info, this, is, sentinel,
}
use coriolis_snapshot_agent.Result.{Result, ok, err, wrapped, check, is_ok, Result-cases}
use coriolis_snapshot_agent.Result.Plain.{◌>>=◌, ◌>>◌}
use coriolis_snapshot_agent.Storage.{Partition, BlockVolume, Probe}
use coriolis_snapshot_agent.Storage.Probing.{
  Sys, Entry, Stat, lookup, value_or_empty, dev_path, sysfs_path, is_block_device,
  return_contents_as_int, get_major_minor_from_device, parse_uevent, get_slaves_of_device,
  has_mounted_partitions,
}

-- `start + sectors - 1`
abbrev pub end_sector_of : ℕ → ℕ → ℕ
end_sector_of start sectors = (start + sectors + (2 ^ 64 - 1)) % 2 ^ 64

module _ (sys : Sys) where
  unfoldable pub part_name : Option String → Result String
  unfolding is_block_device
  part_name none = err plain
  part_name (some name) = if is_block_device sys name then ok name else err plain

  -- `getPartitionInfo`
  unfoldable pub get_partition_info : String → Result Partition
  unfolding parse_uevent part_name return_contents_as_int get_major_minor_from_device
  get_partition_info path = do
    uevent ← parse_uevent sys path
    name ← part_name (lookup "DEVNAME" uevent)
    start ← return_contents_as_int sys (sys.join path "start")
    sectors ← return_contents_as_int sys (sys.join path "size")
    align ← return_contents_as_int sys (sys.join path "alignment_offset")
    info ← sys.blkid (dev_path sys name)
    dev ← get_major_minor_from_device sys (dev_path sys name)
    ok (record {
      name = name;
      path = dev_path sys name;
      sectors = sectors;
      start_sector = start;
      end_sector = end_sector_of start sectors;
      filesystem_type = value_or_empty (lookup "TYPE" info);
      major = dev.major;
      minor = dev.minor;
    })

  abbrev pub is_partition_dir : String → Entry → Bool
  is_partition_dir path e =
      e.is_dir && is_ok (sys.stat (sys.join (sys.join path e.name) "partition"))

  unfoldable pub partitions_in : String → List Entry → Result (List Partition)
  unfolding get_partition_info
  partitions_in path [] = ok []
  partitions_in path (e ∷ es) = elim (is_partition_dir path e) [
    | false ↦ partitions_in path es
    | true ↦ (do
      p ← get_partition_info (sys.join path e.name)
      ps ← partitions_in path es
      ok (p ∷ ps))
  ]

  -- `listDiskPartitions`
  unfoldable pub list_disk_partitions : String → Result (List Partition)
  unfolding partitions_in
  list_disk_partitions path = do
    info ← sys.stat path
    check (not info.is_dir) plain
    entries ← sys.read_dir path
    partitions_in path entries

  -- Only the very value `ErrNoInfo` is let through, and then nothing is known.
  abbrev pub or_no_info : Result (List (String × String)) → Result (List (String × String))
  or_no_info (ok info) = ok info
  or_no_info (err (sentinel no_info)) = ok []
  or_no_info (err e) = err (wrap e)

  -- `getBlockVolumeInfo`
  unfoldable pub get_block_volume_info : String → Result BlockVolume
  unfolding get_major_minor_from_device return_contents_as_int list_disk_partitions
      get_slaves_of_device
  get_block_volume_info name = do
    wrapped (sys.open_volume (dev_path sys name))
    dev ← get_major_minor_from_device sys (dev_path sys name)
    size ← wrapped (sys.size_of (dev_path sys name))
    physical ← wrapped (sys.physical_sector_size (dev_path sys name))
    logical ← wrapped (sys.logical_sector_size (dev_path sys name))
    align ← wrapped (return_contents_as_int sys (sys.join (sysfs_path sys name) "alignment_offset"))
    partitions ← wrapped (list_disk_partitions (sysfs_path sys name))
    slaves ← wrapped (get_slaves_of_device sys name)
    info ← or_no_info (sys.blkid (dev_path sys name))
    ok (record {
      path = dev_path sys name;
      name = name;
      size = size;
      logical_sector_size = logical;
      physical_sector_size = physical;
      partitions = partitions;
      filesystem_type = value_or_empty (lookup "TYPE" info);
      major = dev.major;
      minor = dev.minor;
      device_mapper_slaves = slaves;
      is_virtual = is_ok (sys.stat (sys.join "/sys/devices/virtual/block" name));
    })

  -- A file that is there and holds a number with the property.
  abbrev pub file_says : (ℕ → Bool) → String → Bool
  file_says p path =
      is_ok (sys.stat path) && elim (return_contents_as_int sys path) [ ok n ↦ p n | err e ↦ false ]

  abbrev pub type_rom : ℕ
  type_rom = 5

  -- `isValidDevice`
  unfoldable pub is_valid_device : String → Result (Unit {0})
  unfolding is_block_device return_contents_as_int
  is_valid_device name = do
    check (not (is_block_device sys name)) plain
    check (not (is_ok (sys.stat (sysfs_path sys name)))) plain
    check
        (file_says (λ n. eqb n type_rom)
          (sys.join (sys.join (sysfs_path sys name) "device") "type"))
        plain
    check (file_says (λ n. not (eqb n 0)) (sys.join (sysfs_path sys name) "removable")) plain

  -- `GetBlockDeviceInfo`
  unfoldable pub get_block_device_info : String → Result BlockVolume
  unfolding is_valid_device get_block_volume_info
  get_block_device_info name = elim (is_valid_device name) [
    | err e ↦ err (typed invalid_device)
    | ok a ↦ get_block_volume_info name
  ]

  abbrev pub mounted_of : Result BlockVolume → Result Bool
  mounted_of (ok v) = has_mounted_partitions sys v
  mounted_of (err e) = err e

  unfoldable pub probe_all : List Entry → List Probe
  unfolding get_block_device_info has_mounted_partitions
  probe_all [] = []
  probe_all (e ∷ es) =
      record {
        info = get_block_device_info e.name;
        mounted = mounted_of (get_block_device_info e.name);
      }
      ∷ probe_all es

  -- The entries of /sys/block, as `BlockDeviceList` looks at them.
  unfoldable pub sys_block_probes : Result (List Probe)
  unfolding probe_all
  sys_block_probes = do entries ← sys.read_dir "/sys/block"; ok (probe_all entries)
