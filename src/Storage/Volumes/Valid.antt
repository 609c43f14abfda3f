-- ===== src/Storage/Volumes/Valid.antt =====
-- internal/storage/storage.go: which of the entries of /sys/block are listed as disks.
use mathlib.Core.Path.{subst}
use coriolis_snapshot_agent.Common.{
  ◌≡◌, inl, inr, Bool, true, false, ◌&&◌, List, [], ◌∷◌, String, some, All, arith,
}
use coriolis_snapshot_agent.Result.{ok, is_ok, Result-cases}
use coriolis_snapshot_agent.Storage.{BlockVolume, probe_one, block_device_list}
use coriolis_snapshot_agent.Storage.Files.{list_block_devices}
use coriolis_snapshot_agent.Storage.Search.{kept, Passes}
use coriolis_snapshot_agent.Storage.Probing.{Sys, Entry, has_mounted_partitions}
use coriolis_snapshot_agent.Storage.Volumes.{
  is_valid_device, get_block_device_info, get_block_volume_info, mounted_of, probe_all,
  sys_block_probes,
}

-- `isValidDevice` finds nothing against it: it is a block device with an entry of its own in
-- /sys/block, and neither a CD-ROM nor removable.
pub IsDisk : Sys → BlockVolume → Type 0
IsDisk sys v = is_ok (is_valid_device sys v.name) ≡ true

module _ (sys : Sys) where
  get_block_volume_info-name :
      (name : String) (v : BlockVolume) → get_block_volume_info sys name ≡ ok v → v.name ≡ name
  unfolding get_block_volume_info
  get_block_volume_info-name name v h = ground (arith, h)

  get_block_device_info-IsDisk :
      (name : String) (v : BlockVolume) → get_block_device_info sys name ≡ ok v → IsDisk sys v
  unfolding get_block_device_info IsDisk
  get_block_device_info-IsDisk name v h = elim (Result-cases (is_valid_device sys name)) [
    | inl (a, e) ↦
        let found : get_block_volume_info sys name ≡ ok v = ground (arith, h, e) in
        let same : v.name ≡ name = get_block_volume_info-name name v found in
        ground (arith, same, e)
    | inr (x, e) ↦ absurd (ground (arith, h, e))
  ]

  module _ (ignore_mounted include_virtual include_swap : Bool) where
    -- A volume that passes the filters, with what is found out about its partitions.
    abbrev pub Listed : BlockVolume → Type 0
    Listed v =
        IsDisk sys v
        × Passes include_virtual include_swap v
        × ((m : Bool) × (has_mounted_partitions sys v ≡ ok m) × ((ignore_mounted && m) ≡ false))

    probed-Listed :
        (name : String) (v : BlockVolume)
        → probe_one ignore_mounted include_virtual include_swap (record {
          info = get_block_device_info sys name;
          mounted = mounted_of sys (get_block_device_info sys name);
        })
          ≡ ok (some v)
        → Listed v
    unfolding probe_one Passes
    probed-Listed name v h = elim (Result-cases (get_block_device_info sys name)) [
      | inr (x, e) ↦ absurd (ground (arith, h, e))
      | inl (u, e) ↦ elim (Result-cases (has_mounted_partitions sys u)) [
        | inr (x, k) ↦ absurd (ground (arith, h, e, k))
        | inl (m, k) ↦
            let same : u ≡ v = ground (arith, h, e, k) in
            let found : get_block_device_info sys name ≡ ok v = ground (arith, same, e) in
            (
              get_block_device_info-IsDisk name v found,
              ground (arith, h, e, k, same),
              (m, ground (arith, same, k), ground (arith, h, e, k)),
            )
      ]
    ]

    probe_all-Listed :
        (es : List Entry) (vs : List BlockVolume)
        → block_device_list ignore_mounted include_virtual include_swap (probe_all sys es) ≡ ok vs
        → All Listed vs
    unfolding block_device_list probe_all
    probe_all-Listed [] vs h = let same : [] ≡ vs = cc (h) in subst (All Listed) same tt
    probe_all-Listed (e ∷ es) vs h =
        kept Listed _
          (block_device_list ignore_mounted include_virtual include_swap (probe_all sys es)) vs
          (probed-Listed e.name) (probe_all-Listed es) h

    -- Every volume that `BlockDeviceList` returns from /sys/block is a disk, virtual or swap only if
    -- such ones were asked for, and without a mounted partition if those are to be ignored.
    pub list_block_devices-Listed :
        (vs : List BlockVolume)
        → list_block_devices ignore_mounted include_virtual include_swap (sys_block_probes sys)
          ≡ ok vs
        → All Listed vs
    unfolding list_block_devices sys_block_probes
    list_block_devices-Listed vs h = elim (Result-cases (sys.read_dir "/sys/block")) [
      | inr (x, e) ↦ absurd (ground (arith, h, e))
      | inl (es, e) ↦ probe_all-Listed es vs (ground (arith, h, e))
    ]
