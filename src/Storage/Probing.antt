-- ===== src/Storage/Probing.antt =====
-- internal/storage/storage.go and internal/storage/util.go: what is found out about one entry of
-- /sys/block. The files of /proc and /sys, the device nodes and blkid are a `Sys`. A Go `int` is its 64
-- bits. A map is the list of its entries, the latest first.
use coriolis_snapshot_agent.Common.{
  ℕ, Bool, true, false, not, ◌&&◌, ◌||◌, List, [], ◌∷◌, map, String, Option, none, some, ◌==◌,
  if◌then◌else◌,
}
use coriolis_snapshot_agent.Errors.{plain, panicked}
use coriolis_snapshot_agent.Result.{Result, ok, err, wrapped, check, is_ok}
use coriolis_snapshot_agent.Result.Plain.{◌>>=◌, ◌>>◌}
use coriolis_snapshot_agent.Types.{DevId}
use coriolis_snapshot_agent.Storage.{Partition, BlockVolume}

pub record Entry : Type 0 where
  pub name : String
  pub is_dir : Bool

-- The mode and the device number that `os.Stat` gives.
pub record Stat : Type 0 where
  pub is_dir : Bool
  pub is_device : Bool
  pub is_char_device : Bool
  pub rdev : DevId

pub record Sys : Type 0 where
  -- the lines of /proc/mounts, split at spaces
  pub mounts : Result (List (List String))
  pub is_symlink : String → Result Bool
  pub eval_symlinks : String → Result String
  pub stat : String → Result Stat
  pub read_dir : String → Result (List Entry)
  pub read_file : String → Result String
  -- `strconv.Atoi` of a text without its last byte
  pub atoi_line : String → Result ℕ
  -- the lines of a file, split at the first "="
  pub assignments : String → Result (List (String × Option String))
  pub join : String → String → String
  pub open_volume : String → Result (Unit {0})
  -- the ioctls BLKGETSIZE64, BLKPBSZGET and BLKSSZGET on an open device
  pub size_of : String → Result ℕ
  pub physical_sector_size : String → Result ℕ
  pub logical_sector_size : String → Result ℕ
  -- `BlkIDProbe`
  pub blkid : String → Result (List (String × String))

-- `m[k]`, and with the second result `ok`.
abbrev pub lookup : String → List (String × String) → Option String
lookup k [] = none
lookup k ((j, v) ∷ rest) = if j == k then some v else lookup k rest

abbrev pub has : String → List (String × String) → Bool
has k [] = false
has k ((j, v) ∷ rest) = (j == k) || has k rest

abbrev pub value_or_empty : Option String → String
value_or_empty none = ""
value_or_empty (some v) = v

module _ (sys : Sys) where
  abbrev pub dev_path : String → String
  dev_path name = sys.join "/dev" name

  abbrev pub sysfs_path : String → String
  sysfs_path name = sys.join "/sys/block" name

  -- The device of a line of /proc/mounts, where a symbolic link is followed.
  unfoldable pub mounted_device : String → Result (Option String)
  mounted_device device = elim (sys.is_symlink device) [
    | err e ↦ ok none
    | ok false ↦ ok (some device)
    | ok true ↦ (do path ← wrapped (sys.eval_symlinks device); ok (some path))
  ]

  abbrev pub add_mount : Option String → String → List (String × String) → List (String × String)
  add_mount none point found = found
  add_mount (some device) point found = (device, point) ∷ found

  unfoldable pub mounts_from :
      List (String × String) → List (List String) → Result (List (String × String))
  unfolding mounted_device
  mounts_from found [] = ok found
  mounts_from found ((device ∷ point ∷ more) ∷ lines) = do
    path ← mounted_device device
    mounts_from (add_mount path point found) lines
  mounts_from found ((device ∷ []) ∷ lines) = mounts_from found lines
  mounts_from found ([] ∷ lines) = mounts_from found lines

  -- `parseMounts`
  unfoldable pub parse_mounts : Result (List (String × String))
  unfolding mounts_from
  parse_mounts = do lines ← wrapped sys.mounts; mounts_from [] lines

  abbrev pub slaves_dir : String → String
  slaves_dir name = sys.join (sysfs_path name) "slaves"

  abbrev pub entries_or_none : Result (List Entry) → List Entry
  entries_or_none (ok es) = es
  entries_or_none (err e) = []

  abbrev pub add_slaves : String → List Entry → List (String × String) → List (String × String)
  add_slaves master [] found = found
  add_slaves master (e ∷ es) found = add_slaves master es ((e.name, master) ∷ found)

  unfoldable pub slaves_from : List (String × String) → List Entry → List (String × String)
  slaves_from found [] = found
  slaves_from found (m ∷ masters) =
      slaves_from
        (if is_ok (sys.stat (slaves_dir m.name))
          then add_slaves m.name (entries_or_none (sys.read_dir (slaves_dir m.name))) found
          else found)
        masters

  -- `getDeviceMapperSlaves`
  unfoldable pub get_device_mapper_slaves : Result (List (String × String))
  unfolding slaves_from
  get_device_mapper_slaves = do masters ← sys.read_dir "/sys/block"; ok (slaves_from [] masters)

  -- One partition of `HasMountedPartitions`.
  abbrev pub is_mounted : List (String × String) → List (String × String) → String → Bool
  is_mounted mounts slaves name =
      if name == ""
      then false
      else has (dev_path name) mounts
        || elim (lookup name slaves) [ none ↦ false | some master ↦ has (dev_path master) mounts ]

  abbrev pub any_mounted : List (String × String) → List (String × String) → List Partition → Bool
  any_mounted mounts slaves [] = false
  any_mounted mounts slaves (p ∷ ps) =
      is_mounted mounts slaves p.name || any_mounted mounts slaves ps

  unfoldable pub has_mounted_partitions : BlockVolume → Result Bool
  unfolding parse_mounts get_device_mapper_slaves
  has_mounted_partitions v = do
    mounts ← wrapped parse_mounts
    slaves ← wrapped get_device_mapper_slaves
    ok (any_mounted mounts slaves v.partitions)

  -- `getSlavesOfDevice`
  unfoldable pub get_slaves_of_device : String → Result (List String)
  get_slaves_of_device name =
      if is_ok (sys.stat (sysfs_path name))
      then ok
          (map (λ (e : Entry). dev_path e.name) (entries_or_none (sys.read_dir (slaves_dir name))))
      else err plain

  abbrev pub is_block : Result Stat → Bool
  is_block (ok s) = s.is_device && not s.is_char_device
  is_block (err e) = false

  unfoldable pub is_block_device : String → Bool
  is_block_device name = is_block (sys.stat (dev_path name))

  unfoldable pub return_contents_as_int : String → Result ℕ
  return_contents_as_int path = do
    info ← sys.stat path
    contents ← sys.read_file path
    check (contents == "") plain
    sys.atoi_line contents

  unfoldable pub get_major_minor_from_device : String → Result DevId
  get_major_minor_from_device path = do st ← sys.stat path; ok st.rdev

  -- `ret[line[0]] = line[1]`, which panics on a line without "=".
  unfoldable pub uevent_from :
      List (String × String) → List (String × Option String) → Result (List (String × String))
  uevent_from found [] = ok found
  uevent_from found ((k, some v) ∷ lines) = uevent_from ((k, v) ∷ found) lines
  uevent_from found ((k, none) ∷ lines) = err panicked

  unfoldable pub parse_uevent : String → Result (List (String × String))
  unfolding uevent_from
  parse_uevent path = do
    info ← sys.stat (sys.join path "uevent")
    lines ← sys.assignments (sys.join path "uevent")
    uevent_from [] lines
