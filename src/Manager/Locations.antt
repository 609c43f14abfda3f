-- ===== src/Manager/Locations.antt =====
-- worker/manager/snapstore_locations.go: the directories in which the snap stores keep their files.
pub mod Listing
use coriolis_snapshot_agent.Common.{
  ℕ, ◌+◌, ◌*◌, Bool, true, List, [], ◌∷◌, String, ◌==◌, any, length, replicate, zero, suc,
  if◌then◌else◌,
}
use coriolis_snapshot_agent.Errors.{typed, conflict, not_found, panicked, any_of, is, wrap}
use coriolis_snapshot_agent.Result.{
  Result, ok, err, Action, wrapped, pure, lift, attempt, wrapping, check, ◌>>=◌, ◌>>◌,
}
use coriolis_snapshot_agent.Types.{DevId}
use coriolis_snapshot_agent.Bolthold.{Bolthold}
use coriolis_snapshot_agent.Config.{Config}
use coriolis_snapshot_agent.Storage.Files.{
  FileSystemInfo, uint64, file_system_info, file_device_info, involved_devices,
}
use coriolis_snapshot_agent.Db.Models.{TrackedDisk, SnapStoreFilesLocation, SnapStoreFile}
use coriolis_snapshot_agent.Db.Connection.{Database}
use coriolis_snapshot_agent.Db.Disks.{
  get_all_tracked_disks, get_snap_store_files_location, get_snap_store_files_location_by_id,
  create_snap_store_file_location, list_snap_store_files_locations,
}
use coriolis_snapshot_agent.Db.Stores.{find_snap_store_location_files}
use coriolis_snapshot_agent.Manager.Host.{Host}

-- `params.SnapStoreLocation`
pub record LocationInfo : Type 0 where
  pub available_capacity : ℕ
  pub allocated_capacity : ℕ
  pub total_capacity : ℕ
  pub path : String
  pub device_path : String
  pub major : ℕ
  pub minor : ℕ

abbrev pub no_info : LocationInfo
no_info = record {
  available_capacity = 0;
  allocated_capacity = 0;
  total_capacity = 0;
  path = "";
  device_path = "";
  major = 0;
  minor = 0;
}

-- `totalAllocated += file.Size`, over the files.
unfoldable pub total_from : ℕ → List SnapStoreFile → ℕ
total_from n [] = n
total_from n (f ∷ fs) = total_from (uint64 (n + f.size)) fs

abbrev pub location_info :
    SnapStoreFilesLocation → FileSystemInfo → List SnapStoreFile → LocationInfo
location_info l info files = record {
  available_capacity = uint64 (info.blocks_available * info.block_size);
  allocated_capacity = total_from 0 files;
  total_capacity = l.total_capacity;
  path = l.path;
  device_path = l.device_path;
  major = l.major;
  minor = l.minor;
}

-- A location that exists is a conflict.
abbrev pub no_location_yet : Result SnapStoreFilesLocation → Result (Unit {0})
no_location_yet (ok l) = err (typed conflict)
no_location_yet (err e) = if is e (any_of not_found) then ok tt else err (wrap e)

abbrev pub on_tracked_disk : List String → List TrackedDisk → Bool
on_tracked_disk involved disks = any (λ (t : TrackedDisk). any (λ i. i == t.path) involved) disks

module _ ⦃bolt : Bolthold⦄ (host : Host) where
  -- `AddSnapStoreLocation`
  unfoldable pub add_snap_store_location : String → Action Database LocationInfo
  unfolding file_system_info get_all_tracked_disks get_snap_store_files_location
      create_snap_store_file_location find_snap_store_location_files
  add_snap_store_location path = do
    info ← lift (wrapped (file_system_info (host.statfs path)))
    device ← lift (wrapped (file_device_info (host.device_of path) host.sys_block))
    involved ← lift (
        wrapped (
          involved_devices (record { major = device.major; minor = device.minor } ∷ [])
            host.sys_block))
    disks ← wrapping get_all_tracked_disks
    lift (check (on_tracked_disk involved disks) (typed conflict))
    existing ← attempt (get_snap_store_files_location path)
    lift (no_location_yet existing)
    created ← wrapping (
        create_snap_store_file_location (record {
          path = path;
          total_capacity = uint64 (info.blocks * info.block_size);
          device_path = device.device_path;
          major = device.major;
          minor = device.minor;
          enabled = true;
        }))
    files ← wrapping (find_snap_store_location_files created.path)
    pure (location_info created info files)

  -- `getSnapStoreLoctionInfo`, which is also the body of the loop of `ListAvailableSnapStoreLocations`.
  unfoldable pub snap_store_location_info : SnapStoreFilesLocation → Action Database LocationInfo
  unfolding file_system_info find_snap_store_location_files
  snap_store_location_info l = do
    info ← lift (wrapped (file_system_info (host.statfs l.path)))
    files ← wrapping (find_snap_store_location_files l.path)
    pure (location_info l info files)

  -- `GetSnapStoreLocation`, `GetSnapStoreLocationByID`
  unfoldable pub show_location : String → Action Database LocationInfo
  unfolding get_snap_store_files_location snap_store_location_info
  show_location path = do
    l ← wrapping (get_snap_store_files_location path)
    snap_store_location_info l

  unfoldable pub show_location_by_id : String → Action Database LocationInfo
  unfolding get_snap_store_files_location_by_id snap_store_location_info
  show_location_by_id id = do
    l ← wrapping (get_snap_store_files_location_by_id id)
    snap_store_location_info l

  -- `ret[idx] = …`, where `n` entries of `ret` are left.
  abbrev pub next_entry : ℕ → Result ℕ
  next_entry zero = err panicked
  next_entry (suc n) = ok n

  unfoldable pub fill_entries :
      ℕ → List SnapStoreFilesLocation → Action Database (List LocationInfo)
  unfolding snap_store_location_info
  fill_entries n [] = pure (replicate n no_info)
  fill_entries n (l ∷ ls) = do
    info ← snap_store_location_info l
    left ← lift (next_entry n)
    rest ← fill_entries left ls
    pure (info ∷ rest)

  -- `ListAvailableSnapStoreLocations`
  unfoldable pub list_locations : Config → Action Database (List LocationInfo)
  unfolding list_snap_store_files_locations fill_entries
  list_locations config = do
    ls ← wrapping list_snap_store_files_locations
    fill_entries (length config.cow_destination) ls
