-- ===== src/Manager/Disks.antt =====
-- worker/manager/manager.go: the disks of the machine and those that are tracked.
pub mod Spared
use coriolis_snapshot_agent.Common.{
  ℕ, Bool, true, false, not, ◌&&◌, ◌||◌, List, [], ◌∷◌, String, ◌==◌, eqb, ltb, any, select,
  if◌then◌else◌, ◌%◌, ◌^◌,
}
use coriolis_snapshot_agent.Errors.{typed, not_found, bad_request, bolt_not_found, this, is, wrap}
use coriolis_snapshot_agent.Result.{
  Result, ok, err, Action, wrapped, pure, raise, lift, attempt, wrapping, ◌>>=◌, ◌>>◌, check,
}
use coriolis_snapshot_agent.Types.{DevId, CbtInfo}
use coriolis_snapshot_agent.Bolthold.{Bolthold}
use coriolis_snapshot_agent.Config.{Config}
use coriolis_snapshot_agent.Storage.{BlockVolume}
use coriolis_snapshot_agent.Storage.Files.{list_block_devices}
use coriolis_snapshot_agent.Db.Models.{TrackedDisk, no_disk}
use coriolis_snapshot_agent.Db.Connection.{Database}
use coriolis_snapshot_agent.Db.Disks.{
  get_tracked_disk, get_tracked_disk_by_tracking_id, create_tracked_disk,
}
use coriolis_snapshot_agent.Manager.{Texts}
use coriolis_snapshot_agent.Manager.State.{Agent, Kernel, View, in_db, kernel_add}
use coriolis_snapshot_agent.Manager.Host.{Host}

-- `params.BlockVolume`: a volume with its id in the database, empty if it is not tracked.
pub record DiskInfo : Type 0 where
  pub tracking_id : String
  pub volume : BlockVolume

-- The loop over the devices of the CoW destinations: `break` leaves the answer as it is.
abbrev pub is_excluded : List String → BlockVolume → Bool
is_excluded cow_devices v =
    any (λ c. (c == v.path) || any (λ p. p.path == c) v.partitions) cow_devices

-- `deviceIsTracked`
unfoldable pub device_is_tracked : ℕ → ℕ → List CbtInfo → Bool
device_is_tracked major minor [] = false
device_is_tracked major minor (c ∷ cs) =
    (eqb c.dev_id.major major && eqb c.dev_id.minor minor && ltb 0 c.cbt_map_size)
    || device_is_tracked major minor cs

-- `exists == (db.TrackedDisk{})`
abbrev pub is_zero_disk : TrackedDisk → Bool
is_zero_disk d =
    (d.tracking_id == "") && (d.path == "") && eqb d.major 0 && eqb d.minor 0 && eqb d.sector_size 0

-- A row that is not there leaves the zero value.
abbrev pub found_disk : Result TrackedDisk → Result TrackedDisk
found_disk (ok d) = ok d
found_disk (err e) = if is e (this bolt_not_found) then ok no_disk else err (wrap e)

abbrev pub volume_at : String → List BlockVolume → Result BlockVolume
volume_at path [] = err (typed not_found)
volume_at path (v ∷ vs) = if v.path == path then ok v else volume_at path vs

abbrev pub disk_info : BlockVolume → Result TrackedDisk → Result DiskInfo
disk_info v (ok d) = ok (record { tracking_id = d.tracking_id; volume = v })
disk_info v (err e) =
    if is e (this bolt_not_found)
    then ok (record { tracking_id = ""; volume = v })
    else err (wrap e)

-- The error of `GetTrackedDiskByTrackingID`, as `GetTrackedDisk` and `CreateSnapStore` pass it on.
abbrev pub or_no_disk : Result TrackedDisk → Result TrackedDisk
or_no_disk (ok d) = ok d
or_no_disk (err e) = if is e (this bolt_not_found) then err (typed not_found) else err (wrap e)

module _ (host : Host) (config : Config) where
  -- `listDisks`
  unfoldable pub list_disks : Bool → Bool → Result (List BlockVolume)
  unfolding list_block_devices
  list_disks include_virtual include_swap =
      elim (list_block_devices false include_virtual include_swap host.sys_block) [
        | err e ↦ err (wrap e)
        | ok devices ↦
            ok (select (λ v. not (is_excluded config.cow_destination_device_paths v)) devices)
      ]

  unfoldable pub find_disk_by_path : String → Result BlockVolume
  unfolding list_disks
  find_disk_by_path path = elim (list_disks true true) [
    | err e ↦ err (wrap e)
    | ok disks ↦ volume_at path disks
  ]

  module _ ⦃bolt : Bolthold⦄ where
    unfoldable pub disk_infos : List BlockVolume → Action Database (List DiskInfo)
    unfolding get_tracked_disk
    disk_infos [] = pure []
    disk_infos (v ∷ vs) = do
      found ← attempt (get_tracked_disk v.major v.minor)
      info ← lift (disk_info v found)
      rest ← disk_infos vs
      pure (info ∷ rest)

    -- `ListDisks`
    unfoldable pub list_all_disks : Bool → Bool → Action Database (List DiskInfo)
    unfolding list_disks disk_infos
    list_all_disks include_virtual include_swap = do
      devices ← lift (wrapped (list_disks include_virtual include_swap))
      disk_infos devices

    -- `GetTrackedDisk`
    unfoldable pub show_tracked_disk : String → Action Database DiskInfo
    unfolding get_tracked_disk_by_tracking_id find_disk_by_path
    show_tracked_disk id = do
      lift (check (id == "") (typed bad_request))
      found ← attempt (get_tracked_disk_by_tracking_id id)
      disk ← lift (or_no_disk found)
      volume ← lift (wrapped (find_disk_by_path disk.path))
      pure (record { tracking_id = disk.tracking_id; volume = volume })

    module _ (texts : Texts) (kernel : Kernel) (view : View) where
      unfoldable pub ensure_tracking : BlockVolume → List CbtInfo → Action Agent (Unit {0})
      unfolding device_is_tracked
      ensure_tracking v infos =
          if device_is_tracked v.major v.minor infos
          then pure tt
          else wrapping (kernel_add kernel (record { major = v.major; minor = v.minor }))

      abbrev pub row_of : BlockVolume → TrackedDisk
      row_of v = record {
        tracking_id = texts.base v.path;
        path = v.path;
        major = v.major;
        minor = v.minor;
        sector_size = v.logical_sector_size % 2 ^ 32;
      }

      unfoldable pub ensure_row : BlockVolume → TrackedDisk → Action Agent TrackedDisk
      unfolding create_tracked_disk
      ensure_row v existing =
          if is_zero_disk existing
          then wrapping (in_db (create_tracked_disk (row_of v)))
          else pure existing

      -- `AddTrackedDisk`
      unfoldable pub add_tracked_disk : String → Action Agent DiskInfo
      unfolding find_disk_by_path get_tracked_disk ensure_tracking ensure_row
      add_tracked_disk device_path = do
        volume ← lift (wrapped (find_disk_by_path device_path))
        lift (check (volume.path == "") (typed not_found))
        row ← attempt (in_db (get_tracked_disk volume.major volume.minor))
        existing ← lift (found_disk row)
        infos ← (λ (s : Agent). (wrapped (view.cbt_info s.calls), s))
        ensure_tracking volume infos
        stored ← ensure_row volume existing
        pure (record { tracking_id = stored.tracking_id; volume = volume })
