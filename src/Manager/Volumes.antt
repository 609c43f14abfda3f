-- ===== src/Manager/Volumes.antt =====
-- worker/manager/manager.go: the searches by which the manager finds the disk, the image and the
-- snapshot that a request or the kernel module means.
pub mod Found
use coriolis_snapshot_agent.Common.{
  ◌≡◌, refl, Bool, true, false, not, ◌&&◌, List, [], ◌∷◌, ◌++◌, String, Option, none, some, ◌==◌,
  if◌then◌else◌, any, select, find_first, length, arith,
}
use coriolis_snapshot_agent.Errors.{typed, not_found, plain}
use coriolis_snapshot_agent.Result.{Result, ok, err, Action, lift, wrapping, ◌>>=◌, ◌>>◌}
use coriolis_snapshot_agent.Types.{DevId, CbtInfo, ImageInfo, dev_eq}
use coriolis_snapshot_agent.Bolthold.{Bolthold}
use coriolis_snapshot_agent.Db.Models.{VolumeSnapshot}
use coriolis_snapshot_agent.Db.Connection.{Database}
use coriolis_snapshot_agent.Db.Snapshots.{get_snapshot}

-- `filterCBTInfo`
unfoldable pub filter_cbt_info : List CbtInfo → DevId → Result CbtInfo
filter_cbt_info [] dev = err (typed not_found)
filter_cbt_info (c ∷ cs) dev = if dev_eq c.dev_id dev then ok c else filter_cbt_info cs dev

-- The loops of `CreateSnapshot` that look for the image of `dev` which was not there before.
unfoldable pub new_images : DevId → List ImageInfo → List ImageInfo → List ImageInfo
new_images dev before [] = []
new_images dev before (post ∷ images) =
    let rest = new_images dev before images in
    if dev_eq post.original_dev_id dev
    then (if any
          (λ (pre : ImageInfo).
            dev_eq pre.original_dev_id dev && dev_eq post.snapshot_dev_id pre.snapshot_dev_id)
          before
        then rest
        else post ∷ rest)
    else rest

abbrev pub only : List ImageInfo → Result ImageInfo
only (i ∷ []) = ok i
only images = err plain

unfoldable pub new_image : DevId → List ImageInfo → List ImageInfo → Result ImageInfo
unfolding new_images
new_image dev before after = only (new_images dev before after)

-- The loop of `FindVolumeSnapshotForDisk`, from what was found so far.
unfoldable pub last_for_disk :
    String → Option VolumeSnapshot → List VolumeSnapshot → Option VolumeSnapshot
last_for_disk disk found [] = found
last_for_disk disk found (v ∷ vs) =
    last_for_disk disk (if v.original_device.tracking_id == disk then some v else found) vs

-- The zero value of `VolumeSnapshot` has no tracking id.
abbrev pub unless_empty : Option VolumeSnapshot → Result VolumeSnapshot
unless_empty none = err (typed not_found)
unless_empty (some v) = if v.original_device.tracking_id == "" then err (typed not_found) else ok v

module _ ⦃bolt : Bolthold⦄ where
  -- `FindVolumeSnapshotForDisk`
  unfoldable pub find_volume_snapshot_for_disk : String → String → Action Database VolumeSnapshot
  unfolding get_snapshot last_for_disk
  find_volume_snapshot_for_disk snapshot_id disk = do
    snap ← wrapping (get_snapshot snapshot_id)
    lift (unless_empty (last_for_disk disk none snap.volume_snapshots))
