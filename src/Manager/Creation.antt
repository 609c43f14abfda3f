-- ===== src/Manager/Creation.antt =====
-- worker/manager/manager.go: `CreateSnapshot` from the point at which each disk has its snap store,
-- with its deferred clean-ups.
mod Silent
pub mod Release
use coriolis_snapshot_agent.Common.{
  ℕ, ◌+◌, not, List, [], ◌∷◌, ◌++◌, map, String, Option, none, some, eqb, if◌then◌else◌,
}
use coriolis_snapshot_agent.Errors.{plain}
use coriolis_snapshot_agent.Result.{
  Result, ok, err, check, Action, wrapped, pure, raise, lift, attempt, wrapping, ◌>>=◌, ◌>>◌,
  on_error,
}
use coriolis_snapshot_agent.Types.{DevId, CbtInfo, ImageInfo, dev_eq}
use coriolis_snapshot_agent.Bolthold.{Bolthold}
use coriolis_snapshot_agent.Db.Models.{
  TrackedDisk, SnapStore, SnapshotImage, VolumeSnapshot, Snapshot, no_disk, no_store, healthy,
}
use coriolis_snapshot_agent.Db.Snapshots.{
  create_snapshot_image, create_volume_snapshot, delete_snapshot_image, delete_volume_snapshot,
  create_snapshot,
}
use coriolis_snapshot_agent.Watcher.{restated}
use coriolis_snapshot_agent.Manager.{Texts, logged, each_logged}
use coriolis_snapshot_agent.Manager.Removal.{cleanup_snap_store}
use coriolis_snapshot_agent.Manager.State.{
  Agent, Call, Kernel, snapshot_create, in_db, kernel_delete, View,
}
use coriolis_snapshot_agent.Manager.Volumes.{filter_cbt_info, new_image}

-- A disk of the request: its device, its row, its snap store, and the ids that are made for it.
pub record Target : Type 0 where
  pub dev : DevId
  pub disk : TrackedDisk
  pub store : SnapStore
  pub volume_id : String
  pub image_id : String

-- `trackedDiskMap[dev]`, `snapStoreMap[dev]`: the last one that was put there.
unfoldable pub disk_at : DevId → TrackedDisk → List Target → TrackedDisk
disk_at dev found [] = found
disk_at dev found (t ∷ ts) = disk_at dev (if dev_eq t.dev dev then t.disk else found) ts

unfoldable pub store_at : DevId → SnapStore → List Target → SnapStore
store_at dev found [] = found
store_at dev found (t ∷ ts) = store_at dev (if dev_eq t.dev dev then t.store else found) ts

abbrev pub image_row : Target → ImageInfo → String → SnapshotImage
image_row t image node = record {
  tracking_id = t.image_id;
  device_path = node;
  major = image.snapshot_dev_id.major;
  minor = image.snapshot_dev_id.minor;
  snapshot_id = "";
}

module _ ⦃bolt : Bolthold⦄ (texts : Texts) (kernel : Kernel) where
  -- The first deferred function.
  unfoldable pub release_stores : List Target → Action Agent (Unit {0})
  unfolding cleanup_snap_store
  release_stores ts = each_logged (λ (t : Target). cleanup_snap_store texts kernel t.store) ts

module _ ⦃bolt : Bolthold⦄ (texts : Texts) (kernel : Kernel) (view : View)
    (all_targets : List Target) where
  -- The row of a volume when it is stored: without its bitmap and its snap store.
  abbrev pub volume_row : ℕ → Target → CbtInfo → SnapshotImage → VolumeSnapshot
  volume_row number t info image = record {
    tracking_id = t.volume_id;
    snapshot_number = info.snap_number;
    generation_id = texts.uuid_string info.generation_id;
    original_device = disk_at t.dev no_disk all_targets;
    snapshot_image = image;
    bitmap = [];
    snapshot_id = texts.format_uint number;
    snap_store = no_store;
    status = healthy;
  }

  abbrev pub drop_rows : Target → Action Agent (Unit {0})
  drop_rows t = do
    logged (in_db (delete_volume_snapshot t.volume_id))
    logged (in_db (delete_snapshot_image t.image_id))

  -- One round of the loop over the devices. Its `err` is a variable of its own, so that of the
  -- deferred functions only those of a failed `GetCBTBitmap` see an error.
  unfoldable pub snap_volume :
      ℕ
      → List CbtInfo
      → List CbtInfo
      → List ImageInfo
      → List ImageInfo
      → Target
      → Action Agent VolumeSnapshot
  snap_volume number pre post before after t = do
    new_info ← lift (wrapped (filter_cbt_info post t.dev))
    old_info ← lift (wrapped (filter_cbt_info pre t.dev))
    lift (check (not (eqb new_info.snap_number (old_info.snap_number + 1))) plain)
    image ← lift (new_image t.dev before after)
    node ← lift (restated (view.device_node image.snapshot_dev_id))
    row ← wrapping (in_db (create_snapshot_image (image_row t image node)))
    vol ← wrapping (in_db (create_volume_snapshot (volume_row number t new_info row)))
    bitmap ← on_error (drop_rows t) (λ (s : Agent). (wrapped (view.bitmap s.calls t.dev), s))
    pure (record vol { bitmap = bitmap; snap_store = store_at t.dev no_store all_targets })

  unfoldable pub snap_volumes :
      ℕ
      → List CbtInfo
      → List CbtInfo
      → List ImageInfo
      → List ImageInfo
      → List Target
      → Action Agent (List VolumeSnapshot)
  unfolding snap_volume
  snap_volumes number pre post before after [] = pure []
  snap_volumes number pre post before after (t ∷ ts) = do
    vol ← snap_volume number pre post before after t
    vols ← snap_volumes number pre post before after ts
    pure (vol ∷ vols)

  -- An error of the loop is returned, but is not in the `err` that the first two deferred functions
  -- look at.
  unfoldable pub store_snapshot : ℕ → Result (List VolumeSnapshot) → Action Agent (Result Snapshot)
  unfolding create_snapshot
  store_snapshot number (err e) = pure (err e)
  store_snapshot number (ok vols) = do
    snapshot ← wrapping (
        in_db (
          create_snapshot
            (record { snapshot_id = texts.format_uint number; volume_snapshots = vols })))
    pure (ok snapshot)

  unfoldable pub after_create : List CbtInfo → List ImageInfo → ℕ → Action Agent (Result Snapshot)
  unfolding snap_volumes store_snapshot
  after_create pre before number = do
    post ← (λ (s : Agent). (wrapped (view.cbt_info s.calls), s))
    after ← (λ (s : Agent). (wrapped (view.images s.calls), s))
    vols ← attempt (snap_volumes number pre post before after all_targets)
    store_snapshot number vols

  abbrev pub kernel_create : List DevId → Action Agent ℕ
  kernel_create devices s = (
    kernel.on_create s.calls devices,
    record s { calls = s.calls ++ snapshot_create devices ∷ [] },
  )

  unfoldable pub try_snapshot : Action Agent (Result Snapshot)
  unfolding after_create
  try_snapshot = do
    pre ← (λ (s : Agent). (wrapped (view.cbt_info s.calls), s))
    before ← (λ (s : Agent). (wrapped (view.images s.calls), s))
    number ← wrapping (kernel_create (map (λ (t : Target). t.dev) all_targets))
    on_error (logged (kernel_delete kernel number)) (after_create pre before number)

  -- The rest of `CreateSnapshot`, after the loop that makes the snap stores.
  unfoldable pub take_snapshot : Action Agent Snapshot
  unfolding try_snapshot release_stores
  take_snapshot = do
    outcome ← on_error (release_stores texts kernel all_targets) try_snapshot
    lift outcome
