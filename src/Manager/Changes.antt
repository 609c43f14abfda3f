-- ===== src/Manager/Changes.antt =====
-- worker/manager/manager.go: `GetChangedSectors`, which chooses between a full and an incremental
-- download.
use coriolis_snapshot_agent.Common.{
  ℕ, ◌*◌, ◌^◌, ◌<◌, ◌≡◌, refl, ◌≢◌, Bool, true, false, not, ◌||◌, List, [], ◌∷◌, String, arith, eqb,
  length, ◌==◌, if◌then◌else◌,
}
use coriolis_snapshot_agent.Result.{Result, ok, err, Action, wrapped, pure, lift, wrapping, ◌>>=◌}
use coriolis_snapshot_agent.Bolthold.{Bolthold}
use coriolis_snapshot_agent.Db.Models.{VolumeSnapshot}
use coriolis_snapshot_agent.Db.Connection.{Database}
use coriolis_snapshot_agent.Increments.{DiskRange, fetch_increments}
use coriolis_snapshot_agent.Increments.Full.{fetch_increments_full}
use coriolis_snapshot_agent.Increments.Coverage.{covered, changed_block, covered-fetch_increments}
use coriolis_snapshot_agent.Manager.{Texts}
use coriolis_snapshot_agent.Manager.Volumes.{find_volume_snapshot_for_disk}

-- `params.BackupType`
pub data BackupType : Type 0 where
  full incremental : BackupType

-- `params.ChangesResponse`
pub record ChangesResponse : Type 0 where
  pub tracked_disk_id : String
  pub snapshot_id : String
  pub cbt_block_size : ℕ
  pub backup_type : BackupType
  pub ranges : List DiskRange

-- Whether the client's last download is of no use.
abbrev pub needs_full : ℕ → String → VolumeSnapshot → Bool
needs_full previous generation vol = eqb previous 0 || not (generation == vol.generation_id)

unfoldable pub changes_of : String → String → String → ℕ → ℕ → VolumeSnapshot → ChangesResponse
changes_of snapshot_id disk generation previous blk vol =
    let whole = needs_full previous generation vol in
    record {
      tracked_disk_id = disk;
      snapshot_id = snapshot_id;
      cbt_block_size = blk;
      backup_type = if whole then full else incremental;
      ranges = fetch_increments vol.bitmap (if whole then 0 else previous) vol.snapshot_number blk;
    }

module _ ⦃bolt : Bolthold⦄ (texts : Texts) (block_size : Result ℕ) where
  abbrev pub parsed_generation : String → Result (Unit {0})
  parsed_generation generation =
      if generation == ""
      then ok tt
      else elim (texts.uuid_parse generation) [ ok id ↦ ok tt | err e ↦ err e ]

  -- `GetChangedSectors`, with the answer of the ioctl for the block size.
  unfoldable pub get_changed_sectors :
      String → String → String → ℕ → Action Database ChangesResponse
  unfolding changes_of find_volume_snapshot_for_disk
  get_changed_sectors snapshot_id disk generation previous = do
    parsed ← lift (wrapped (parsed_generation generation))
    vol ← wrapping (find_volume_snapshot_for_disk snapshot_id disk)
    blk ← lift (wrapped block_size)
    pure (changes_of snapshot_id disk generation previous blk vol)

module _ (snapshot_id disk generation : String) (previous blk : ℕ) (vol : VolumeSnapshot) where
  -- What a client that comes with no number or with another generation gets is one range over the
  -- whole disk (below 2 ^ 64 bytes).
  pub changes_of_full :
      needs_full previous generation vol ≡ true
      → length vol.bitmap * blk < 2 ^ 64
      → let r = changes_of snapshot_id disk generation previous blk vol in
        (r.backup_type ≡ full)
        × (r.ranges ≡ record { start_offset = 0; length = length vol.bitmap * blk } ∷ [])
  unfolding changes_of
  changes_of_full h fits =
      rw h (refl, fetch_increments_full vol.bitmap vol.snapshot_number blk fits)

  -- A client with a number of the same generation gets an incremental download that covers a block
  -- after block 0 exactly when the bitmap says that it changed since then.
  pub changes_of_incremental :
      (j : ℕ)
      → needs_full previous generation vol ≡ false
      → 0 < j
      → 0 < blk
      → length vol.bitmap * blk < 2 ^ 64
      → let r = changes_of snapshot_id disk generation previous blk vol in
        (r.backup_type ≡ incremental)
        × (covered blk r.ranges j ≡ changed_block previous vol.snapshot_number vol.bitmap j)
  unfolding changes_of
  changes_of_incremental j h q p fits =
      let used : previous ≢ 0 = ground (arith, h) in
      rw h (
        refl,
        ground (
          arith,
          covered-fetch_increments vol.bitmap previous vol.snapshot_number blk j used p fits,
        ),
      )
