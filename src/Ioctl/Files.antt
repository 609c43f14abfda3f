-- ===== src/Ioctl/Files.antt =====
-- internal/ioctl/ioctl.go: the files that are given to a snap store.
use coriolis_snapshot_agent.Common.{
  if◌then◌else◌, ℕ, ◌≡◌, Bool, not, ◌&&◌, ◌||◌, List, [], ◌∷◌, ◌++◌, eqb, length, replicate, arith,
}
use coriolis_snapshot_agent.Errors.{plain}
use coriolis_snapshot_agent.Result.{Result, ok, Action, check, wrapped, lift, ◌>>=◌, ◌>>◌}
use coriolis_snapshot_agent.Types.{DevId, Range}
use coriolis_snapshot_agent.Ioctl.{
  Module, Request, snapstore_file, snapstore_file_multidev, opened, ask, first_address, uint32,
}

-- The test of `SnapStoreAddFile` for another device.
abbrev pub is_other_device : DevId → DevId → Bool
is_other_device a b = not (eqb a.major b.major) && not (eqb a.minor b.minor)

module _ (kmod : Module) where
  -- `SnapStoreAddFile`, for what `GetFileRanges` answers for the file.
  unfoldable pub snap_store_add_file :
      List ℕ → DevId → Result (List Range × DevId) → Action (List Request) (Unit {0})
  snap_store_add_file id snap_device file = do
    opened kmod
    (ranges, dev) ← lift (wrapped file)
    lift (check (is_other_device snap_device dev) plain)
    lift (first_address ranges)
    ask kmod (snapstore_file id (uint32 (length ranges)) ranges)

  -- `SnapStoreAddFileMultiDev`; the array for the ranges is made and never filled.
  unfoldable pub snap_store_add_file_multidev :
      List ℕ → Result (List Range × DevId) → Action (List Request) (Unit {0})
  snap_store_add_file_multidev id file = do
    opened kmod
    (ranges, dev) ← lift (wrapped file)
    let c_ranges = replicate (length ranges) (record { left = 0; right = 0 })
    lift (first_address c_ranges)
    ask kmod (snapstore_file_multidev id dev (uint32 (length ranges)) c_ranges)

  -- Once the device of the kernel module is open, `SnapStoreAddFile` hands over the extents of a file,
  -- all of them and in their order, exactly when the device of the file agrees with that of the snap
  -- store in its major or in its minor number; both need not agree.
  pub snap_store_add_file_accepts :
      (id : List ℕ) (snap_device dev : DevId) (range : Range) (ranges : List Range)
      (asked : List Request)
      → kmod.open_device ≡ ok tt
      → (snap_store_add_file id snap_device (ok (range ∷ ranges, dev)) asked).1 ≡ (
          if eqb snap_device.major dev.major || eqb snap_device.minor dev.minor
          then asked ++ snapstore_file id (uint32 (length (range ∷ ranges))) (range ∷ ranges) ∷ []
          else asked)
  unfolding snap_store_add_file
  snap_store_add_file_accepts id snap_device dev range ranges asked o = ground (arith, o)
