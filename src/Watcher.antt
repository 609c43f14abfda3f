-- ===== src/Watcher.antt =====
-- worker/snapstore/character_device_watcher.go: the watcher of one snap store, which feeds the kernel
-- module with files and hears from it through a character device. What the file system and the
-- device answer is the `Outside` of each call; the channel is the list of what was sent.
pub mod Messages
pub mod Reader
pub mod Start
pub mod Allocation
pub mod Log
pub mod Notices
pub mod Invariant
use coriolis_snapshot_agent.Common.{
  ℕ, ◌+◌, ◌%◌, ◌^◌, Bool, not, List, [], ◌∷◌, ◌++◌, Option, none, some, String, ltb, eqb,
  if◌then◌else◌, length,
}
use coriolis_snapshot_agent.Errors.{
  Error, typed, plain, panicked, wrap, value, invalid_device, not_found, fs_exist, fs_not_exist,
  this, is,
}
use coriolis_snapshot_agent.Result.{
  Result, ok, err, Action, and_then, check, wrapped, pure, raise, gets, lift, modify, ◌>>=◌, ◌>>◌,
}
use coriolis_snapshot_agent.Types.{DevId, Range, dev_eq}
use coriolis_snapshot_agent.Wire.{
  InitiateParams, NextPortionParams, serialize_initiate, serialize_next_portion,
}
use coriolis_snapshot_agent.Storage.{BlockVolume, find_block_volume_by_id}
use Messages.{Message, deleted}

pub record Watcher : Type 0 where
  pub id : List ℕ
  pub snap_store_file_size : ℕ
  pub dev_id : DevId
  pub snap_device_id : DevId
  pub basedir : String
  -- the 64 bits of an `int64`
  pub allocated_space : ℕ
  pub is_open : Bool
  -- the messages given to the device, and those sent to the manager, oldest first
  pub written : List (List ℕ)
  pub sent : List Message

-- What the operating system answers, and the code of util.go that only asks it.
pub record Outside : Type 0 where
  pub stat : String → Result (Unit {0})
  pub mkdir_all : String → Result (Unit {0})
  pub bytes_free : String → Result ℕ
  -- `filepath.Join(basedir, uuid.New().String())`
  pub new_file_path : String → String
  pub create_snap_store_file : String → ℕ → Result (Unit {0})
  pub file_ranges : String → Result (List Range × DevId)
  pub write : List ℕ → Result ℕ
  pub file_size : String → Result ℕ
  pub remove_all : String → Result (Unit {0})
  -- the devices that `BlockDeviceList` finds
  pub devices : Result (List BlockVolume)
  -- `uint64(float64(n) * 0.2)`
  pub fifth : ℕ → ℕ

module _ {S : Type 0} where
  abbrev pub fail_if : Bool → Error → Action S (Unit {0})
  fail_if b e s = (check b e, s)

-- `w.messageChan <- m`, where `m` names the snap store of the watcher.
unfoldable pub send : (List ℕ → Message) → Action Watcher (Unit {0})
send m = modify (λ (w : Watcher). record w { sent = w.sent ++ m w.id ∷ [] })

-- `w.charDevice.Write(bytes)`, and that all of it was written.
unfoldable pub give : Outside → Option (List ℕ) → Action Watcher (Unit {0})
give out none = raise panicked
give out (some bytes) = do
  modify (λ (w : Watcher). record w { written = w.written ++ bytes ∷ [] })
  count ← lift (wrapped (out.write bytes))
  fail_if (not (eqb count (length bytes))) plain

-- The bytes that `create` writes.
unfoldable pub initiate_params : Watcher → InitiateParams
initiate_params w = record {
  id = w.id;
  empty_limit = w.snap_store_file_size;
  snap_store_device_id = w.snap_device_id;
  count = 1;
  device_ids = w.dev_id ∷ [];
}

unfoldable pub create : Outside → Action Watcher (Unit {0})
unfolding give initiate_params
create out = do params ← gets initiate_params; give out (serialize_initiate params)

-- The first test of `AllocateStorage`.
unfoldable pub ensure_basedir : Outside → String → Result (Unit {0})
ensure_basedir out dir = elim (out.stat dir) [
  | ok a ↦ ok tt
  | err e ↦ if is e (this fs_exist) then wrapped (out.mkdir_all dir) else err (wrap e)
]

-- `errors.Errorf(…)` in place of the error.
abbrev pub restated {ℓ} : {A : Type ℓ} → Result A → Result A
restated (ok a) = ok a
restated (err e) = err plain

unfoldable pub portion : List ℕ → List Range → NextPortionParams
portion id ranges = record { id = id; count = length ranges % 2 ^ 32; ranges = ranges }

-- A file of `size` bytes, not yet given to the kernel: its path and its extents.
unfoldable pub new_file : Outside → ℕ → Watcher → Result (String × List Range)
unfolding ensure_basedir
new_file out size w =
    let path = out.new_file_path w.basedir in
    and_then (ensure_basedir out w.basedir) (λ a.
      and_then (wrapped (out.bytes_free w.basedir)) (λ free.
        and_then (check (ltb free size) (typed value)) (λ b.
          and_then (restated (out.create_snap_store_file path size)) (λ c.
            and_then (wrapped (out.file_ranges path)) (λ (ranges, dev).
              and_then (check (not (dev_eq dev w.snap_device_id)) (typed invalid_device))
                (λ d. ok (path, ranges)))))))

unfoldable pub allocate_storage : Outside → ℕ → Action Watcher (String × ℕ)
unfolding new_file give portion
allocate_storage out size = do
  (path, ranges) ← (λ (w : Watcher). (new_file out size w, w))
  id ← gets (λ (w : Watcher). w.id)
  give out (serialize_next_portion (portion id ranges))
  got ← lift (wrapped (out.file_size path))
  modify (λ (w : Watcher). record w { allocated_space = (w.allocated_space + got) % 2 ^ 64 })
  pure (path, got)

unfoldable pub tracked_device_size : Outside → Watcher → Result ℕ
unfolding find_block_volume_by_id
tracked_device_size out w = elim out.devices [
  | err e ↦ err (wrap (wrap e))
  | ok all_devices ↦ elim (find_block_volume_by_id w.dev_id.major w.dev_id.minor all_devices) [
    | err e ↦ err (wrap e)
    | ok dev ↦ ok dev.size
  ]
]

unfoldable pub allocate_initial_storage : Outside → Action Watcher (String × ℕ)
unfolding tracked_device_size allocate_storage
allocate_initial_storage out = do
  size ← (λ (w : Watcher). (wrapped (tracked_device_size out w), w))
  allocate_storage out (out.fifth size)

-- A directory that is not there is no error.
abbrev pub removed : Result (Unit {0}) → Result (Unit {0})
removed (ok a) = ok tt
removed (err e) = if is e (this fs_not_exist) then ok tt else err (wrap e)

unfoldable pub remove_snap_store_files : Outside → Action Watcher (Unit {0})
unfolding send
remove_snap_store_files out = do
  dir ← gets (λ (w : Watcher). w.basedir)
  lift (removed (out.remove_all dir))
  send deleted
