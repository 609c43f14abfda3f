-- ===== src/Wire.antt =====
-- worker/snapstore/types.go: the messages that are written to the character device of the kernel
-- module. `none` stands for the panic of a write past the end of the buffer.
pub mod Buffer
pub mod Format
mod Reading
mod Fields
pub mod Initiate
pub mod NextPortion
pub mod Multidev
use coriolis_snapshot_agent.Common.{
  ℕ, ◌+◌, ◌*◌, ◌≡◌, List, [], ◌∷◌, Option, none, some, eqb, if◌then◌else◌, length,
}
use coriolis_snapshot_agent.Errors.{plain}
use coriolis_snapshot_agent.Result.{Result, ok, err}
use coriolis_snapshot_agent.Types.{DevId, Range}
use Buffer.{Writer, ◌>>◌, put_uint32, put_uint64, copy_id, for_each, filled}

abbrev pub charcmd_acknowledge : ℕ
charcmd_acknowledge = 0x01

abbrev pub charcmd_invalid : ℕ
charcmd_invalid = 0xff

abbrev pub charcmd_initiate : ℕ
charcmd_initiate = 0x21

abbrev pub charcmd_next_portion : ℕ
charcmd_next_portion = 0x22

abbrev pub charcmd_next_portion_multidev : ℕ
charcmd_next_portion_multidev = 0x23

abbrev pub charcmd_halffill : ℕ
charcmd_halffill = 0x41

abbrev pub charcmd_overflow : ℕ
charcmd_overflow = 0x42

abbrev pub charcmd_terminate : ℕ
charcmd_terminate = 0x43

pub record InitiateParams : Type 0 where
  pub id : List ℕ
  pub empty_limit : ℕ
  pub snap_store_device_id : DevId
  pub count : ℕ
  pub device_ids : List DevId

pub record NextPortionParams : Type 0 where
  pub id : List ℕ
  pub count : ℕ
  pub ranges : List Range

pub record MultidevParams : Type 0 where
  pub id : List ℕ
  pub snap_store_device_id : DevId
  pub count : ℕ
  pub ranges : List Range

unfoldable pub put_dev_id : DevId → Writer
put_dev_id d = do put_uint32 d.major; put_uint32 d.minor

unfoldable pub put_range : Range → Writer
put_range r = do put_uint64 r.left; put_uint64 r.right

-- `SnapStoreStretchInitiateParams.Serialize`
unfoldable pub serialize_initiate : InitiateParams → Option (List ℕ)
unfolding put_dev_id
serialize_initiate s = filled (40 + 8 * length s.device_ids) do
  put_uint32 charcmd_initiate
  copy_id s.id
  put_uint64 s.empty_limit
  put_uint32 s.snap_store_device_id.major
  put_uint32 s.snap_store_device_id.minor
  put_uint32 s.count
  for_each put_dev_id s.device_ids

-- `NextPortionParams.Serialize`
unfoldable pub serialize_next_portion : NextPortionParams → Option (List ℕ)
unfolding put_range
serialize_next_portion n = filled (24 + 16 * length n.ranges) do
  put_uint32 charcmd_next_portion
  copy_id n.id
  put_uint32 n.count
  for_each put_range n.ranges

unfoldable pub multidev_bytes : MultidevParams → Option (List ℕ)
unfolding put_range
multidev_bytes n = filled (32 + 16 * length n.ranges) do
  put_uint32 charcmd_initiate
  copy_id n.id
  put_uint32 n.snap_store_device_id.major
  put_uint32 n.snap_store_device_id.minor
  put_uint32 n.count
  for_each put_range n.ranges

-- `NextPortionMultidevParams.Serialize`
unfoldable pub serialize_multidev : MultidevParams → Result (Option (List ℕ))
unfolding multidev_bytes
serialize_multidev n = if eqb n.count (length n.ranges) then ok (multidev_bytes n) else err plain
