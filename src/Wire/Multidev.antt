-- ===== src/Wire/Multidev.antt =====
-- `NextPortionMultidevParams.Serialize`, which the agent does not call.
use native.Mathlib.Decide.{ℕ_discrete}
use coriolis_snapshot_agent.Common.{
  ℕ, ◌+◌, ◌*◌, ◌^◌, ◌<◌, ◌≡◌, ◌≢◌, ◌⊎◌, inl, inr, refl, sym, List, ◌++◌, none, some, arith, length,
  All, length-append,
}
use coriolis_snapshot_agent.Wire.{
  MultidevParams, charcmd_initiate, charcmd_next_portion_multidev, multidev_bytes,
  serialize_multidev,
}
use coriolis_snapshot_agent.Wire.Buffer.{
  Emits-write, Emits-seq, Emits-for_each, filled-Emits, little_endian, concat_map,
}
use coriolis_snapshot_agent.Wire.Format.{whole, multidev, range, expect, number}
use coriolis_snapshot_agent.Wire.Reading.{
  DevIdFits, RangeFits, dev_id_bytes, range_bytes, Reads, Reads-number, Reads-bytes, Reads-bind,
  Reads-last, Reads-dev_id, Reads-range, Reads-many, Reads-expect, whole-Reads, length-concat_map,
}
use coriolis_snapshot_agent.Errors.{plain}
use coriolis_snapshot_agent.Result.{ok, err}
use coriolis_snapshot_agent.Wire.Fields.{Emits-put_range}

-- The fields have the sizes of their Go types.
pub record IsMultidev (p : MultidevParams) : Type 0 where
  pub id_size : length p.id ≡ 16
  pub device_size : DevIdFits p.snap_store_device_id
  pub count_size : p.count < 2 ^ 32
  pub ranges_size : All RangeFits p.ranges

multidev_message : MultidevParams → List ℕ
multidev_message p =
    little_endian 4 charcmd_initiate
    ++ (p.id
        ++ (little_endian 4 p.snap_store_device_id.major
            ++ (little_endian 4 p.snap_store_device_id.minor
                ++ (little_endian 4 p.count ++ concat_map range_bytes p.ranges))))

length-multidev_message :
    (p : MultidevParams)
    → length p.id ≡ 16
    → length (multidev_message p) ≡ 32 + 16 * length p.ranges
unfolding multidev_message
length-multidev_message p h =
    omega (arith, length-append {0}, length-concat_map range_bytes 16 p.ranges (λ r. refl))

multidev_bytes-eq :
    (p : MultidevParams) → length p.id ≡ 16 → multidev_bytes p ≡ some (multidev_message p)
unfolding multidev_bytes multidev_message
multidev_bytes-eq p h =
    filled-Emits (32 + 16 * length p.ranges) _ (multidev_message p)
      (search (Emits-seq, Emits-write, Emits-for_each, Emits-put_range) depth 12)
      (sym (length-multidev_message p h))

Reads-multidev :
    (p : MultidevParams)
    → IsMultidev p
    → p.count ≡ length p.ranges
    → Reads (multidev charcmd_initiate) (multidev_message p) p
unfolding multidev multidev_message
Reads-multidev p h counted = Reads-bind _ _ _ _ _ _ (Reads-expect charcmd_initiate (omega arith)) (
    Reads-bind _ _ _ _ _ _ (Reads-bytes 16 p.id h.id_size) (
      Reads-bind _ _ (dev_id_bytes p.snap_store_device_id) _ _ _
        (Reads-dev_id p.snap_store_device_id h.device_size)
        (Reads-bind _ _ _ _ _ _ (Reads-number 4 p.count (omega arith)) (
          Reads-last _ _ _ _ (
            Reads-many range range_bytes RangeFits p.count p.ranges Reads-range (sym counted)
              h.ranges_size)))))

-- The receiver that waits for CHARCMD_NEXT_PORTION_MULTIDEV does not take the message.
multidev_refused :
    (p : MultidevParams)
    → whole (multidev charcmd_next_portion_multidev) (multidev_message p) ≡ none
unfolding multidev expect number multidev_message
multidev_refused p = refl

-- A message for several devices is refused with an error if the count is not that of the ranges.
-- Otherwise it is written without running over its buffer and every field can be read back, but only
-- under the command number of CHARCMD_INITIATE, never under CHARCMD_NEXT_PORTION_MULTIDEV.
pub serialize_multidev_command :
    (p : MultidevParams)
    → IsMultidev p
    → ((p.count ≢ length p.ranges) × (serialize_multidev p ≡ err plain))
      ⊎ ((bs : List ℕ) × (serialize_multidev p ≡ ok (some bs))
          × (length bs ≡ 32 + 16 * length p.ranges)
          × (whole (multidev charcmd_initiate) bs ≡ some p)
          × (whole (multidev charcmd_next_portion_multidev) bs ≡ none))
unfolding serialize_multidev
serialize_multidev_command p h = elim (ℕ_discrete p.count (length p.ranges)) [
  | yes e ↦ inr (
    multidev_message p,
    ground (arith, multidev_bytes-eq p h.id_size),
    length-multidev_message p h.id_size,
    whole-Reads (multidev charcmd_initiate) (multidev_message p) p (Reads-multidev p h e),
    multidev_refused p,
  )
  | no e ↦ inl (e, ground arith)
]
