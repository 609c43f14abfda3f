-- ===== src/Wire/NextPortion.antt =====
-- `NextPortionParams.Serialize`: the receiver reads back what it writes.
use coriolis_snapshot_agent.Common.{
  ℕ, ◌+◌, ◌*◌, ◌^◌, ◌<◌, ◌≡◌, refl, sym, List, ◌++◌, some, arith, length, All, length-append,
}
use coriolis_snapshot_agent.Wire.{NextPortionParams, charcmd_next_portion, serialize_next_portion}
use coriolis_snapshot_agent.Wire.Buffer.{
  Emits-write, Emits-seq, Emits-for_each, filled-Emits, little_endian, concat_map,
}
use coriolis_snapshot_agent.Wire.Format.{whole, next_portion, range}
use coriolis_snapshot_agent.Wire.Reading.{
  RangeFits, range_bytes, Reads, Reads-number, Reads-bytes, Reads-bind, Reads-last, Reads-range,
  Reads-many, Reads-expect, whole-Reads, length-concat_map,
}
use coriolis_snapshot_agent.Wire.Fields.{Emits-put_range}

-- The fields have the sizes of their Go types, and the count is that of the list.
pub record IsNextPortion (p : NextPortionParams) : Type 0 where
  pub id_size : length p.id ≡ 16
  pub counted : p.count ≡ length p.ranges
  pub count_size : p.count < 2 ^ 32
  pub ranges_size : All RangeFits p.ranges

next_portion_bytes : NextPortionParams → List ℕ
next_portion_bytes p =
    little_endian 4 charcmd_next_portion
    ++ (p.id ++ (little_endian 4 p.count ++ concat_map range_bytes p.ranges))

length-next_portion_bytes :
    (p : NextPortionParams)
    → length p.id ≡ 16
    → length (next_portion_bytes p) ≡ 24 + 16 * length p.ranges
unfolding next_portion_bytes
length-next_portion_bytes p h =
    omega (arith, length-append {0}, length-concat_map range_bytes 16 p.ranges (λ r. refl))

serialize_next_portion-eq :
    (p : NextPortionParams)
    → length p.id ≡ 16
    → serialize_next_portion p ≡ some (next_portion_bytes p)
unfolding serialize_next_portion next_portion_bytes
serialize_next_portion-eq p h =
    filled-Emits (24 + 16 * length p.ranges) _ (next_portion_bytes p)
      (search (Emits-seq, Emits-write, Emits-for_each, Emits-put_range) depth 12)
      (sym (length-next_portion_bytes p h))

Reads-next_portion :
    (p : NextPortionParams) → IsNextPortion p → Reads next_portion (next_portion_bytes p) p
unfolding next_portion next_portion_bytes
Reads-next_portion p h = Reads-bind _ _ _ _ _ _ (Reads-expect charcmd_next_portion (omega arith)) (
    Reads-bind _ _ _ _ _ _ (Reads-bytes 16 p.id h.id_size) (
      Reads-bind _ _ _ _ _ _ (Reads-number 4 p.count (omega arith)) (
        Reads-last _ _ _ _ (
          Reads-many range range_bytes RangeFits p.count p.ranges Reads-range (sym h.counted)
            h.ranges_size))))

-- A message that adds a file's extents is written without running over its buffer, takes 24 bytes
-- and 16 for each range, and is read back with every field as it was.
pub serialize_next_portion_round_trip :
    (p : NextPortionParams)
    → IsNextPortion p
    → (bs : List ℕ) × (serialize_next_portion p ≡ some bs)
      × (length bs ≡ 24 + 16 * length p.ranges)
      × (whole next_portion bs ≡ some p)
serialize_next_portion_round_trip p h = (
  next_portion_bytes p,
  serialize_next_portion-eq p h.id_size,
  length-next_portion_bytes p h.id_size,
  whole-Reads next_portion (next_portion_bytes p) p (Reads-next_portion p h),
)
