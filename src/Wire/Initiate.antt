-- ===== src/Wire/Initiate.antt =====
-- `SnapStoreStretchInitiateParams.Serialize`: the receiver reads back what it writes.
use coriolis_snapshot_agent.Common.{
  ℕ, ◌+◌, ◌*◌, ◌^◌, ◌<◌, ◌≡◌, refl, sym, List, ◌++◌, some, arith, length, All, length-append,
}
use coriolis_snapshot_agent.Wire.{InitiateParams, charcmd_initiate, serialize_initiate}
use coriolis_snapshot_agent.Wire.Buffer.{
  Emits-write, Emits-seq, Emits-for_each, filled-Emits, little_endian, concat_map,
}
use coriolis_snapshot_agent.Wire.Format.{whole, initiate, dev_id}
use coriolis_snapshot_agent.Wire.Reading.{
  DevIdFits, dev_id_bytes, Reads, Reads-number, Reads-bytes, Reads-bind, Reads-last, Reads-dev_id,
  Reads-many, Reads-expect, whole-Reads, length-concat_map,
}
use coriolis_snapshot_agent.Wire.Fields.{Emits-put_dev_id}

-- The fields have the sizes of their Go types, and the count is that of the list.
pub record IsInitiate (p : InitiateParams) : Type 0 where
  pub id_size : length p.id ≡ 16
  pub limit_size : p.empty_limit < 2 ^ 64
  pub device_size : DevIdFits p.snap_store_device_id
  pub counted : p.count ≡ length p.device_ids
  pub count_size : p.count < 2 ^ 32
  pub ids_size : All DevIdFits p.device_ids

initiate_bytes : InitiateParams → List ℕ
initiate_bytes p =
    little_endian 4 charcmd_initiate
    ++ (p.id
        ++ (little_endian 8 p.empty_limit
            ++ (little_endian 4 p.snap_store_device_id.major
                ++ (little_endian 4 p.snap_store_device_id.minor
                    ++ (little_endian 4 p.count ++ concat_map dev_id_bytes p.device_ids)))))

length-initiate_bytes :
    (p : InitiateParams)
    → length p.id ≡ 16
    → length (initiate_bytes p) ≡ 40 + 8 * length p.device_ids
unfolding initiate_bytes
length-initiate_bytes p h =
    omega (arith, length-append {0}, length-concat_map dev_id_bytes 8 p.device_ids (λ d. refl))

serialize_initiate-eq :
    (p : InitiateParams) → length p.id ≡ 16 → serialize_initiate p ≡ some (initiate_bytes p)
unfolding serialize_initiate initiate_bytes
serialize_initiate-eq p h =
    filled-Emits (40 + 8 * length p.device_ids) _ (initiate_bytes p)
      (search (Emits-seq, Emits-write, Emits-for_each, Emits-put_dev_id) depth 12)
      (sym (length-initiate_bytes p h))

Reads-initiate : (p : InitiateParams) → IsInitiate p → Reads initiate (initiate_bytes p) p
unfolding initiate initiate_bytes
Reads-initiate p h = Reads-bind _ _ _ _ _ _ (Reads-expect charcmd_initiate (omega arith)) (
    Reads-bind _ _ _ _ _ _ (Reads-bytes 16 p.id h.id_size) (
      Reads-bind _ _ _ _ _ _ (Reads-number 8 p.empty_limit (omega arith)) (
        Reads-bind _ _ (dev_id_bytes p.snap_store_device_id) _ _ _
          (Reads-dev_id p.snap_store_device_id h.device_size)
          (Reads-bind _ _ _ _ _ _ (Reads-number 4 p.count (omega arith)) (
            Reads-last _ _ _ _ (
              Reads-many dev_id dev_id_bytes DevIdFits p.count p.device_ids Reads-dev_id
                (sym h.counted) h.ids_size))))))

-- A message that asks for a new snap store is written without running over its buffer, takes 40
-- bytes and 8 for each device, and is read back with every field as it was.
pub serialize_initiate_round_trip :
    (p : InitiateParams)
    → IsInitiate p
    → (bs : List ℕ) × (serialize_initiate p ≡ some bs)
      × (length bs ≡ 40 + 8 * length p.device_ids)
      × (whole initiate bs ≡ some p)
serialize_initiate_round_trip p h = (
  initiate_bytes p,
  serialize_initiate-eq p h.id_size,
  length-initiate_bytes p h.id_size,
  whole-Reads initiate (initiate_bytes p) p (Reads-initiate p h),
)
