-- ===== src/Tests/Increments.antt =====
-- Examples for the increments, for the messages to the device and for the errors.
use coriolis_snapshot_agent.Common.{
  ℕ, ◌≡◌, refl, ◌↔◌, true, false, List, [], ◌∷◌, some, arith, length,
}
use coriolis_snapshot_agent.Errors.{typed, conflict, not_found, any_of, is, cause}
use coriolis_snapshot_agent.Errors.Matching.{wraps, is_own_type}
use coriolis_snapshot_agent.Increments.{changed, fetch_increments}
use coriolis_snapshot_agent.Increments.Coverage.{covered, changed_block, covered-fetch_increments}
use coriolis_snapshot_agent.Increments.Full.{fetch_increments_full}
use coriolis_snapshot_agent.Wire.{
  InitiateParams, NextPortionParams, MultidevParams, serialize_initiate, serialize_next_portion,
}
use coriolis_snapshot_agent.Wire.Format.{whole, initiate, next_portion}
use coriolis_snapshot_agent.Wire.Initiate.{serialize_initiate_round_trip}
use coriolis_snapshot_agent.Wire.NextPortion.{serialize_next_portion_round_trip}
use coriolis_snapshot_agent.Db.Models.{VolumeSnapshot}
use coriolis_snapshot_agent.Manager.Changes.{
  full, incremental, changes_of, changes_of_full, changes_of_incremental,
}
use coriolis_snapshot_agent.Tests.Samples.{sda_snapshot, dev, store_id, two_ranges}

-- Blocks 0, 2 and 3 changed between snapshots 1 and 2.
abbrev changes : List ℕ
changes = 2 ∷ 1 ∷ 2 ∷ 2 ∷ []

fetched : fetch_increments changes 1 2 100 ≡ record { start_offset = 200; length = 200 } ∷ []
unfolding fetch_increments
fetched = refl

covered-fetch_increments_example : covered 100 (fetch_increments changes 1 2 100) 0 ≡ false
unfolding changed
covered-fetch_increments_example =
    covered-fetch_increments changes 1 2 100 0 (omega arith) (omega arith) (omega arith)

fetch_increments_full_example :
    fetch_increments changes 0 2 100 ≡ record { start_offset = 0; length = 400 } ∷ []
fetch_increments_full_example = fetch_increments_full changes 2 100 (omega arith)

abbrev new_store : InitiateParams
new_store = record {
  id = store_id;
  empty_limit = 2000;
  snap_store_device_id = dev 16;
  count = 1;
  device_ids = dev 0 ∷ [];
}

serialize_initiate_round_trip_example :
    (bs : List ℕ) × (serialize_initiate new_store ≡ some bs)
    × (length bs ≡ 48)
    × (whole initiate bs ≡ some new_store)
serialize_initiate_round_trip_example = serialize_initiate_round_trip new_store (record {
  id_size = refl;
  limit_size = omega arith;
  device_size = (omega arith, omega arith);
  counted = refl;
  count_size = omega arith;
  ids_size = ((omega arith, omega arith), tt);
})

abbrev two_portions : NextPortionParams
two_portions = record { id = store_id; count = 2; ranges = two_ranges }

serialize_next_portion_round_trip_example :
    (bs : List ℕ) × (serialize_next_portion two_portions ≡ some bs)
    × (length bs ≡ 56)
    × (whole next_portion bs ≡ some two_portions)
serialize_next_portion_round_trip_example = serialize_next_portion_round_trip two_portions (record {
  id_size = refl;
  counted = refl;
  count_size = omega arith;
  ranges_size = ((omega arith, omega arith), ((omega arith, omega arith), tt));
})

abbrev on_two_devices : MultidevParams
on_two_devices = record {
  id = store_id;
  snap_store_device_id = dev 16;
  count = 2;
  ranges = two_ranges;
}

is_own_type_example :
    ((is (wraps 2 (typed conflict)) (any_of not_found) ≡ true) ↔ (conflict ≡ not_found))
    × (cause (wraps 2 (typed conflict)) ≡ typed conflict)
is_own_type_example = is_own_type 2 conflict not_found (λ e. absurd (cc (e)))

abbrev changed_volume : VolumeSnapshot
changed_volume = record sda_snapshot { bitmap = changes; snapshot_number = 2 }

changes_of_full_example :
    let r = changes_of "1" "sda" "other" 1 100 changed_volume in
    (r.backup_type ≡ full) × (r.ranges ≡ record { start_offset = 0; length = 400 } ∷ [])
changes_of_full_example = changes_of_full "1" "sda" "other" 1 100 changed_volume refl (omega arith)

changes_of_incremental_example :
    let r = changes_of "1" "sda" "g" 1 100 changed_volume in
    (r.backup_type ≡ incremental) × (covered 100 r.ranges 2 ≡ changed_block 1 2 changes 2)
changes_of_incremental_example =
    changes_of_incremental "1" "sda" "g" 1 100 changed_volume 2 refl (omega arith) (omega arith)
      (omega arith)
