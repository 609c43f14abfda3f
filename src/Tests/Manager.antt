-- ===== src/Tests/Manager.antt =====
-- Examples for the manager, on a bolthold in memory.
use coriolis_snapshot_agent.Common.{
  ℕ, ◌≡◌, refl, ◌⊎◌, not, ◌&&◌, false, true, [], ◌∷◌, some, any, select, ◌==◌, if◌then◌else◌,
  String, List,
}
use coriolis_snapshot_agent.Errors.{typed, conflict, plain, not_found}
use coriolis_snapshot_agent.Result.{ok, err}
use coriolis_snapshot_agent.Types.{ImageInfo, dev_eq}
use coriolis_snapshot_agent.Bolthold.Memory.{memory}
use coriolis_snapshot_agent.Db.Models.{
  TrackedDisk, SnapStoreFilesLocation, SnapStore, no_disk, no_location, no_store, VolumeSnapshot,
}
use coriolis_snapshot_agent.Db.Connection.{Database}
use coriolis_snapshot_agent.Db.Stores.{get_snap_store}
use coriolis_snapshot_agent.Manager.{Texts}
use coriolis_snapshot_agent.Manager.Mappings.{MappingRequest, add_mapping}
use coriolis_snapshot_agent.Manager.Mappings.Once.{IsMappable, mapped, add_mapping_once}
use coriolis_snapshot_agent.Manager.MessageLoop.{record_snap_store_file}
use coriolis_snapshot_agent.Manager.MessageLoop.Accounts.{
  IsRecordable, recorded, record_snap_store_file_counts,
}
use coriolis_snapshot_agent.Manager.Removal.{remove_snapshot}
use coriolis_snapshot_agent.Manager.State.{Agent, Kernel}
use coriolis_snapshot_agent.Manager.Removal.Order.{Removed, remove_snapshot_order}
use coriolis_snapshot_agent.Manager.Volumes.{new_image, find_volume_snapshot_for_disk}
use coriolis_snapshot_agent.Manager.Volumes.Found.{
  image_eq, known, new_image_is_new, IsFinal, of_disk, find_volume_snapshot_last,
}
use coriolis_snapshot_agent.Tests.Samples.{dev, stored, snapshot_of, sda_snapshot}

abbrev texts : Texts
texts = record {
  uuid_string = λ id. "id";
  uuid_parse = λ s. ok [];
  format_uint = λ n. "1";
  parse_uint = λ s. if s == "1" then ok 1 else err plain;
  base = λ p. p;
}

abbrev willing : Kernel
willing = record {
  on_add = λ calls d. ok tt;
  on_add_file = λ calls id path. ok tt;
  on_create = λ calls devices. ok 1;
  on_delete = λ calls n. ok tt;
  on_cleanup = λ calls id. ok (some 0);
}

abbrev agent : Agent ⦃bolt = memory⦄
agent = record { db = stored; calls = []; watchers = []; disk_ops = [] }

remove_snapshot_order_example :
    ((remove_snapshot ⦃bolt = memory⦄ texts willing "1" agent).1 ≡ agent)
    ⊎ Removed ⦃bolt = memory⦄ texts willing "1" agent
        ((remove_snapshot ⦃bolt = memory⦄ texts willing "1" agent).1)
remove_snapshot_order_example = remove_snapshot_order ⦃bolt = memory⦄ texts willing "1" agent

abbrev sda_disk : TrackedDisk
sda_disk = record no_disk { tracking_id = "sda" }

abbrev cow : SnapStoreFilesLocation
cow = record no_location { path = "/cow" }

abbrev sda_store : SnapStore
sda_store = record no_store { snap_store_id = "s"; total_allocated_size = 10 }

abbrev configured : Database ⦃bolt = memory⦄
configured = record stored {
  tracked_disks = ("sda", sda_disk) ∷ [];
  locations = ("/cow", cow) ∷ [];
  snap_stores = ("s", sda_store) ∷ [];
}

abbrev request : MappingRequest
request = record { snap_store_location = "/cow"; tracked_disk = "sda" }

sda_mappable : IsMappable ⦃bolt = memory⦄ "m" request sda_disk cow configured
sda_mappable = record {
  more_disks = [];
  more_locations = [];
  disk_found = refl;
  location_found = refl;
  unmapped = refl;
  free = refl;
  disks_readable = refl;
  locations_readable = refl;
  mappings_readable = refl;
  still_readable = refl;
}

add_mapping_once_example :
    let after = mapped ⦃bolt = memory⦄ "m" request sda_disk cow configured sda_mappable in
    (add_mapping ⦃bolt = memory⦄ "m" request configured
      ≡ (ok (record { id = "m"; tracked_disk_id = "sda"; storage_location_id = "/cow" }), after))
    × (add_mapping ⦃bolt = memory⦄ "n"
          (record { snap_store_location = "/other"; tracked_disk = "sda" })
          after
        ≡ (err (typed conflict), after))
add_mapping_once_example =
    add_mapping_once ⦃bolt = memory⦄ "m" "n" "/other" request sda_disk cow configured sda_mappable

sda_recordable : IsRecordable ⦃bolt = memory⦄ texts "s" "/cow/f" 32 sda_store configured
sda_recordable = record {
  more = [];
  found = refl;
  keyed = (refl, tt);
  free = refl;
  files_readable = refl;
  stores_readable = refl;
  still_readable = refl;
}

record_snap_store_file_counts_example :
    let after =
      recorded ⦃bolt = memory⦄ texts "s" "/cow/f" 32 sda_store configured sda_recordable in
    (record_snap_store_file ⦃bolt = memory⦄ texts "s" "/cow/f" 32 configured ≡ (ok tt, after))
    × (get_snap_store ⦃bolt = memory⦄ "s" after
        ≡ (ok (record sda_store { total_allocated_size = 42 }), after))
record_snap_store_file_counts_example =
    record_snap_store_file_counts ⦃bolt = memory⦄ texts "s" "/cow/f" 32 sda_store configured
      sda_recordable

abbrev image : ℕ → ImageInfo
image minor = record { original_dev_id = dev 0; snapshot_dev_id = dev minor }

found_image : new_image (dev 0) (image 1 ∷ []) (image 1 ∷ image 2 ∷ []) ≡ ok (image 2)
unfolding new_image
found_image = refl

new_image_is_new_example :
    (dev 0 ≡ dev 0)
    × (known (dev 0) (image 1 ∷ []) (image 2) ≡ false)
    × (any (image_eq (image 2)) (image 1 ∷ image 2 ∷ []) ≡ true)
    × (select
          (λ j. dev_eq j.original_dev_id (dev 0) && not (known (dev 0) (image 1 ∷ []) j))
          (image 1 ∷ image 2 ∷ [])
        ≡ image 2 ∷ [])
new_image_is_new_example =
    new_image_is_new (dev 0) (image 1 ∷ []) (image 1 ∷ image 2 ∷ []) (image 2) found_image

-- Two volumes of one disk.
abbrev volume_of_sda : String → VolumeSnapshot
volume_of_sda id = record sda_snapshot {
  tracking_id = id;
  original_device = record no_disk { tracking_id = "sda" };
}

abbrev two_volumes : List VolumeSnapshot
two_volumes = volume_of_sda "v1" ∷ volume_of_sda "v2" ∷ sda_snapshot ∷ []

abbrev twice : Database ⦃bolt = memory⦄
twice = record stored { snapshots = ("1", snapshot_of "1" two_volumes) ∷ [] }

finds_last :
    find_volume_snapshot_for_disk ⦃bolt = memory⦄ "1" "sda" twice ≡ (ok (volume_of_sda "v2"), twice)
unfolding find_volume_snapshot_for_disk
finds_last = refl

find_volume_snapshot_last_example :
    ((v : VolumeSnapshot) × IsFinal "sda" two_volumes v
      × (("sda" == "") ≡ false)
      × (find_volume_snapshot_for_disk ⦃bolt = memory⦄ "1" "sda" twice ≡ (ok v, twice)))
    ⊎ (((("sda" == "") ≡ true) ⊎ (any (of_disk "sda") two_volumes ≡ false))
        × (find_volume_snapshot_for_disk ⦃bolt = memory⦄ "1" "sda" twice
            ≡ (err (typed not_found), twice)))
find_volume_snapshot_last_example =
    find_volume_snapshot_last ⦃bolt = memory⦄ "1" "sda" (snapshot_of "1" two_volumes) [] twice refl
      refl
