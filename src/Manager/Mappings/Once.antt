-- ===== src/Manager/Mappings/Once.antt =====
-- worker/manager/manager.go: a disk has one mapping at most.
use coriolis_snapshot_agent.Common.{◌≡◌, Bool, false, List, [], ◌∷◌, String, arith, ◌==◌}
use coriolis_snapshot_agent.Errors.{typed, conflict, is}
use coriolis_snapshot_agent.Result.{ok, err}
use coriolis_snapshot_agent.Bolthold.{Bolthold, matching, has_key}
use coriolis_snapshot_agent.Bolthold.Laws.{matching-inserted, matching-head}
use coriolis_snapshot_agent.Db.Models.{TrackedDisk, SnapStoreFilesLocation, SnapStoreMapping}
use coriolis_snapshot_agent.Db.Connection.{Database}
use coriolis_snapshot_agent.Manager.Mappings.{MappingRequest, add_mapping}

module _ ⦃bolt : Bolthold⦄ where
  open bolt use {Bucket, rows, faulty, inserted, find_one_lem, insert_lem}

  abbrev pub mapping : String → TrackedDisk → SnapStoreFilesLocation → SnapStoreMapping
  mapping id disk location = record { tracking_id = id; tracked_disk = disk; location = location }

  -- The disk and the location exist, the disk has no mapping yet, and the new id is free; the buckets
  -- can be read, before and after the new row.
  pub record IsMappable (id : String) (param : MappingRequest) (disk : TrackedDisk)
      (location : SnapStoreFilesLocation) (d : Database) : Type 0 where
    pub more_disks : List TrackedDisk
    pub more_locations : List SnapStoreFilesLocation
    pub disk_found :
        matching (λ t. t.tracking_id == param.tracked_disk) (rows TrackedDisk d.tracked_disks)
        ≡ disk ∷ more_disks
    pub location_found :
        matching
          (λ l. l.path == param.snap_store_location)
          (rows SnapStoreFilesLocation d.locations)
        ≡ location ∷ more_locations
    pub unmapped :
        matching
          (λ m. m.tracked_disk.tracking_id == param.tracked_disk)
          (rows SnapStoreMapping d.mappings)
        ≡ []
    pub free : has_key id (rows SnapStoreMapping d.mappings) ≡ false
    pub disks_readable : faulty TrackedDisk d.tracked_disks ≡ false
    pub locations_readable : faulty SnapStoreFilesLocation d.locations ≡ false
    pub mappings_readable : faulty SnapStoreMapping d.mappings ≡ false
    pub still_readable :
        faulty SnapStoreMapping (inserted SnapStoreMapping id (mapping id disk location) d.mappings)
        ≡ false

  module _ (id : String) (param : MappingRequest) (disk : TrackedDisk)
      (location : SnapStoreFilesLocation) (d : Database)
      (h : IsMappable id param disk location d) where
    abbrev pub mapped : Database
    mapped = record d {
      mappings = inserted SnapStoreMapping id (mapping id disk location) d.mappings;
    }

    added : add_mapping id param d ≡ (
      ok (record {
        id = id;
        tracked_disk_id = disk.tracking_id;
        storage_location_id = location.path;
      }),
      mapped,
    )
    unfolding add_mapping is
    added = ground (
      arith,
      find_one_lem TrackedDisk (λ t. t.tracking_id == param.tracked_disk) d.tracked_disks,
      h.disks_readable,
      h.disk_found,
      find_one_lem SnapStoreMapping (λ m. m.tracked_disk.tracking_id == param.tracked_disk)
          d.mappings,
      h.mappings_readable,
      h.unmapped,
      find_one_lem SnapStoreFilesLocation (λ l. l.path == param.snap_store_location) d.locations,
      h.locations_readable,
      h.location_found,
      insert_lem SnapStoreMapping id (mapping id disk location) d.mappings,
      h.free,
    )

    again :
        (other : String) (location' : String)
        → add_mapping other
            (record { snap_store_location = location'; tracked_disk = param.tracked_disk })
            mapped
          ≡ (err (typed conflict), mapped)
    unfolding add_mapping is
    again other location' =
        let p : SnapStoreMapping → Bool = λ m. m.tracked_disk.tracking_id == param.tracked_disk in
        let own =
          matching-head (λ (t : TrackedDisk). t.tracking_id == param.tracked_disk)
            (rows TrackedDisk d.tracked_disks) disk h.more_disks h.disk_found in
        ground (
          arith,
          find_one_lem TrackedDisk (λ t. t.tracking_id == param.tracked_disk) d.tracked_disks,
          h.disks_readable,
          h.disk_found,
          find_one_lem SnapStoreMapping p mapped.mappings,
          h.still_readable,
          matching-inserted p id (mapping id disk location) d.mappings h.unmapped own,
        )

  -- `CreateSnapStoreMapping` for a disk and a location that exist stores the mapping; every later
  -- call for the same disk, with any id and any location, is a conflict and changes nothing.
  pub add_mapping_once :
      (id other place : String) (param : MappingRequest) (disk : TrackedDisk)
      (location : SnapStoreFilesLocation) (d : Database) (h : IsMappable id param disk location d)
      → (add_mapping id param d ≡ (
        ok (record {
          id = id;
          tracked_disk_id = disk.tracking_id;
          storage_location_id = location.path;
        }),
        mapped id param disk location d h,
      ))
        × (add_mapping other
              (record { snap_store_location = place; tracked_disk = param.tracked_disk })
              (mapped id param disk location d h)
            ≡ (err (typed conflict), mapped id param disk location d h))
  add_mapping_once id other place param disk location d h =
      (added id param disk location d h, again id param disk location d h other place)
