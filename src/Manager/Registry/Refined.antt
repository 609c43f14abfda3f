-- ===== src/Manager/Registry/Refined.antt =====
-- worker/manager/: every call that changes the database changes its registry by the rules, or leaves
-- it as it is.
use coriolis_snapshot_agent.Common.{
  ℕ, ◌≡◌, refl, sym, ap, ◌∙◌, inl, inr, List, map, String, Option, some, arith,
}
use coriolis_snapshot_agent.Bolthold.{Bolthold}
use coriolis_snapshot_agent.Bolthold.Calls.{deletes}
use coriolis_snapshot_agent.Db.Models.{
  TrackedDisk, SnapStoreFilesLocation, SnapStoreMapping, SnapStore,
}
use coriolis_snapshot_agent.Db.Connection.{Database, disks_table, locations_table}
use coriolis_snapshot_agent.Db.Disks.{create_tracked_disk, create_snap_store_file_location}
use coriolis_snapshot_agent.Db.Stores.{delete_snap_store}
use coriolis_snapshot_agent.Manager.{Texts}
use coriolis_snapshot_agent.Manager.Kept.{Keeps}
use coriolis_snapshot_agent.Manager.Kept.Reads.{Keeps-created}
use coriolis_snapshot_agent.Manager.Mappings.{MappingRequest, add_mapping}
use coriolis_snapshot_agent.Manager.MessageLoop.{grown, record_snap_store_file}
use coriolis_snapshot_agent.Manager.Closed.{IsClosed, IsNewStore, with_store}
use coriolis_snapshot_agent.Manager.Tidy.{Tidy}
use coriolis_snapshot_agent.Manager.Tidy.Rows.{stored-IsTidy}
use coriolis_snapshot_agent.Manager.Tidy.Calls.{
  mapped, recorded, Tidy-add_mapping, Tidy-record_snap_store_file, Tidy-delete_snap_store,
}
use coriolis_snapshot_agent.Manager.Registry.{
  Held, Registry, map_disk, add_store, drop_store, Changes, further,
}
use coriolis_snapshot_agent.Manager.Registry.Abstraction.{
  first, held, registry_of, mapping_in, store_in, mapping_in-inserted, store_in-inserted,
  store_in-updated, store_in-deleted,
}

module _ ⦃bolt : Bolthold⦄ where
  open bolt use {Bucket, rows, inserted, updated, deleted}

  -- The database is in order, and its registry comes from that of `o` by the rules.
  unfoldable pub Follows : Registry → Database → Type 0
  Follows o d = Tidy d × Changes o (registry_of d)

  abbrev place : List SnapStoreMapping → Option String
  place ms = first (map (λ (m : SnapStoreMapping). m.location.path) ms)

  abbrev with_stores : Bucket SnapStoreMapping → (String → Option Held) → Registry
  with_stores b f = record { mapping_of = mapping_in b; store_of = f }

  module _ (o : Registry) where
    stays :
        (d d' : Database)
        → registry_of d' ≡ registry_of d
        → Changes o (registry_of d)
        → Changes o (registry_of d')
    stays d d' e c = rw e c

    Follows-disk : (disk : TrackedDisk) → Keeps (Follows o) (create_tracked_disk disk)
    unfolding create_tracked_disk Follows registry_of Tidy
    Follows-disk disk = Keeps-created (Follows o) disks_table _ disk (λ b d p. p)

    Follows-location :
        (l : SnapStoreFilesLocation) → Keeps (Follows o) (create_snap_store_file_location l)
    unfolding create_snap_store_file_location Follows registry_of Tidy
    Follows-location l = Keeps-created (Follows o) locations_table _ l (λ b d p. p)

    Follows-mapping :
        (id : String) (param : MappingRequest) → Keeps (Follows o) (add_mapping id param)
    unfolding Follows registry_of
    Follows-mapping id param = record {
      step = λ d (p, c). (
        (Tidy-add_mapping id param).step d p,
        elim (mapped id param d) [
          | inl e ↦ stays d ((add_mapping id param d).1) (ap registry_of e) c
          | inr (m, n, e, k, l) ↦ further c (
              map_disk m.tracked_disk.tracking_id m.location.path (ap place n) (
                ap registry_of e
                ∙ ap (λ f. record { mapping_of = f; store_of = store_in d.snap_stores })
                    (mapping_in-inserted id m d.mappings n)))
        ],
      );
    }

    Follows-store :
        (store : SnapStore) (d : Database)
        → IsNewStore store d
        → Follows o d
        → Follows o (with_store store d)
    unfolding Follows registry_of Tidy
    Follows-store store d new (p, c) = (
      stored-IsTidy d.mappings d.snap_stores store new.unstored new.free p,
      further c (
          add_store store.tracked_disk.tracking_id store.snap_store_id store.storage_location.path
            (ap place new.disk_mapped ∙ ap some (sym new.placed))
            (ap (λ (ss : List SnapStore). first (map held ss)) new.unstored)
            (ap (with_stores d.mappings) (store_in-inserted store d.snap_stores new.unstored))),
    )

    Follows-record :
        (texts : Texts) (id path : String) (size : ℕ)
        → Keeps (Follows o) (record_snap_store_file texts id path size)
    unfolding Follows registry_of Tidy
    Follows-record texts id path size = record {
      step = λ d (p, c). (
        (Tidy-record_snap_store_file texts id path size).step d p,
        elim (recorded texts id path size d) [
          | inl (b, e) ↦
              stays d ((record_snap_store_file texts id path size d).1) (ap registry_of e) c
          | inr (b, store, more, h, e) ↦
              stays d ((record_snap_store_file texts id path size d).1)
                (ap registry_of e
                  ∙ ap (with_stores d.mappings) (
                      store_in-updated d.mappings d.snap_stores p store (grown texts store size)
                        more h refl refl))
                c
        ],
      );
    }

    Follows-delete : (id : String) → Keeps (Follows o) (delete_snap_store id)
    unfolding Follows registry_of Tidy delete_snap_store
    Follows-delete id = record {
      step = λ d (p, c). (
        (Tidy-delete_snap_store id).step d p,
        elim (deletes id d.snap_stores) [
          | inl (x, e) ↦
              let same : (delete_snap_store id d).1 ≡ d = ground (arith, e) in
              stays d ((delete_snap_store id d).1) (ap registry_of same) c
          | inr e ↦
              let gone : (delete_snap_store id d).1
                  ≡ record d { snap_stores = deleted SnapStore id d.snap_stores } =
                ground (arith, e) in
              further c (
                drop_store id (
                  ap registry_of gone
                  ∙ ap (with_stores d.mappings) (store_in-deleted d.mappings d.snap_stores p id)))
        ],
      );
    }

    pub Follows-IsClosed : IsClosed (Follows o)
    unfolding Follows registry_of Tidy
    Follows-IsClosed = record {
      files = λ b d p. p;
      images = λ b d p. p;
      volume_snapshots = λ b d p. p;
      snapshots = λ b d p. p;
      disk = Follows-disk;
      location = Follows-location;
      mapping = Follows-mapping;
      store = Follows-store;
      record_file = Follows-record;
      delete_store = Follows-delete;
    }
