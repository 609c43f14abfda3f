-- ===== src/Manager/Linked/Calls.antt =====
-- worker/manager/: the calls that store disks, locations, mappings and snap stores keep the links.
use coriolis_snapshot_agent.Common.{
  ℕ, ◌≡◌, inl, inr, Bool, List, [], ◌∷◌, String, ◌==◌, All, arith, Bool-cases,
}
use coriolis_snapshot_agent.Bolthold.{Bolthold, matching}
use coriolis_snapshot_agent.Bolthold.Calls.{inserts, deletes}
use coriolis_snapshot_agent.Bolthold.Present.{IsPresent-inserted, matching-IsPresent}
use coriolis_snapshot_agent.Db.Models.{
  TrackedDisk, SnapStoreFilesLocation, SnapStoreMapping, SnapStore,
}
use coriolis_snapshot_agent.Db.Connection.{Database}
use coriolis_snapshot_agent.Db.Disks.{create_tracked_disk, create_snap_store_file_location}
use coriolis_snapshot_agent.Db.Stores.{delete_snap_store}
use coriolis_snapshot_agent.Manager.{Texts}
use coriolis_snapshot_agent.Manager.Kept.{Keeps}
use coriolis_snapshot_agent.Manager.Closed.{IsClosed, IsNewStore, with_store}
use coriolis_snapshot_agent.Manager.Mappings.{MappingRequest, add_mapping}
use coriolis_snapshot_agent.Manager.MessageLoop.{grown, record_snap_store_file}
use coriolis_snapshot_agent.Manager.Tidy.Calls.{mapped, recorded}
use coriolis_snapshot_agent.Manager.Tidy.Rows.{All-insert, All-without, All-replaced}
use coriolis_snapshot_agent.Manager.Linked.{Linked, HasDisk, HasLocation}

All-map : {A : Type 0} (P Q : A → Type 0) (r : List A) → ((a : A) → P a → Q a) → All P r → All Q r
All-map P Q [] f h = tt
All-map P Q (a ∷ r) f (p, h) = (f a p, All-map P Q r f h)

-- What holds for every row holds for what a query finds first.
All-found :
    {V : Type 0} (Q : V → Type 0) (p : V → Bool) (r : List (String × V)) (v : V) (vs : List V)
    → matching p r ≡ v ∷ vs
    → All (λ (x : String × V). Q (x.1)) r
    → Q v
All-found Q p [] v vs e h = absurd (cc (e))
All-found Q p ((k, w) ∷ r) v vs e (q, h) = elim (Bool-cases (p w)) [
  | inl t ↦ let same : w ≡ v = ground (arith, t, e) in rw (← same) q
  | inr t ↦ All-found Q p r v vs (ground (arith, t, e)) h
]

module _ ⦃bolt : Bolthold⦄ where
  open bolt use {
    Bucket, rows, inserted, updated, deleted, inserted_rows, updated_rows, deleted_rows,
  }

  stays : (d d' : Database) → d' ≡ d → Linked d → Linked d'
  stays d d' e p = rw e p

  All-inserted :
      {V : Type 0} (Q : String × V → Type 0) (k : String) (v : V) (b : Bucket V)
      → Q (k, v)
      → All Q (rows V b)
      → All Q (rows V (inserted V k v b))
  All-inserted {V} Q k v b q h =
      let (l, r, e, f) = inserted_rows V k v b in rw f (All-insert Q (k, v) l r q (rw (← e) h))

  Linked-disk : (disk : TrackedDisk) → Keeps Linked (create_tracked_disk disk)
  unfolding create_tracked_disk Linked
  Linked-disk disk = record {
    step = λ d p. elim (inserts disk.tracking_id disk d.tracked_disks) [
      | inl (x, e) ↦ stays d ((create_tracked_disk disk d).1) (ground (arith, e)) p
      | inr (free, e) ↦
          let disks = inserted TrackedDisk disk.tracking_id disk d.tracked_disks in
          let still : (t : TrackedDisk) → HasDisk d.tracked_disks t → HasDisk disks t = λ t.
            IsPresent-inserted (λ (s : TrackedDisk). s.tracking_id == t.tracking_id)
              disk.tracking_id disk d.tracked_disks in
          stays (record d { tracked_disks = disks }) ((create_tracked_disk disk d).1)
            (ground (arith, e))
            (record {
              mapped_disks =
                  All-map _ _ (rows SnapStoreMapping d.mappings) (λ r. still r.1.tracked_disk)
                    p.mapped_disks;
              mapped_places = p.mapped_places;
              store_disks =
                  All-map _ _ (rows SnapStore d.snap_stores) (λ r. still r.1.tracked_disk)
                    p.store_disks;
              store_places = p.store_places;
            })
    ];
  }

  Linked-location : (l : SnapStoreFilesLocation) → Keeps Linked (create_snap_store_file_location l)
  unfolding create_snap_store_file_location Linked
  Linked-location l = record {
    step = λ d p. elim (inserts l.path l d.locations) [
      | inl (x, e) ↦ stays d ((create_snap_store_file_location l d).1) (ground (arith, e)) p
      | inr (free, e) ↦
          let places = inserted SnapStoreFilesLocation l.path l d.locations in
          let still : (m : SnapStoreFilesLocation)
              → HasLocation d.locations m
              → HasLocation places m =
            λ m.
              IsPresent-inserted (λ (f : SnapStoreFilesLocation). f.path == m.path) l.path l
                d.locations in
          stays (record d { locations = places }) ((create_snap_store_file_location l d).1)
            (ground (arith, e))
            (record {
              mapped_disks = p.mapped_disks;
              mapped_places =
                  All-map _ _ (rows SnapStoreMapping d.mappings) (λ r. still r.1.location)
                    p.mapped_places;
              store_disks = p.store_disks;
              store_places =
                  All-map _ _ (rows SnapStore d.snap_stores) (λ r. still r.1.storage_location)
                    p.store_places;
            })
    ];
  }

  Linked-mapping : (id : String) (param : MappingRequest) → Keeps Linked (add_mapping id param)
  unfolding Linked
  Linked-mapping id param = record {
    step = λ d p. elim (mapped id param d) [
      | inl e ↦ stays d ((add_mapping id param d).1) e p
      | inr (m, n, e, k, l) ↦
          stays (record d { mappings = inserted SnapStoreMapping id m d.mappings })
            ((add_mapping id param d).1) e
            (record {
              mapped_disks = All-inserted _ id m d.mappings k p.mapped_disks;
              mapped_places = All-inserted _ id m d.mappings l p.mapped_places;
              store_disks = p.store_disks;
              store_places = p.store_places;
            })
    ];
  }

  Linked-store :
      (store : SnapStore) (d : Database)
      → IsNewStore store d
      → Linked d
      → Linked (with_store store d)
  unfolding Linked
  Linked-store store d new p = record {
    mapped_disks = p.mapped_disks;
    mapped_places = p.mapped_places;
    store_disks =
        All-inserted _ store.snap_store_id store d.snap_stores
          (matching-IsPresent (λ (t : TrackedDisk). t.tracking_id == store.tracked_disk.tracking_id)
            (rows TrackedDisk d.tracked_disks) store.tracked_disk new.more new.disk_known)
          p.store_disks;
    store_places =
        All-inserted _ store.snap_store_id store d.snap_stores new.place_known p.store_places;
  }

  -- A store that is found keeps what it refers to when it grows.
  All-grown :
      (Q : SnapStore → Type 0) (texts : Texts) (store : SnapStore) (more : List SnapStore)
      (size : ℕ) (b : Bucket SnapStore)
      → matching (λ t. t.snap_store_id == store.snap_store_id) (rows SnapStore b) ≡ store ∷ more
      → (Q store → Q (grown texts store size))
      → All (λ (r : String × SnapStore). Q (r.1)) (rows SnapStore b)
      → All
          (λ (r : String × SnapStore). Q (r.1))
          (rows SnapStore (updated SnapStore store.snap_store_id (grown texts store size) b))
  All-grown Q texts store more size b e keeps h =
      rw (updated_rows SnapStore store.snap_store_id (grown texts store size) b) (
        All-replaced _ store.snap_store_id (grown texts store size) (rows SnapStore b)
          (keeps (
            All-found Q (λ s. s.snap_store_id == store.snap_store_id) (rows SnapStore b) store more
              e h))
          h)

  Linked-record :
      (texts : Texts) (id path : String) (size : ℕ)
      → Keeps Linked (record_snap_store_file texts id path size)
  unfolding Linked
  Linked-record texts id path size = record {
    step = λ d p. elim (recorded texts id path size d) [
      | inl (b, e) ↦
          stays (record d { files = b }) ((record_snap_store_file texts id path size d).1) e p
      | inr (b, store, more, h, e) ↦
          stays _ ((record_snap_store_file texts id path size d).1) e (record {
            mapped_disks = p.mapped_disks;
            mapped_places = p.mapped_places;
            store_disks =
                All-grown (λ (s : SnapStore). HasDisk d.tracked_disks s.tracked_disk) texts store
                  more size d.snap_stores h (λ q. q) p.store_disks;
            store_places =
                All-grown (λ (s : SnapStore). HasLocation d.locations s.storage_location) texts
                  store more size d.snap_stores h (λ q. q) p.store_places;
          })
    ];
  }

  Linked-delete : (id : String) → Keeps Linked (delete_snap_store id)
  unfolding delete_snap_store Linked
  Linked-delete id = record {
    step = λ d p. elim (deletes id d.snap_stores) [
      | inl (x, e) ↦ stays d ((delete_snap_store id d).1) (ground (arith, e)) p
      | inr e ↦
          stays (record d { snap_stores = deleted SnapStore id d.snap_stores })
            ((delete_snap_store id d).1) (ground (arith, e))
            (record {
              mapped_disks = p.mapped_disks;
              mapped_places = p.mapped_places;
              store_disks =
                  rw (deleted_rows SnapStore id d.snap_stores)
                    (All-without _ id (rows SnapStore d.snap_stores) p.store_disks);
              store_places =
                  rw (deleted_rows SnapStore id d.snap_stores)
                    (All-without _ id (rows SnapStore d.snap_stores) p.store_places);
            })
    ];
  }

  pub Linked-IsClosed : IsClosed Linked
  unfolding Linked
  Linked-IsClosed = record {
    files = λ b d p. p;
    images = λ b d p. p;
    volume_snapshots = λ b d p. p;
    snapshots = λ b d p. p;
    disk = Linked-disk;
    location = Linked-location;
    mapping = Linked-mapping;
    store = Linked-store;
    record_file = Linked-record;
    delete_store = Linked-delete;
  }
