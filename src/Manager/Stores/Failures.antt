-- ===== src/Manager/Stores/Failures.antt =====
-- worker/manager/snapstores.go: what a `CreateSnapStore` that fails leaves behind.
use coriolis_snapshot_agent.Common.{
  ℕ, ◌≡◌, refl, ◌∙◌, Bool, true, false, List, [], ◌∷◌, ◌++◌, String, ◌==◌, arith,
}
use coriolis_snapshot_agent.Errors.{Error, typed, conflict, fs_not_exist, this, is, wrap}
use coriolis_snapshot_agent.Result.{ok, err}
use coriolis_snapshot_agent.Bolthold.{Bolthold, matching, has_key}
use coriolis_snapshot_agent.Bolthold.Laws.{matching-inserted, matching-head, deleted-inserted}
use coriolis_snapshot_agent.Config.{Config}
use coriolis_snapshot_agent.Watcher.Start.{new_watcher}
use coriolis_snapshot_agent.Db.Connection.{Database}
use coriolis_snapshot_agent.Db.Stores.{delete_snap_store}
use coriolis_snapshot_agent.Db.Models.{
  TrackedDisk, SnapStoreFilesLocation, SnapStoreMapping, SnapStore,
}
use coriolis_snapshot_agent.Manager.{Texts}
use coriolis_snapshot_agent.Manager.State.{Agent, DiskOp, made_dir, removed_tree}
use coriolis_snapshot_agent.Manager.Host.{Host}
use coriolis_snapshot_agent.Manager.Stores.{
  store_path, store_row, watcher_params, store_with_row, make_snap_store,
}

module _ ⦃bolt : Bolthold⦄ (host : Host) (config : Config) (texts : Texts) where
  open bolt use {Bucket, rows, faulty, inserted, find_one_lem, insert_lem, deleted, delete_lem}

  abbrev pub row : List ℕ → TrackedDisk → SnapStoreFilesLocation → SnapStore
  row = store_row host config texts

  -- The disk has a row, a mapping to a location that exists and no store, and the new id is free; the
  -- buckets can be read, before and after the new row.
  pub record IsStorable (id : List ℕ) (disk_id : String) (disk : TrackedDisk)
      (location : SnapStoreFilesLocation) (s : Agent) : Type 0 where
    pub mapping : SnapStoreMapping
    pub more_mappings : List SnapStoreMapping
    pub more_locations : List SnapStoreFilesLocation
    pub more_disks : List TrackedDisk
    pub mapping_found :
        matching (λ m. m.tracked_disk.tracking_id == disk_id) (rows SnapStoreMapping s.db.mappings)
        ≡ mapping ∷ more_mappings
    pub location_found :
        matching (λ l. l.path == mapping.location.path) (rows SnapStoreFilesLocation s.db.locations)
        ≡ location ∷ more_locations
    pub disk_found :
        matching (λ t. t.tracking_id == disk_id) (rows TrackedDisk s.db.tracked_disks)
        ≡ disk ∷ more_disks
    pub none_yet :
        matching (λ v. v.tracked_disk.tracking_id == disk_id) (rows SnapStore s.db.snap_stores) ≡ []
    pub free : has_key (texts.uuid_string id) (rows SnapStore s.db.snap_stores) ≡ false
    pub mappings_readable : faulty SnapStoreMapping s.db.mappings ≡ false
    pub locations_readable : faulty SnapStoreFilesLocation s.db.locations ≡ false
    pub disks_readable : faulty TrackedDisk s.db.tracked_disks ≡ false
    pub stores_readable : faulty SnapStore s.db.snap_stores ≡ false
    pub still_readable :
        faulty SnapStore
          (inserted SnapStore (texts.uuid_string id) (row id disk location) s.db.snap_stores)
        ≡ false

  module _ (id : List ℕ) (disk_id : String) (disk : TrackedDisk) (location : SnapStoreFilesLocation)
      (s : Agent) (h : IsStorable id disk_id disk location s) where
    abbrev pub stored : Agent
    stored = record s {
      db = record s.db {
        snap_stores =
            inserted SnapStore (texts.uuid_string id) (row id disk location) s.db.snap_stores;
      };
    }

    -- The row is stored, and then the folder and the watcher are made.
    pub with_new_row :
        make_snap_store host config texts id disk_id s
        ≡ store_with_row host config texts id (row id disk location) stored
    unfolding make_snap_store is
    with_new_row = ground (
      arith,
      find_one_lem SnapStore (λ v. v.tracked_disk.tracking_id == disk_id) s.db.snap_stores,
      h.stores_readable,
      h.none_yet,
      find_one_lem SnapStoreMapping (λ m. m.tracked_disk.tracking_id == disk_id) s.db.mappings,
      h.mappings_readable,
      h.mapping_found,
      find_one_lem SnapStoreFilesLocation (λ l. l.path == h.mapping.location.path) s.db.locations,
      h.locations_readable,
      h.location_found,
      find_one_lem TrackedDisk (λ t. t.tracking_id == disk_id) s.db.tracked_disks,
      h.disks_readable,
      h.disk_found,
      insert_lem SnapStore (texts.uuid_string id) (row id disk location) s.db.snap_stores,
      h.free,
    )

    -- A store of the disk is in the database, so that no other is made.
    taken :
        (other : List ℕ) (t : Agent)
        → t.db ≡ stored.db
        → make_snap_store host config texts other disk_id t ≡ (err (typed conflict), t)
    unfolding make_snap_store is
    taken other t e =
        let p : SnapStore → Bool = λ v. v.tracked_disk.tracking_id == disk_id in
        let own =
          matching-head (λ (x : TrackedDisk). x.tracking_id == disk_id)
            (rows TrackedDisk s.db.tracked_disks) disk h.more_disks h.disk_found in
        ground (
          arith,
          e,
          find_one_lem SnapStore p stored.db.snap_stores,
          h.still_readable,
          matching-inserted p (texts.uuid_string id) (row id disk location) s.db.snap_stores
              h.none_yet own,
        )

  -- The folder of a new store is named, and is not there yet after these changes of the disk.
  pub record IsUnmade (store : SnapStore) (ops : List DiskOp) : Type 0 where
    pub named : (store_path host store == "") ≡ false
    pub stat_error : Error
    pub missing : (host.outside ops).stat (store_path host store) ≡ err stat_error
    pub missing_kind : is stat_error (this fs_not_exist) ≡ true

  unmade_fails :
      (id : List ℕ) (store : SnapStore) (s : Agent) (x : Error)
      → IsUnmade store s.disk_ops
      → (host.outside s.disk_ops).mkdir_all (store_path host store) ≡ err x
      → store_with_row host config texts id store s ≡ (
        err (wrap x),
        record s { disk_ops = s.disk_ops ++ made_dir (store_path host store) ∷ [] },
      )
  unfolding store_with_row
  unmade_fails id store s x u m = ground (arith, u.named, u.missing, u.missing_kind, m)

  -- When the folder of a new snap store cannot be made, `CreateSnapStore` fails but leaves its row in
  -- the database: the disk has a snap store without a folder and without a watcher, and every later
  -- call for it, with whatever id, is a conflict that changes nothing.
  pub make_snap_store_leaks :
      (id other : List ℕ) (disk_id : String) (disk : TrackedDisk)
      (location : SnapStoreFilesLocation) (s : Agent) (x : Error)
      → IsStorable id disk_id disk location s
      → IsUnmade (row id disk location) s.disk_ops
      → (host.outside s.disk_ops).mkdir_all (store_path host (row id disk location)) ≡ err x
      → let (r, t) = make_snap_store host config texts id disk_id s in
        (r ≡ err (wrap x))
        × (t.watchers ≡ s.watchers)
        × (make_snap_store host config texts other disk_id t ≡ (err (typed conflict), t))
  make_snap_store_leaks id other disk_id disk location s x h u m =
      let made =
        with_new_row id disk_id disk location s h
        ∙ unmade_fails id (row id disk location) (stored id disk_id disk location s h) x u m in
      let t = record (stored id disk_id disk location s h) {
        disk_ops = s.disk_ops ++ made_dir (store_path host (row id disk location)) ∷ [];
      } in
      rw made (refl, refl, taken id disk_id disk location s h other t refl)

  unwatched_cleans :
      (id : List ℕ) (store : SnapStore) (s : Agent) (x : Error)
      → IsUnmade store s.disk_ops
      → (host.outside s.disk_ops).mkdir_all (store_path host store) ≡ ok tt
      → new_watcher host.open_device
          (host.outside (s.disk_ops ++ made_dir (store_path host store) ∷ []))
          (watcher_params host config texts id store)
        ≡ err x
      → store_with_row host config texts id store s ≡ (
        err (wrap x),
        record s {
          db = (delete_snap_store store.snap_store_id s.db).1;
          disk_ops =
              s.disk_ops
              ++ made_dir (store_path host store) ∷ []
              ++ removed_tree (store_path host store) ∷ [];
        },
      )
  unfolding store_with_row
  unwatched_cleans id store s x u m w = ground (arith, u.named, u.missing, u.missing_kind, m, w)

  deletes :
      (k : String) (d : Database)
      → faulty SnapStore d.snap_stores ≡ false
      → has_key k (rows SnapStore d.snap_stores) ≡ true
      → (delete_snap_store k d).1 ≡ record d { snap_stores = deleted SnapStore k d.snap_stores }
  unfolding delete_snap_store
  deletes k d f h = ground (arith, f, h, delete_lem SnapStore k d.snap_stores)

  -- When the folder of a new snap store was made and its watcher fails to start, `CreateSnapStore`
  -- fails and undoes what it did: the snap stores of the database have the rows they had before, the
  -- folder is removed again, and no watcher is recorded.
  pub make_snap_store_cleans :
      (id : List ℕ) (disk_id : String) (disk : TrackedDisk) (location : SnapStoreFilesLocation)
      (s : Agent) (x : Error)
      → IsStorable id disk_id disk location s
      → IsUnmade (row id disk location) s.disk_ops
      → (host.outside s.disk_ops).mkdir_all (store_path host (row id disk location)) ≡ ok tt
      → new_watcher host.open_device
          (host.outside (s.disk_ops ++ made_dir (store_path host (row id disk location)) ∷ []))
          (watcher_params host config texts id (row id disk location))
        ≡ err x
      → let (r, t) = make_snap_store host config texts id disk_id s in
        (r ≡ err (wrap x))
        × (rows SnapStore t.db.snap_stores ≡ rows SnapStore s.db.snap_stores)
        × (t.watchers ≡ s.watchers)
        × (t.disk_ops
            ≡ s.disk_ops
              ++ made_dir (store_path host (row id disk location)) ∷ []
              ++ removed_tree (store_path host (row id disk location)) ∷ [])
  make_snap_store_cleans id disk_id disk location s x h u m w =
      let (held, back) =
        deleted-inserted (texts.uuid_string id) (row id disk location) s.db.snap_stores h.free in
      let made =
        with_new_row id disk_id disk location s h
        ∙ unwatched_cleans id (row id disk location) (stored id disk_id disk location s h) x u m
            w in
      let gone =
        deletes (texts.uuid_string id) (stored id disk_id disk location s h).db h.still_readable
          held in
      rw made (refl, (rw gone back), refl, refl)
