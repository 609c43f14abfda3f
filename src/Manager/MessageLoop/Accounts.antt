-- ===== src/Manager/MessageLoop/Accounts.antt =====
-- worker/manager/snapstores.go: how the database follows the files of a snap store.
use coriolis_snapshot_agent.Common.{
  ℕ, ◌≡◌, Bool, true, false, List, ◌∷◌, String, arith, ◌==◌, eq_iff,
}
use coriolis_snapshot_agent.Result.{ok}
use coriolis_snapshot_agent.Bolthold.{Bolthold, matching, has_key}
use coriolis_snapshot_agent.Bolthold.Laws.{
  matching-head, matching-replaced, has_key-matching, IsKeyed,
}
use coriolis_snapshot_agent.Db.Models.{SnapStore, SnapStoreFile}
use coriolis_snapshot_agent.Db.Connection.{Database}
use coriolis_snapshot_agent.Db.Stores.{get_snap_store}
use coriolis_snapshot_agent.Manager.{Texts}
use coriolis_snapshot_agent.Manager.MessageLoop.{file_of, grown, record_snap_store_file}

module _ ⦃bolt : Bolthold⦄ (texts : Texts) where
  open bolt use {
    Bucket, rows, faulty, inserted, updated, find_lem, find_one_lem, insert_lem, update_lem,
    updated_rows,
  }

  -- The store exists, its rows are stored under their own ids, the name of the file is free, and the
  -- buckets can be read, before and after the change.
  pub record IsRecordable (id path : String) (size : ℕ) (store : SnapStore) (d : Database)
      : Type 0 where
    pub more : List SnapStore
    pub found : matching (λ s. s.snap_store_id == id) (rows SnapStore d.snap_stores) ≡ store ∷ more
    pub keyed : IsKeyed (λ (s : SnapStore). s.snap_store_id) id (rows SnapStore d.snap_stores)
    pub free : has_key (texts.base path) (rows SnapStoreFile d.files) ≡ false
    pub files_readable : faulty SnapStoreFile d.files ≡ false
    pub stores_readable : faulty SnapStore d.snap_stores ≡ false
    pub still_readable :
        faulty SnapStore (updated SnapStore id (grown texts store size) d.snap_stores) ≡ false

  module _ (id path : String) (size : ℕ) (store : SnapStore) (d : Database)
      (h : IsRecordable id path size store d) where
    abbrev pub recorded : Database
    recorded = record d {
      files = inserted SnapStoreFile (texts.base path) (file_of texts store path size) d.files;
      snap_stores = updated SnapStore id (grown texts store size) d.snap_stores;
    }

    own : (store.snap_store_id == id) ≡ true
    own =
        matching-head (λ (s : SnapStore). s.snap_store_id == id) (rows SnapStore d.snap_stores)
          store h.more h.found

    same : store.snap_store_id ≡ id
    same = ground (arith, own, eq_iff store.snap_store_id id)

    stored : record_snap_store_file texts id path size d ≡ (ok tt, recorded)
    unfolding record_snap_store_file
    stored =
        let p : SnapStore → Bool = λ s. s.snap_store_id == id in
        ground (
          arith,
          same,
          find_one_lem SnapStore p d.snap_stores,
          h.stores_readable,
          h.found,
          insert_lem SnapStoreFile (texts.base path) (file_of texts store path size) d.files,
          h.files_readable,
          h.free,
          update_lem SnapStore id (grown texts store size) d.snap_stores,
          has_key-matching (λ (s : SnapStore). s.snap_store_id) id (rows SnapStore d.snap_stores)
              store h.more h.keyed h.found,
        )

    counted : get_snap_store id recorded ≡ (ok (grown texts store size), recorded)
    unfolding get_snap_store
    counted =
        let p : SnapStore → Bool = λ s. s.snap_store_id == id in
        ground (
          arith,
          find_one_lem SnapStore p (updated SnapStore id (grown texts store size) d.snap_stores),
          h.still_readable,
          h.found,
          updated_rows SnapStore id (grown texts store size) d.snap_stores,
          matching-replaced (λ (s : SnapStore). s.snap_store_id) id (grown texts store size)
              (rows SnapStore d.snap_stores) h.keyed own,
        )

  -- `RecordSnapStoreFileInDB` for a store that is there and a file whose name is free succeeds. It
  -- stores the file, and the store is then found with the size of the file added to its total.
  pub record_snap_store_file_counts :
      (id path : String) (size : ℕ) (store : SnapStore) (d : Database)
      (h : IsRecordable id path size store d)
      → (record_snap_store_file texts id path size d ≡ (ok tt, recorded id path size store d h))
        × (get_snap_store id (recorded id path size store d h)
            ≡ (ok (grown texts store size), recorded id path size store d h))
  record_snap_store_file_counts id path size store d h =
      (stored id path size store d h, counted id path size store d h)
