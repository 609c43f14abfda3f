-- ===== src/Manager/Tidy/Calls.antt =====
-- worker/manager/: the calls by which mappings and snap stores come, change and go.
use coriolis_snapshot_agent.Common.{
  ℕ, ◌≡◌, refl, ap, ◌∙◌, ◌⊎◌, inl, inr, Bool, List, [], ◌∷◌, String, ◌==◌, arith, eq_iff,
}
use coriolis_snapshot_agent.Errors.{is}
use coriolis_snapshot_agent.Bolthold.{Bolthold, matching}
use coriolis_snapshot_agent.Bolthold.Unique.{IsUnique}
use coriolis_snapshot_agent.Bolthold.Laws.{matching-head}
use coriolis_snapshot_agent.Bolthold.Calls.{
  broken, missing, found, finds, inserts, updates, deletes,
}
use coriolis_snapshot_agent.Bolthold.Present.{IsPresent, matching-IsPresent}
use coriolis_snapshot_agent.Db.Models.{
  TrackedDisk, SnapStoreFilesLocation, SnapStoreMapping, SnapStore, SnapStoreFile,
}
use coriolis_snapshot_agent.Db.Connection.{Database, disks_table, locations_table}
use coriolis_snapshot_agent.Db.Disks.{create_tracked_disk, create_snap_store_file_location}
use coriolis_snapshot_agent.Db.Stores.{delete_snap_store}
use coriolis_snapshot_agent.Manager.{Texts}
use coriolis_snapshot_agent.Manager.Kept.{Keeps}
use coriolis_snapshot_agent.Manager.Kept.Reads.{Keeps-created}
use coriolis_snapshot_agent.Manager.Closed.{IsClosed}
use coriolis_snapshot_agent.Manager.Mappings.{MappingRequest, add_mapping}
use coriolis_snapshot_agent.Manager.MessageLoop.{file_of, grown, record_snap_store_file}
use coriolis_snapshot_agent.Manager.Tidy.{Tidy}
use coriolis_snapshot_agent.Manager.Tidy.Rows.{
  mapped-IsTidy, stored-IsTidy, updated-IsTidy, deleted-IsTidy,
}

module _ ⦃bolt : Bolthold⦄ where
  open bolt use {rows, inserted, updated, deleted}

  Tidy-stays : (d d' : Database) → d' ≡ d → Tidy d → Tidy d'
  Tidy-stays d d' e p = rw e p

  module _ (id : String) (param : MappingRequest) where
    pub mapped :
        (d : Database)
        → (((add_mapping id param d).1) ≡ d)
          ⊎ ((m : SnapStoreMapping) × (matching
                  (λ n. n.tracked_disk.tracking_id == m.tracked_disk.tracking_id)
                  (rows SnapStoreMapping d.mappings)
                ≡ [])
              × (((add_mapping id param d).1)
                  ≡ record d { mappings = inserted SnapStoreMapping id m d.mappings })
              × IsPresent
                  (λ t. t.tracking_id == m.tracked_disk.tracking_id)
                  (rows TrackedDisk d.tracked_disks)
              × IsPresent
                  (λ f. f.path == m.location.path)
                  (rows SnapStoreFilesLocation d.locations))
    unfolding add_mapping is
    mapped d =
        let p : TrackedDisk → Bool = λ t. t.tracking_id == param.tracked_disk in
        let q : SnapStoreMapping → Bool = λ m. m.tracked_disk.tracking_id == param.tracked_disk in
        let r : SnapStoreFilesLocation → Bool = λ l. l.path == param.snap_store_location in
        elim (finds p d.tracked_disks) [
          | broken e ↦ inl (ground (arith, e))
          | missing n e ↦ inl (ground (arith, e))
          | found disk more h e ↦ elim (finds q d.mappings) [
            | broken f ↦ inl (ground (arith, e, f))
            | found m ms n f ↦ inl (ground (arith, e, f))
            | missing n f ↦ elim (finds r d.locations) [
              | broken g ↦ inl (ground (arith, e, f, g))
              | missing k g ↦ inl (ground (arith, e, f, g))
              | found l ls k g ↦
                  let m : SnapStoreMapping = record {
                    tracking_id = id;
                    tracked_disk = disk;
                    location = l;
                  } in
                  elim (inserts id m d.mappings) [
                    | inl (x, i) ↦ inl (ground (arith, e, f, g, i))
                    | inr (free, i) ↦
                        let own = matching-head p (rows TrackedDisk d.tracked_disks) disk more h in
                        let same : disk.tracking_id ≡ param.tracked_disk =
                          ground (arith, own, eq_iff disk.tracking_id param.tracked_disk) in
                        let place =
                          matching-head r (rows SnapStoreFilesLocation d.locations) l ls k in
                        let there : l.path ≡ param.snap_store_location =
                          ground (arith, place, eq_iff l.path param.snap_store_location) in
                        inr (
                          m,
                          rw same n,
                          ground (arith, e, f, g, i),
                          rw same
                              (matching-IsPresent p (rows TrackedDisk d.tracked_disks) disk more h),
                          rw there (
                              matching-IsPresent r (rows SnapStoreFilesLocation d.locations) l ls
                                k),
                        )
                  ]
            ]
          ]
        ]

    -- A mapping is stored only for a disk without one.
    pub Tidy-add_mapping : Keeps Tidy (add_mapping id param)
    unfolding Tidy
    Tidy-add_mapping = record {
      step = λ d p. elim (mapped d) [
        | inl e ↦ Tidy-stays d ((add_mapping id param d).1) e p
        | inr (m, n, e, k, l) ↦
            Tidy-stays (record d { mappings = inserted SnapStoreMapping id m d.mappings })
              ((add_mapping id param d).1) e (mapped-IsTidy d.mappings d.snap_stores id m n p)
      ];
    }

  pub Tidy-delete_snap_store : (id : String) → Keeps Tidy (delete_snap_store id)
  unfolding delete_snap_store Tidy
  Tidy-delete_snap_store id = record {
    step = λ d p. elim (deletes id d.snap_stores) [
      | inl (x, e) ↦ Tidy-stays d ((delete_snap_store id d).1) (ground (arith, e)) p
      | inr e ↦
          Tidy-stays (record d { snap_stores = deleted SnapStore id d.snap_stores })
            ((delete_snap_store id d).1) (ground (arith, e))
            (deleted-IsTidy d.mappings d.snap_stores id p)
    ];
  }

  module _ (texts : Texts) (id path : String) (size : ℕ) where
    pub recorded :
        (d : Database)
        → ((b : bolt.Bucket SnapStoreFile) × (((record_snap_store_file texts id path size d).1)
              ≡ record d { files = b }))
          ⊎ ((b : bolt.Bucket SnapStoreFile) × (store : SnapStore) × (more : List SnapStore)
              × (matching
                    (λ t. t.snap_store_id == store.snap_store_id)
                    (rows SnapStore d.snap_stores)
                  ≡ store ∷ more)
              × (((record_snap_store_file texts id path size d).1) ≡ record d {
                files = b;
                snap_stores =
                    updated SnapStore store.snap_store_id (grown texts store size) d.snap_stores;
              }))
    unfolding record_snap_store_file
    recorded d =
        let p : SnapStore → Bool = λ s. s.snap_store_id == id in
        elim (finds p d.snap_stores) [
          | broken e ↦ inl (d.files, ground (arith, e))
          | missing n e ↦ inl (d.files, ground (arith, e))
          | found store more h e ↦
              let file = file_of texts store path size in
              let files = inserted SnapStoreFile (texts.base path) file d.files in
              elim (inserts (texts.base path) (file_of texts store path size) d.files) [
                | inl (x, i) ↦ inl (d.files, ground (arith, e, i))
                | inr (free, i) ↦
                    elim (updates store.snap_store_id (grown texts store size) d.snap_stores) [
                      | inl (x, u) ↦ inl (files, ground (arith, e, i, u))
                      | inr u ↦
                          let own = matching-head p (rows SnapStore d.snap_stores) store more h in
                          let same : store.snap_store_id ≡ id =
                            ground (arith, own, eq_iff store.snap_store_id id) in
                          let all : String → List SnapStore = λ k.
                            matching (λ t. t.snap_store_id == k) (rows SnapStore d.snap_stores) in
                          inr (files, store, more, ap all same ∙ h, ground (arith, e, i, u))
                    ]
              ]
        ]

    -- The store that grows keeps its id and its disk.
    pub Tidy-record_snap_store_file : Keeps Tidy (record_snap_store_file texts id path size)
    unfolding Tidy
    Tidy-record_snap_store_file = record {
      step = λ d p. elim (recorded d) [
        | inl (b, e) ↦
            Tidy-stays (record d { files = b }) ((record_snap_store_file texts id path size d).1) e
              p
        | inr (b, store, more, h, e) ↦
            Tidy-stays _ ((record_snap_store_file texts id path size d).1) e (
              updated-IsTidy d.mappings d.snap_stores store (grown texts store size) more h refl
                refl p)
      ];
    }

  Tidy-disk : (disk : TrackedDisk) → Keeps Tidy (create_tracked_disk disk)
  unfolding create_tracked_disk Tidy
  Tidy-disk disk = Keeps-created Tidy disks_table _ disk (λ b d p. p)

  Tidy-location : (l : SnapStoreFilesLocation) → Keeps Tidy (create_snap_store_file_location l)
  unfolding create_snap_store_file_location Tidy
  Tidy-location l = Keeps-created Tidy locations_table _ l (λ b d p. p)

  pub Tidy-IsClosed : IsClosed Tidy
  unfolding Tidy
  Tidy-IsClosed = record {
    files = λ b d p. p;
    images = λ b d p. p;
    volume_snapshots = λ b d p. p;
    snapshots = λ b d p. p;
    disk = Tidy-disk;
    location = Tidy-location;
    mapping = Tidy-add_mapping;
    store = λ store d new p. stored-IsTidy d.mappings d.snap_stores store new.unstored new.free p;
    record_file = Tidy-record_snap_store_file;
    delete_store = Tidy-delete_snap_store;
  }

  pub Tidy-empty :
      (d : Database)
      → rows SnapStoreMapping d.mappings ≡ []
      → rows SnapStore d.snap_stores ≡ []
      → Tidy d
  unfolding Tidy IsUnique
  Tidy-empty d m n = record {
    one_mapping = λ k. rw m (ground (arith));
    one_store = λ k. rw n (ground (arith));
    own_id = λ k. rw n (ground (arith));
    keyed = rw n tt;
  }
