-- ===== src/Manager/Closed/Stores.antt =====
-- worker/manager/snapstores.go: the creation of a snap store keeps what is closed.
use coriolis_snapshot_agent.Common.{
  ℕ, ◌≡◌, ◌⊎◌, inl, inr, Bool, List, String, ◌==◌, arith, eq_iff, ap, ◌∙◌,
}
use coriolis_snapshot_agent.Errors.{is}
use coriolis_snapshot_agent.Result.{Result, ok, err}
use coriolis_snapshot_agent.Bolthold.{Bolthold, matching}
use coriolis_snapshot_agent.Bolthold.Laws.{matching-head}
use coriolis_snapshot_agent.Bolthold.Calls.{broken, missing, found, finds, inserts}
use coriolis_snapshot_agent.Config.{Config}
use coriolis_snapshot_agent.Bolthold.Present.{matching-IsPresent}
use coriolis_snapshot_agent.Db.Models.{
  TrackedDisk, SnapStoreFilesLocation, SnapStoreMapping, SnapStore,
}
use coriolis_snapshot_agent.Manager.{Texts}
use coriolis_snapshot_agent.Manager.State.{Agent}
use coriolis_snapshot_agent.Manager.Host.{Host}
use coriolis_snapshot_agent.Manager.Kept.{Keeps, kept, InDb, Keeps-pure}
use coriolis_snapshot_agent.Manager.Stores.{
  after_mkdir, after_stat, start_store, store_row, store_with_row, make_snap_store,
}
use coriolis_snapshot_agent.Manager.Kept.Watching.{Keeps-watch_store}
use coriolis_snapshot_agent.Manager.Closed.{IsClosed, IsNewStore, with_store}
use coriolis_snapshot_agent.Manager.Closed.Writes.{closed_writes}
use coriolis_snapshot_agent.Db.Connection.{Database}

module _ ⦃bolt : Bolthold⦄ (host : Host) (config : Config) (texts : Texts) (id : List ℕ)
    (disk_id : String) where
  open bolt use {rows}

  -- `CreateSnapStore` stores a row only for a disk without a snap store, under an id that is free.
  made :
      (s : Agent)
      → (((make_snap_store host config texts id disk_id s).1) ≡ s)
        ⊎ ((store : SnapStore) × IsNewStore store s.db
            × (((make_snap_store host config texts id disk_id s).1) ≡ (
                (store_with_row host config texts id store
                  (record s { db = with_store store s.db })).1)))
  unfolding make_snap_store is
  made s =
      let p : SnapStore → Bool = λ t. t.tracked_disk.tracking_id == disk_id in
      let q : SnapStoreMapping → Bool = λ m. m.tracked_disk.tracking_id == disk_id in
      let u : TrackedDisk → Bool = λ t. t.tracking_id == disk_id in
      elim (finds p s.db.snap_stores) [
        | broken e ↦ inl (ground (arith, e))
        | found t ts n e ↦ inl (ground (arith, e))
        | missing n e ↦ elim (finds q s.db.mappings) [
          | broken f ↦ inl (ground (arith, e, f))
          | missing m f ↦ inl (ground (arith, e, f))
          | found m ms mapped f ↦
              let r : SnapStoreFilesLocation → Bool = λ l. l.path == m.location.path in
              elim (finds r s.db.locations) [
                | broken g ↦ inl (ground (arith, e, f, g))
                | missing k g ↦ inl (ground (arith, e, f, g))
                | found l ls here g ↦ elim (finds u s.db.tracked_disks) [
                  | broken i ↦ inl (ground (arith, e, f, g, i))
                  | missing k i ↦ inl (ground (arith, e, f, g, i))
                  | found disk more h i ↦
                      let store = store_row host config texts id disk l in
                      elim (inserts store.snap_store_id store s.db.snap_stores) [
                        | inl (x, j) ↦ inl (ground (arith, e, f, g, i, j))
                        | inr (free, j) ↦
                            let own =
                              matching-head u (rows TrackedDisk s.db.tracked_disks) disk more h in
                            let same : disk.tracking_id ≡ disk_id =
                              ground (arith, own, eq_iff disk.tracking_id disk_id) in
                            let all : String → List SnapStore = λ k.
                              matching (λ t. t.tracked_disk.tracking_id == k)
                                (rows SnapStore s.db.snap_stores) in
                            let disks : String → List TrackedDisk = λ k.
                              matching (λ t. t.tracking_id == k)
                                (rows TrackedDisk s.db.tracked_disks) in
                            let mappings : String → List SnapStoreMapping = λ k.
                              matching (λ m. m.tracked_disk.tracking_id == k)
                                (rows SnapStoreMapping s.db.mappings) in
                            let place =
                              matching-head r (rows SnapStoreFilesLocation s.db.locations) l ls
                                here in
                            let there : l.path ≡ m.location.path =
                              ground (arith, place, eq_iff l.path m.location.path) in
                            inr (
                              store,
                              record {
                                more = more;
                                disk_known = ap disks same ∙ h;
                                mapping = m;
                                others = ms;
                                disk_mapped = ap mappings same ∙ mapped;
                                placed = there;
                                place_known = rw there (
                                    matching-IsPresent r
                                      (rows SnapStoreFilesLocation s.db.locations) l ls here);
                                unstored = ap all same ∙ n;
                                free = free;
                              },
                              ground (arith, e, f, g, i, j),
                            )
                      ]
                ]
              ]
        ]
      ]

module _ ⦃bolt : Bolthold⦄ (P : Database → Type 0) (c : IsClosed P) (host : Host) (config : Config)
    (texts : Texts) where
  Closed-after_mkdir :
      (id : List ℕ) (store : SnapStore) (r : Result (Unit {0}))
      → Keeps (InDb P) (after_mkdir host config texts id store r)
  unfolding after_mkdir
  Closed-after_mkdir id store (err e) = Keeps-pure (InDb P) _
  Closed-after_mkdir id store (ok a) = search (kept, Keeps-watch_store) depth 16

  Closed-after_stat :
      (id : List ℕ) (store : SnapStore) (r : Result (Unit {0}))
      → Keeps (InDb P) (after_stat host config texts id store r)
  unfolding after_stat
  Closed-after_stat id store (ok a) = search (kept, Keeps-watch_store) depth 16
  Closed-after_stat id store (err e) = search (kept, Closed-after_mkdir) depth 16

  Closed-start_store :
      (id : List ℕ) (store : SnapStore) → Keeps (InDb P) (start_store host config texts id store)
  unfolding start_store
  Closed-start_store id store = search (kept, Closed-after_stat) depth 16

  Closed-store_with_row :
      (id : List ℕ) (store : SnapStore) → Keeps (InDb P) (store_with_row host config texts id store)
  unfolding store_with_row
  Closed-store_with_row id store = search (kept, closed_writes, Closed-start_store) depth 16

  pub Closed-make_snap_store :
      (id : List ℕ) (disk_id : String)
      → Keeps (InDb P) (make_snap_store host config texts id disk_id)
  unfolding InDb
  Closed-make_snap_store id disk_id = record {
    step = λ s p. elim (made host config texts id disk_id s) [
      | inl e ↦ rw e p
      | inr (store, new, e) ↦ rw e (
          (Closed-store_with_row id store).step (record s { db = with_store store s.db })
            (c.store store s.db new p))
    ];
  }
