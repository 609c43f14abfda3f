-- ===== src/Manager/Closed/Requests.antt =====
-- worker/manager/manager.go: `CreateSnapshot` keeps what is closed.
use coriolis_snapshot_agent.Common.{ℕ, Option, none, some, refl, List, [], ◌∷◌, String}
use coriolis_snapshot_agent.Result.{Result, ok, err}
use coriolis_snapshot_agent.Types.{DevId, CbtInfo, ImageInfo}
use coriolis_snapshot_agent.Bolthold.{Bolthold}
use coriolis_snapshot_agent.Config.{Config}
use coriolis_snapshot_agent.Db.Models.{SnapStore, VolumeSnapshot}
use coriolis_snapshot_agent.Manager.{Texts}
use coriolis_snapshot_agent.Manager.State.{Kernel, View}
use coriolis_snapshot_agent.Manager.Host.{Host}
use coriolis_snapshot_agent.Manager.Kept.{
  Keeps, kept, Keeps-aside, InDb, Keeps-pure, Keeps-bind, Keeps-wrapping, Keeps-in_db, Keeps-lift,
}
use coriolis_snapshot_agent.Manager.Kept.Reads.{
  reads, Keeps-list_snapshots_for_disk, Keeps-get_tracked_disk_by_tracking_id,
}
use coriolis_snapshot_agent.Manager.Removal.{gone, cleanup_snap_store}
use coriolis_snapshot_agent.Manager.Creation.{
  Target, release_stores, snap_volume, snap_volumes, store_snapshot, after_create, kernel_create,
  try_snapshot, take_snapshot,
}
use coriolis_snapshot_agent.Manager.Request.{
  DiskRequest, refuse_taken, fill_store, ensured, ensure_snap_store, make_targets, request_snapshot,
}
use coriolis_snapshot_agent.Manager.Closed.{IsClosed}
use coriolis_snapshot_agent.Db.Connection.{Database}
use coriolis_snapshot_agent.Manager.Closed.Writes.{closed_writes}
use coriolis_snapshot_agent.Manager.Closed.Stores.{Closed-make_snap_store}

module _ ⦃bolt : Bolthold⦄ (P : Database → Type 0) (c : IsClosed P) where
  Closed-refuse_taken : (qs : List DiskRequest) → Keeps (InDb P) (refuse_taken qs)
  unfolding refuse_taken
  Closed-refuse_taken [] = Keeps-pure (InDb P) tt
  Closed-refuse_taken (q ∷ qs) =
      Keeps-bind (InDb P) _ _
        (Keeps-wrapping (InDb P) _ (Keeps-in_db P _ (Keeps-list_snapshots_for_disk P q.disk)))
        (λ snaps. Keeps-bind (InDb P) _ _ (Keeps-lift (InDb P) _) (λ a. Closed-refuse_taken qs))

  module _ (texts : Texts) (kernel : Kernel) where
    Closed-gone : (filled : Option ℕ) → Keeps (InDb P) (gone texts kernel filled)
    Closed-gone none = Keeps-lift (InDb P) _
    Closed-gone (some n) = Keeps-pure (InDb P) tt

    Closed-cleanup_snap_store :
        (store : SnapStore) → Keeps (InDb P) (cleanup_snap_store texts kernel store)
    unfolding cleanup_snap_store
    Closed-cleanup_snap_store store = search (kept, Closed-gone) depth 12

    Closed-release_stores : (ts : List Target) → Keeps (InDb P) (release_stores texts kernel ts)
    unfolding release_stores
    Closed-release_stores ts = search (kept, Closed-cleanup_snap_store) depth 8

    module _ (view : View) (targets : List Target) where
      Closed-snap_volume :
          (number : ℕ) (pre post : List CbtInfo) (before after : List ImageInfo) (t : Target)
          → Keeps (InDb P) (snap_volume texts kernel view targets number pre post before after t)
      unfolding snap_volume
      Closed-snap_volume number pre post before after t = search (kept, closed_writes) depth 24

      Closed-snap_volumes :
          (number : ℕ) (pre post : List CbtInfo) (before after : List ImageInfo) (ts : List Target)
          → Keeps (InDb P) (snap_volumes texts kernel view targets number pre post before after ts)
      unfolding snap_volumes
      Closed-snap_volumes number pre post before after [] = Keeps-pure (InDb P) []
      Closed-snap_volumes number pre post before after (t ∷ ts) =
          Keeps-bind (InDb P) _ _ (Closed-snap_volume number pre post before after t) (λ vol.
            Keeps-bind (InDb P) _ _ (Closed-snap_volumes number pre post before after ts)
              (λ vols. Keeps-pure (InDb P) (vol ∷ vols)))

      Closed-store_snapshot :
          (number : ℕ) (r : Result (List VolumeSnapshot))
          → Keeps (InDb P) (store_snapshot texts kernel view targets number r)
      unfolding store_snapshot
      Closed-store_snapshot number (err e) = Keeps-pure (InDb P) _
      Closed-store_snapshot number (ok vols) = search (kept, closed_writes) depth 12

      Closed-after_create :
          (pre : List CbtInfo) (before : List ImageInfo) (number : ℕ)
          → Keeps (InDb P) (after_create texts kernel view targets pre before number)
      unfolding after_create
      Closed-after_create pre before number =
          search (kept, Closed-snap_volumes, Closed-store_snapshot) depth 16

      Closed-kernel_create :
          (devices : List DevId) → Keeps (InDb P) (kernel_create texts kernel view targets devices)
      Closed-kernel_create devices = Keeps-aside P _ (λ s. refl)

      Closed-try_snapshot : Keeps (InDb P) (try_snapshot texts kernel view targets)
      unfolding try_snapshot
      Closed-try_snapshot = search (kept, Closed-kernel_create, Closed-after_create) depth 16

      Closed-take_snapshot : Keeps (InDb P) (take_snapshot texts kernel view targets)
      unfolding take_snapshot
      Closed-take_snapshot = search (kept, Closed-release_stores, Closed-try_snapshot) depth 12

  module _ (host : Host) (config : Config) (texts : Texts) where
    Closed-fill_store : (store : SnapStore) → Keeps (InDb P) (fill_store host config texts store)
    unfolding fill_store
    Closed-fill_store store = search (kept, closed_writes) depth 16

    Closed-ensured :
        (id : List ℕ) (disk_id : String) (r : Result SnapStore)
        → Keeps (InDb P) (ensured host config texts id disk_id r)
    unfolding ensured
    Closed-ensured id disk_id (ok store) = Keeps-pure (InDb P) store
    Closed-ensured id disk_id (err e) =
        search (kept, Closed-make_snap_store, Closed-fill_store) depth 12

    Closed-ensure_snap_store :
        (id : List ℕ) (disk_id : String)
        → Keeps (InDb P) (ensure_snap_store host config texts id disk_id)
    unfolding ensure_snap_store
    Closed-ensure_snap_store id disk_id = search (kept, reads, Closed-ensured) depth 12

    Closed-make_targets :
        (qs : List DiskRequest) → Keeps (InDb P) (make_targets host config texts qs)
    unfolding make_targets
    Closed-make_targets [] = Keeps-pure (InDb P) []
    Closed-make_targets (q ∷ qs) =
        Keeps-bind (InDb P) _ _
          (Keeps-wrapping (InDb P) _ (Closed-ensure_snap_store q.store_id q.disk))
          (λ store.
            Keeps-bind (InDb P) _ _
              (Keeps-wrapping (InDb P) _
                (Keeps-in_db P _ (Keeps-get_tracked_disk_by_tracking_id P q.disk)))
              (λ disk.
                Keeps-bind (InDb P) _ _ (Closed-make_targets qs) (λ rest. Keeps-pure (InDb P) _)))

    pub Closed-request_snapshot :
        (kernel : Kernel) (view : View) (qs : List DiskRequest)
        → Keeps (InDb P) (request_snapshot host config texts kernel view qs)
    unfolding request_snapshot
    Closed-request_snapshot kernel view qs = Keeps-bind (InDb P) _ _ (Closed-refuse_taken qs) (λ a.
        Keeps-bind (InDb P) _ _ (Closed-make_targets qs)
          (λ targets. Closed-take_snapshot texts kernel view targets))
