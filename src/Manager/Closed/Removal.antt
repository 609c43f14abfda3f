-- ===== src/Manager/Closed/Removal.antt =====
-- worker/manager/manager.go and worker.go: `DeleteSnapshot` and the loop over the messages of the
-- watchers keep what is closed.
use coriolis_snapshot_agent.Common.{List, [], ◌∷◌, String}
use coriolis_snapshot_agent.Result.{Result, ok, err}
use coriolis_snapshot_agent.Bolthold.{Bolthold}
use coriolis_snapshot_agent.Db.Models.{SnapStoreFile, VolumeSnapshot, Snapshot}
use coriolis_snapshot_agent.Watcher.Messages.{Message, add_file, deleted, overflowed, failed}
use coriolis_snapshot_agent.Manager.{Texts}
use coriolis_snapshot_agent.Manager.State.{Kernel}
use coriolis_snapshot_agent.Manager.Kept.{Keeps, kept, InDb, Keeps-pure, Keeps-bind}
use coriolis_snapshot_agent.Manager.Kept.Reads.{reads}
use coriolis_snapshot_agent.Manager.Removal.{
  remove_store, remove_stores, unless_gone, forget, remove_found, remove_snapshot,
}
use coriolis_snapshot_agent.Manager.MessageLoop.{delete_listed, mark_listed, handle_message}
use coriolis_snapshot_agent.Manager.Closed.{IsClosed}
use coriolis_snapshot_agent.Db.Connection.{Database}
use coriolis_snapshot_agent.Manager.Closed.Writes.{closed_writes}

module _ ⦃bolt : Bolthold⦄ (P : Database → Type 0) (c : IsClosed P) (texts : Texts) where
  module _ (kernel : Kernel) where
    Closed-remove_store : (vol : VolumeSnapshot) → Keeps (InDb P) (remove_store texts kernel vol)
    unfolding remove_store
    Closed-remove_store vol = search (kept, reads, closed_writes) depth 16

    Closed-remove_stores :
        (vols : List VolumeSnapshot) → Keeps (InDb P) (remove_stores texts kernel vols)
    unfolding remove_stores
    Closed-remove_stores [] = Keeps-pure (InDb P) tt
    Closed-remove_stores (vol ∷ vols) =
        Keeps-bind (InDb P) _ _ (Closed-remove_store vol) (λ a. Closed-remove_stores vols)

    Closed-unless_gone : (r : Result (Unit {0})) → Keeps (InDb P) (unless_gone texts kernel r)
    Closed-unless_gone (ok a) = Keeps-pure (InDb P) tt
    Closed-unless_gone (err e) = search (kept) depth 6

    Closed-forget :
        (id : String) (snapshot : Snapshot) → Keeps (InDb P) (forget texts kernel id snapshot)
    unfolding forget
    Closed-forget id snapshot =
        search (kept, closed_writes, Closed-remove_stores, Closed-unless_gone) depth 12

    Closed-remove_found :
        (id : String) (r : Result Snapshot) → Keeps (InDb P) (remove_found texts kernel id r)
    unfolding remove_found
    Closed-remove_found id (err e) = search (kept) depth 6
    Closed-remove_found id (ok snapshot) = search (kept, Closed-forget) depth 12

    pub Closed-remove_snapshot : (id : String) → Keeps (InDb P) (remove_snapshot texts kernel id)
    unfolding remove_snapshot
    Closed-remove_snapshot id = search (kept, reads, Closed-remove_found) depth 12

  Closed-delete_listed : (r : Result (List SnapStoreFile)) → Keeps P (delete_listed texts r)
  unfolding delete_listed
  Closed-delete_listed (ok files) = search (kept, closed_writes) depth 8
  Closed-delete_listed (err e) = Keeps-pure P tt

  Closed-mark_listed : (r : Result (List VolumeSnapshot)) → Keeps P (mark_listed texts r)
  unfolding mark_listed
  Closed-mark_listed (ok vols) = search (kept, closed_writes) depth 8
  Closed-mark_listed (err e) = Keeps-pure P tt

  pub Closed-handle_message : (m : Message) → Keeps P (handle_message texts m)
  unfolding handle_message
  Closed-handle_message (add_file id path size fill) = search (kept, closed_writes) depth 8
  Closed-handle_message (deleted id) =
      search (kept, reads, Closed-delete_listed, closed_writes) depth 12
  Closed-handle_message (overflowed id e) = search (kept, reads, Closed-mark_listed) depth 12
  Closed-handle_message (failed id e) = Keeps-pure P tt
