-- ===== src/Manager/Request/Refusal.antt =====
-- worker/manager/manager.go: a disk has one snapshot at a time.
use coriolis_snapshot_agent.Common.{◌≡◌, List, [], ◌∷◌, ◌++◌, arith, All}
use coriolis_snapshot_agent.Errors.{typed, conflict}
use coriolis_snapshot_agent.Result.{ok, err}
use coriolis_snapshot_agent.Bolthold.{Bolthold}
use coriolis_snapshot_agent.Config.{Config}
use coriolis_snapshot_agent.Db.Models.{Snapshot}
use coriolis_snapshot_agent.Db.Snapshots.{list_snapshots_for_disk}
use coriolis_snapshot_agent.Manager.{Texts}
use coriolis_snapshot_agent.Manager.State.{Agent, Kernel, View}
use coriolis_snapshot_agent.Manager.Host.{Host}
use coriolis_snapshot_agent.Manager.Request.{DiskRequest, refuse_taken, request_snapshot}

module _ ⦃bolt : Bolthold⦄ where
  -- The disk has a snapshot in the database, which can be read.
  abbrev pub IsTaken : DiskRequest → Agent → Type 0
  IsTaken q s =
      (snap : Snapshot) × (more : List Snapshot) × (list_snapshots_for_disk q.disk s.db
        ≡ (ok (snap ∷ more), s.db))

  abbrev pub IsUntaken : DiskRequest → Agent → Type 0
  IsUntaken q s = list_snapshots_for_disk q.disk s.db ≡ (ok [], s.db)

  refuse_taken-append :
      (before after : List DiskRequest) (q : DiskRequest) (s : Agent)
      → All (λ p. IsUntaken p s) before
      → IsTaken q s
      → refuse_taken (before ++ q ∷ after) s ≡ (err (typed conflict), s)
  unfolding refuse_taken
  refuse_taken-append [] after q s h (snap, more, e) = ground (arith, e)
  refuse_taken-append (p ∷ before) after q s (e, h) t =
      ground (arith, e, refuse_taken-append before after q s h t)

  -- A request with a disk that has a snapshot already is a conflict, wherever the disk stands among
  -- the others: no snap store is made for any of them, the kernel module is not called, and nothing is
  -- changed. That holds when the disks before it have no snapshot.
  pub request_snapshot_refused :
      (host : Host) (config : Config) (texts : Texts) (kernel : Kernel) (view : View)
      (before after : List DiskRequest) (q : DiskRequest) (s : Agent)
      → All (λ p. IsUntaken p s) before
      → IsTaken q s
      → request_snapshot host config texts kernel view (before ++ q ∷ after) s
        ≡ (err (typed conflict), s)
  unfolding request_snapshot
  request_snapshot_refused host config texts kernel view before after q s h t =
      ground (arith, refuse_taken-append before after q s h t)
