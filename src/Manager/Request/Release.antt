-- ===== src/Manager/Request/Release.antt =====
-- worker/manager/manager.go: what the whole of `CreateSnapshot` gives back, and what it leaves behind.
use coriolis_snapshot_agent.Common.{ℕ, ◌≡◌, List, [], ◌∷◌, ◌++◌, arith}
use coriolis_snapshot_agent.Errors.{Error, wrap}
use coriolis_snapshot_agent.Result.{ok, err}
use coriolis_snapshot_agent.Types.{CbtInfo, ImageInfo}
use coriolis_snapshot_agent.Bolthold.{Bolthold}
use coriolis_snapshot_agent.Config.{Config}
use coriolis_snapshot_agent.Manager.{Texts}
use coriolis_snapshot_agent.Manager.State.{Agent, Kernel, View, snapshot_delete}
use coriolis_snapshot_agent.Manager.Host.{Host}
use coriolis_snapshot_agent.Manager.Creation.{Target}
use coriolis_snapshot_agent.Manager.Creation.Release.{
  IsCreated, IsUnreadable, asked, cleanup_calls, unreadable_state_releases,
}
use coriolis_snapshot_agent.Manager.Request.{
  DiskRequest, refuse_taken, make_targets, request_snapshot,
}

module _ ⦃bolt : Bolthold⦄ (host : Host) (config : Config) (texts : Texts) (kernel : Kernel)
    (view : View) where
  -- No disk of the request has a snapshot, and every one has got its snap store: `s` is the agent at the
  -- request, `v` the one with the snap stores.
  pub record IsPrepared (qs : List DiskRequest) (targets : List Target) (s v : Agent) : Type 0 where
    pub then_free : Agent
    pub untaken : refuse_taken qs s ≡ (ok tt, then_free)
    pub made : make_targets host config texts qs then_free ≡ (ok targets, v)

  -- If the state of the kernel module cannot be read after it has made the snapshot, `CreateSnapshot`
  -- fails, deletes that snapshot and cleans up every snap store whose id can be parsed, in this order.
  -- Of the database, the watchers and the disk it takes nothing back: they stay as they were when the
  -- snap stores of the request had been made.
  pub request_snapshot_releases :
      (qs : List DiskRequest) (targets : List Target) (s v : Agent) (pre : List CbtInfo)
      (before : List ImageInfo) (number : ℕ) (e : Error)
      → IsPrepared qs targets s v
      → IsCreated texts kernel view targets v pre before number
      → IsUnreadable texts kernel view targets v e
      → request_snapshot host config texts kernel view qs s ≡ (
        err (wrap e),
        record v {
          calls =
              ((asked texts kernel view targets v).calls ++ snapshot_delete number ∷ [])
              ++ cleanup_calls texts kernel targets;
        },
      )
  unfolding request_snapshot
  request_snapshot_releases qs targets s v pre before number e p h u = ground (
    arith,
    p.untaken,
    p.made,
    unreadable_state_releases texts kernel view targets v pre before number e h u,
  )
