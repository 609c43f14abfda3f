-- ===== src/Service/Order.antt =====
-- The order that the service keeps in its database, and the references in it.
use coriolis_snapshot_agent.Common.{◌≡◌, []}
use coriolis_snapshot_agent.Bolthold.{Bolthold}
use coriolis_snapshot_agent.Config.{Config}
use coriolis_snapshot_agent.Db.Models.{SnapStore, SnapStoreMapping}
use coriolis_snapshot_agent.Manager.{Texts}
use coriolis_snapshot_agent.Manager.State.{Agent}
use coriolis_snapshot_agent.Manager.Linked.{IsLinked, Linked}
use coriolis_snapshot_agent.Manager.Linked.Calls.{Linked-IsClosed}
use coriolis_snapshot_agent.Manager.Tidy.{IsTidy, Tidy}
use coriolis_snapshot_agent.Manager.Tidy.Calls.{Tidy-IsClosed, Tidy-empty}
use coriolis_snapshot_agent.Service.{Reach}
use coriolis_snapshot_agent.Service.Invariants.{Reach-Closed}

module _ ⦃bolt : Bolthold⦄ (InfoStat VirtualMemoryStat : Type 0) (config : Config)
    (texts : Texts) where
  -- From a database without mappings and snap stores, whatever requests and messages are served in
  -- whatever order, and however often the agent starts again: a disk has at most one mapping and at
  -- most one snap store, and every snap store stands under an id of its own.
  pub Reach-IsTidy :
      (s t : Agent)
      → bolt.rows SnapStoreMapping s.db.mappings ≡ []
      → bolt.rows SnapStore s.db.snap_stores ≡ []
      → Reach InfoStat VirtualMemoryStat config texts s t
      → IsTidy t.db.mappings t.db.snap_stores
  unfolding Tidy
  Reach-IsTidy s t m n r =
      Reach-Closed Tidy Tidy-IsClosed InfoStat VirtualMemoryStat config texts (Tidy-empty s.db m n)
        r

  -- From a database without mappings and snap stores, whatever requests and messages are served in
  -- whatever order, and however often the agent starts again: the tracked disk and the location of
  -- every mapping and of every snap store are in the database.
  pub Reach-IsLinked :
      (s t : Agent)
      → bolt.rows SnapStoreMapping s.db.mappings ≡ []
      → bolt.rows SnapStore s.db.snap_stores ≡ []
      → Reach InfoStat VirtualMemoryStat config texts s t
      → IsLinked t.db.tracked_disks t.db.locations t.db.mappings t.db.snap_stores
  unfolding Linked
  Reach-IsLinked s t m n r =
      Reach-Closed Linked Linked-IsClosed InfoStat VirtualMemoryStat config texts
        (record {
          mapped_disks = rw m tt;
          mapped_places = rw m tt;
          store_disks = rw n tt;
          store_places = rw n tt;
        })
        r
