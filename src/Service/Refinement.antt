-- ===== src/Service/Refinement.antt =====
-- The service follows the rules of the registry of mappings and snap stores.
use coriolis_snapshot_agent.Common.{◌≡◌, [], String, some, arith}
use coriolis_snapshot_agent.Bolthold.{Bolthold}
use coriolis_snapshot_agent.Config.{Config}
use coriolis_snapshot_agent.Db.Models.{SnapStore, SnapStoreMapping}
use coriolis_snapshot_agent.Manager.{Texts}
use coriolis_snapshot_agent.Manager.State.{Agent}
use coriolis_snapshot_agent.Manager.Tidy.{IsTidy, Tidy}
use coriolis_snapshot_agent.Manager.Registry.{Held, Changes, done}
use coriolis_snapshot_agent.Manager.Registry.Rules.{Changes-mapped, IsPlaced, Changes-IsPlaced}
use coriolis_snapshot_agent.Manager.Registry.Abstraction.{registry_of}
use coriolis_snapshot_agent.Manager.Registry.Refined.{Follows, Follows-IsClosed}
use coriolis_snapshot_agent.Service.{Reach}
use coriolis_snapshot_agent.Service.Invariants.{Reach-Closed}
use coriolis_snapshot_agent.Manager.Tidy.Calls.{Tidy-empty}

module _ ⦃bolt : Bolthold⦄ (InfoStat VirtualMemoryStat : Type 0) (config : Config) (texts : Texts)
    (s t : Agent) where
  -- From a database in order, whatever is served in whatever order and however often the agent starts
  -- again, the registry of the database changes by its rules only: an unmapped disk is mapped, a mapped
  -- disk without a snap store gets one at its place, or a snap store is dropped.
  pub Reach-Changes :
      IsTidy s.db.mappings s.db.snap_stores
      → Reach InfoStat VirtualMemoryStat config texts s t
      → Changes (registry_of s.db) (registry_of t.db)
  unfolding Follows Tidy
  Reach-Changes p r =
      (Reach-Closed (Follows (registry_of s.db)) (Follows-IsClosed (registry_of s.db)) InfoStat
        VirtualMemoryStat config texts (p, done) r).1

  -- From a database in order, a disk that is mapped to a place is mapped to it in every state that the
  -- service reaches.
  pub Reach-mapped :
      (disk place : String)
      → IsTidy s.db.mappings s.db.snap_stores
      → (registry_of s.db).mapping_of disk ≡ some place
      → Reach InfoStat VirtualMemoryStat config texts s t
      → (registry_of t.db).mapping_of disk ≡ some place
  Reach-mapped disk place p m r = Changes-mapped disk place (Reach-Changes p r) m

  -- From a database without mappings and snap stores, in every state that the service reaches, the snap
  -- store of a disk lies at the place that the disk is mapped to.
  pub Reach-placed :
      (disk : String) (h : Held)
      → bolt.rows SnapStoreMapping s.db.mappings ≡ []
      → bolt.rows SnapStore s.db.snap_stores ≡ []
      → Reach InfoStat VirtualMemoryStat config texts s t
      → (registry_of t.db).store_of disk ≡ some h
      → (registry_of t.db).mapping_of disk ≡ some h.place
  unfolding Tidy registry_of IsPlaced
  Reach-placed disk h m n r e =
      Changes-IsPlaced (Reach-Changes (Tidy-empty s.db m n) r)
        (λ k g f. absurd (ground (arith, n, f))) disk h e
