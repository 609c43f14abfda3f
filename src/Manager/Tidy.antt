-- ===== src/Manager/Tidy.antt =====
-- worker/manager/: an order that the manager keeps in its database.
pub mod Calls
pub mod Rows
use coriolis_snapshot_agent.Common.{◌≡◌, List, String, All}
use coriolis_snapshot_agent.Bolthold.{Bolthold}
use coriolis_snapshot_agent.Bolthold.Unique.{IsUnique}
use coriolis_snapshot_agent.Db.Models.{SnapStoreMapping, SnapStore}
use coriolis_snapshot_agent.Db.Connection.{Database}

module _ ⦃bolt : Bolthold⦄ where
  open bolt use {Bucket, rows}

  -- A disk has at most one mapping and at most one snap store, and the snap stores stand under ids of
  -- their own.
  pub record IsTidy (mappings : Bucket SnapStoreMapping) (stores : Bucket SnapStore) : Type 0 where
    pub one_mapping :
        IsUnique
          (λ (m : SnapStoreMapping). m.tracked_disk.tracking_id)
          (rows SnapStoreMapping mappings)
    pub one_store : IsUnique (λ (s : SnapStore). s.tracked_disk.tracking_id) (rows SnapStore stores)
    pub own_id : IsUnique (λ (s : SnapStore). s.snap_store_id) (rows SnapStore stores)
    pub keyed : All (λ (r : String × SnapStore). r.0 ≡ r.1.snap_store_id) (rows SnapStore stores)

  unfoldable pub Tidy : Database → Type 0
  Tidy d = IsTidy d.mappings d.snap_stores
