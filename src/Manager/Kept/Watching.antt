-- ===== src/Manager/Kept/Watching.antt =====
-- worker/manager/initialization.go: starting the watchers of the snap stores leaves the database alone.
use coriolis_snapshot_agent.Common.{ℕ, List, [], ◌∷◌}
use coriolis_snapshot_agent.Bolthold.{Bolthold}
use coriolis_snapshot_agent.Config.{Config}
use coriolis_snapshot_agent.Db.Models.{SnapStore}
use coriolis_snapshot_agent.Db.Connection.{Database}
use coriolis_snapshot_agent.Manager.{Texts}
use coriolis_snapshot_agent.Manager.Host.{Host}
use coriolis_snapshot_agent.Manager.Kept.{Keeps, kept, InDb, Keeps-pure, Keeps-bind}
use coriolis_snapshot_agent.Manager.Kept.Reads.{reads}
use coriolis_snapshot_agent.Manager.Stores.{watch_store}
use coriolis_snapshot_agent.Manager.Startup.{watch_parsed, watch_stores, populate_watchers}

module _ ⦃bolt : Bolthold⦄ (P : Database → Type 0) (host : Host) (config : Config)
    (texts : Texts) where
  pub Keeps-watch_store :
      (id : List ℕ) (store : SnapStore) → Keeps (InDb P) (watch_store host config texts id store)
  unfolding watch_store
  Keeps-watch_store id store = search (kept) depth 16

  Keeps-watch_parsed : (store : SnapStore) → Keeps (InDb P) (watch_parsed host config texts store)
  unfolding watch_parsed
  Keeps-watch_parsed store = search (kept, Keeps-watch_store) depth 8

  Keeps-watch_stores :
      (stores : List SnapStore) → Keeps (InDb P) (watch_stores host config texts stores)
  unfolding watch_stores
  Keeps-watch_stores [] = Keeps-pure (InDb P) tt
  Keeps-watch_stores (store ∷ stores) =
      Keeps-bind (InDb P) _ _ (Keeps-watch_parsed store) (λ a. Keeps-watch_stores stores)

  pub Keeps-populate_watchers : Keeps (InDb P) (populate_watchers host config texts)
  unfolding populate_watchers
  Keeps-populate_watchers = search (kept, reads, Keeps-watch_stores) depth 12
