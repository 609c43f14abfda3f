-- ===== src/Tests/Startup.antt =====
-- Examples for the configuration and the start of the manager.
use coriolis_snapshot_agent.Common.{◌≡◌, refl, List, [], ◌∷◌, ◌++◌}
use coriolis_snapshot_agent.Errors.{plain, sentinel, fs_not_exist, wrap, is}
use coriolis_snapshot_agent.Result.{ok, err}
use coriolis_snapshot_agent.Bolthold.Memory.{memory}
use coriolis_snapshot_agent.Config.{validate}
use coriolis_snapshot_agent.Db.Models.{SnapStore, no_store}
use coriolis_snapshot_agent.Manager.State.{Agent, DiskOp, removed_file}
use coriolis_snapshot_agent.Manager.Host.{Host}
use coriolis_snapshot_agent.Manager.Startup.{
  new_manager, first_start, clean_start, bring_up, add_locations,
}
use coriolis_snapshot_agent.Manager.Startup.Unwound.{new_manager_keeps, new_manager_unwinds}
use coriolis_snapshot_agent.Tests.Machine.{
  config, checks, host, texts, kernel, view, mapped, with_db,
}
use coriolis_snapshot_agent.Tests.Samples.{no_basedir}

abbrev one_store : SnapStore
one_store = record no_store { snap_store_id = "id" }

abbrev pub stocked : Agent ⦃bolt = memory⦄
stocked = with_db (record mapped { snap_stores = ("id", one_store) ∷ [] })

new_manager_keeps_example :
    ((new_manager ⦃bolt = memory⦄ host config texts kernel view checks (ok tt) (λ d. d) stocked).1
    ).disk_ops
    ≡ []
new_manager_keeps_example =
    new_manager_keeps ⦃bolt = memory⦄ host config texts kernel view checks (ok tt) (λ d. d) stocked
      refl

-- A machine without the database file, on which the destinations cannot be read.
abbrev fresh_host : Host
fresh_host = record host { outside = λ ops. no_basedir; statfs = λ p. err plain }

abbrev failed : Agent ⦃bolt = memory⦄
failed =
    (new_manager ⦃bolt = memory⦄ fresh_host config texts kernel view checks (ok tt) (λ d. d)
      stocked).1

fails :
    new_manager ⦃bolt = memory⦄ fresh_host config texts kernel view checks (ok tt) (λ d. d) stocked
    ≡ (err (wrap (wrap (wrap (wrap plain)))), failed)
unfolding new_manager is first_start clean_start bring_up add_locations
fails = refl

new_manager_unwinds_example :
    (earlier : List DiskOp) × (failed.disk_ops ≡ earlier ++ removed_file config.db_file ∷ [])
unfolding is validate
new_manager_unwinds_example =
    new_manager_unwinds ⦃bolt = memory⦄ fresh_host config texts kernel view checks (ok tt) (λ d. d)
      stocked failed (sentinel fs_not_exist) (wrap (wrap (wrap (wrap plain)))) refl refl refl refl
      fails
