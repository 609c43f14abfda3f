-- ===== src/Tests/Database.antt =====
-- Examples for the database, on a bolthold in memory.
use coriolis_snapshot_agent.Common.{◌≡◌, refl, []}
use coriolis_snapshot_agent.Result.{ok}
use coriolis_snapshot_agent.Bolthold.Memory.{memory}
use coriolis_snapshot_agent.Db.Snapshots.{create_snapshot, get_snapshot, delete_snapshot}
use coriolis_snapshot_agent.Db.RoundTrip.{create_snapshot_round_trip}
use coriolis_snapshot_agent.Db.Deletion.{delete_snapshot_absent}
use coriolis_snapshot_agent.Tests.Samples.{snapshot_of, stored}

create_snapshot_round_trip_example :
    let (r, e) = create_snapshot ⦃bolt = memory⦄ (snapshot_of "2" []) stored in
    (r ≡ ok (snapshot_of "2" []))
    × (get_snapshot ⦃bolt = memory⦄ "2" e ≡ (ok (snapshot_of "2" []), e))
create_snapshot_round_trip_example =
    create_snapshot_round_trip ⦃bolt = memory⦄ (snapshot_of "2" []) stored
      (record { before = refl; after = refl }) refl refl

delete_snapshot_absent_example : delete_snapshot ⦃bolt = memory⦄ "9" stored ≡ (ok tt, stored)
delete_snapshot_absent_example = delete_snapshot_absent ⦃bolt = memory⦄ "9" stored refl refl
