-- ===== src/Db/RoundTrip.antt =====
-- db/db.go: what was created is found again.
use coriolis_snapshot_agent.Common.{◌≡◌, refl, Bool, false, [], arith, ◌==◌, eq_refl}
use coriolis_snapshot_agent.Result.{ok}
use coriolis_snapshot_agent.Bolthold.{Bolthold, matching, has_key}
use coriolis_snapshot_agent.Bolthold.Laws.{matching-inserted}
use coriolis_snapshot_agent.Db.Models.{Snapshot}
use coriolis_snapshot_agent.Db.Connection.{Database}
use coriolis_snapshot_agent.Db.Snapshots.{create_snapshot, get_snapshot}

module _ ⦃bolt : Bolthold⦄ where
  open bolt use {Bucket, rows, faulty, inserted, find_one_lem, insert_lem}

  -- The bucket of the snapshots can be read before and after the row goes in.
  pub record IsReadable (s : Snapshot) (d : Database) : Type 0 where
    pub before : faulty Snapshot d.snapshots ≡ false
    pub after : faulty Snapshot (inserted Snapshot s.snapshot_id s d.snapshots) ≡ false

  created :
      (s : Snapshot) (d : Database)
      → IsReadable s d
      → has_key s.snapshot_id (rows Snapshot d.snapshots) ≡ false
      → create_snapshot s d
        ≡ (ok s, record d { snapshots = inserted Snapshot s.snapshot_id s d.snapshots })
  unfolding create_snapshot
  created s d h k = ground (arith, insert_lem Snapshot s.snapshot_id s d.snapshots, h.before, k)

  found :
      (s : Snapshot) (d : Database)
      → IsReadable s d
      → matching (λ r. r.snapshot_id == s.snapshot_id) (rows Snapshot d.snapshots) ≡ []
      → let e = record d { snapshots = inserted Snapshot s.snapshot_id s d.snapshots } in
        get_snapshot s.snapshot_id e ≡ (ok s, e)
  unfolding get_snapshot
  found s d h m =
      let p : Snapshot → Bool = λ r. r.snapshot_id == s.snapshot_id in
      let b = inserted Snapshot s.snapshot_id s d.snapshots in
      ground (
        arith,
        find_one_lem Snapshot p b,
        h.after,
        matching-inserted p s.snapshot_id s d.snapshots m (eq_refl s.snapshot_id),
      )

  -- A snapshot whose key is free and whose id no row has is stored, and is then found by its id.
  pub create_snapshot_round_trip :
      (s : Snapshot) (d : Database)
      → IsReadable s d
      → has_key s.snapshot_id (rows Snapshot d.snapshots) ≡ false
      → matching (λ r. r.snapshot_id == s.snapshot_id) (rows Snapshot d.snapshots) ≡ []
      → let (r, e) = create_snapshot s d in (r ≡ ok s) × (get_snapshot s.snapshot_id e ≡ (ok s, e))
  create_snapshot_round_trip s d h k m = let c = created s d h k in rw c (refl, found s d h m)
