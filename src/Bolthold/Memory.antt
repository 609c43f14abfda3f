-- ===== src/Bolthold/Memory.antt =====
-- A bolthold in memory: a list of rows for each type, never unreadable, new rows in front. It shows
-- that the interface can be met, and runs the tests.
use coriolis_snapshot_agent.Common.{refl, false, List, [], ◌∷◌, String, if◌then◌else◌}
use coriolis_snapshot_agent.Errors.{sentinel, bolt_not_found, bolt_key_exists}
use coriolis_snapshot_agent.Result.{ok, err}
use coriolis_snapshot_agent.Bolthold.{Bolthold, matching, first_or, has_key, replaced, without}

abbrev pub memory : Bolthold
memory = record {
  Bucket = λ V. List (String × V);
  rows = λ V b. b;
  faulty = λ V b. false;
  find = λ V p b. ok (matching p b);
  find_one = λ V p b. first_or (matching p b) (sentinel bolt_not_found);
  insert = λ V k v b. if has_key k b then err (sentinel bolt_key_exists) else ok ((k, v) ∷ b);
  update = λ V k v b. if has_key k b then ok (replaced k v b) else err (sentinel bolt_not_found);
  delete = λ V k b. if has_key k b then ok (without k b) else err (sentinel bolt_not_found);
  inserted = λ V k v b. (k, v) ∷ b;
  updated = λ V k v b. replaced k v b;
  deleted = λ V k b. without k b;
  find_lem = λ V p b. refl;
  find_one_lem = λ V p b. refl;
  insert_lem = λ V k v b. refl;
  update_lem = λ V k v b. refl;
  delete_lem = λ V k b. refl;
  inserted_rows = λ V k v b. ([], b, refl, refl);
  updated_rows = λ V k v b. refl;
  deleted_rows = λ V k b. refl;
}
