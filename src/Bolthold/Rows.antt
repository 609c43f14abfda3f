-- ===== src/Bolthold/Rows.antt =====
-- The rows of a bucket: keys with values, and what queries and updates do to them.
use coriolis_snapshot_agent.Common.{Bool, false, ◌||◌, List, [], ◌∷◌, String, if◌then◌else◌, ◌==◌}
use coriolis_snapshot_agent.Errors.{Error}
use coriolis_snapshot_agent.Result.{Result, ok, err}

module _ {V : Type 0} where
  abbrev pub matching : (V → Bool) → List (String × V) → List V
  matching p [] = []
  matching p ((k, v) ∷ r) = let rest = matching p r in if p v then v ∷ rest else rest

  abbrev pub first_or : List V → Error → Result V
  first_or [] e = err e
  first_or (v ∷ vs) e = ok v

  abbrev pub has_key : String → List (String × V) → Bool
  has_key k [] = false
  has_key k ((j, v) ∷ r) = (j == k) || has_key k r

  abbrev pub replaced : String → V → List (String × V) → List (String × V)
  replaced k v [] = []
  replaced k v ((j, w) ∷ r) = (j, (if j == k then v else w)) ∷ replaced k v r

  abbrev pub without : String → List (String × V) → List (String × V)
  without k [] = []
  without k ((j, v) ∷ r) = let rest = without k r in if j == k then rest else (j, v) ∷ rest
