-- ===== src/Storage/Fiemap.antt =====
-- internal/util/fiemap.go: the extents of a file, fetched in portions. `fibmap.Fiemap` is an argument.
pub mod Walk
use coriolis_snapshot_agent.Common.{
  ℕ, zero, suc, ◌+◌, ◌%◌, ◌^◌, List, [], ◌∷◌, ◌++◌, Option, none, some,
}
use coriolis_snapshot_agent.Errors.{wrap}
use coriolis_snapshot_agent.Result.{Result, ok, err}

-- `fibmap.Extent`, the fields that are used.
pub record Extent : Type 0 where
  pub logical : ℕ
  pub physical : ℕ
  pub length : ℕ

-- `FeCount`
abbrev pub fe_count : ℕ
fe_count = 8000

-- `last`: where the next portion begins.
abbrev pub next_start : List Extent → ℕ
next_start [] = 0
next_start (e ∷ []) = (e.logical + e.length) % 2 ^ 64
next_start (e ∷ x ∷ es) = next_start (x ∷ es)

module _ (fiemap : ℕ → ℕ → Result (List Extent)) where
  -- The loop of `walkFiemap`, for at most as many calls as there is fuel.
  unfoldable pub walk : ℕ → List Extent → Option (Result (List Extent))
  walk zero ret = none
  walk (suc fuel) ret = elim (fiemap (next_start ret) fe_count) [
    | err e ↦ some (err (wrap e))
    | ok [] ↦ some (ok ret)
    | ok (x ∷ xs) ↦ walk fuel (ret ++ x ∷ xs)
  ]

  -- `walkFiemap`
  unfoldable pub walk_fiemap : ℕ → Option (Result (List Extent))
  unfolding walk
  walk_fiemap fuel = walk fuel []

  -- `GetExtents`, for the answer of `os.Open`.
  unfoldable pub get_extents : ℕ → Result (Unit {0}) → Option (Result (List Extent))
  unfolding walk_fiemap
  get_extents fuel (ok a) = walk_fiemap fuel
  get_extents fuel (err e) = some (err (wrap e))
