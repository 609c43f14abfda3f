-- ===== src/Types.antt =====
-- internal/types/types.go. Numbers of 32 and 64 bits are natural numbers, bounded where it matters;
-- a `[16]byte` is the list of its bytes.
use coriolis_snapshot_agent.Common.{ℕ, ◌≡◌, Bool, true, ◌&&◌, List, arith, eqb}

pub record DevId : Type 0 where
  pub major : ℕ
  pub minor : ℕ

pub record CbtInfo : Type 0 where
  pub dev_id : DevId
  pub dev_capacity : ℕ
  pub cbt_map_size : ℕ
  pub snap_number : ℕ
  pub generation_id : List ℕ

pub record Range : Type 0 where
  pub left : ℕ
  pub right : ℕ

pub record ImageInfo : Type 0 where
  pub original_dev_id : DevId
  pub snapshot_dev_id : DevId

-- `a == b` on `types.DevID`
abbrev pub dev_eq : DevId → DevId → Bool
dev_eq a b = eqb a.major b.major && eqb a.minor b.minor

pub dev_eq→eq : (a b : DevId) → dev_eq a b ≡ true → a ≡ b
dev_eq→eq a b h = ground arith
