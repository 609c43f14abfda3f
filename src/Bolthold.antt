-- ===== src/Bolthold.antt =====
-- github.com/timshannon/bolthold, the store under the database: an interface with its documented
-- behaviour. A bucket holds the rows of one Go type; a query is a test on the value of a row. A
-- bucket may be unreadable (a closed file, a failed read), and then every call on it fails.
mod Rows
pub mod Calls
pub mod Changed
pub mod Laws
pub mod Memory
pub mod Present
pub mod Unique
pub use Rows.*
use coriolis_snapshot_agent.Common.{
  ◌≡◌, Bool, true, false, List, [], ◌∷◌, ◌++◌, String, if◌then◌else◌, ◌==◌,
}
use coriolis_snapshot_agent.Errors.{sentinel, plain, bolt_not_found, bolt_key_exists}
use coriolis_snapshot_agent.Result.{Result, ok, err}

pub record Bolthold : Type 1 where
  pub Bucket : Type 0 → Type 0
  pub rows : (V : Type 0) → Bucket V → List (String × V)
  pub faulty : (V : Type 0) → Bucket V → Bool
  -- the calls
  pub find : (V : Type 0) → (V → Bool) → Bucket V → Result (List V)
  pub find_one : (V : Type 0) → (V → Bool) → Bucket V → Result V
  pub insert : (V : Type 0) → String → V → Bucket V → Result (Bucket V)
  pub update : (V : Type 0) → String → V → Bucket V → Result (Bucket V)
  pub delete : (V : Type 0) → String → Bucket V → Result (Bucket V)
  -- the bucket after a call that succeeds
  pub inserted : (V : Type 0) → String → V → Bucket V → Bucket V
  pub updated : (V : Type 0) → String → V → Bucket V → Bucket V
  pub deleted : (V : Type 0) → String → Bucket V → Bucket V
  -- what the calls return
  pub find_lem :
      (V : Type 0) (p : V → Bool) (b : Bucket V)
      → find V p b ≡ (if faulty V b then err plain else ok (matching p (rows V b)))
  pub find_one_lem :
      (V : Type 0) (p : V → Bool) (b : Bucket V)
      → find_one V p b ≡ (
          if faulty V b
          then err plain
          else first_or (matching p (rows V b)) (sentinel bolt_not_found))
  pub insert_lem :
      (V : Type 0) (k : String) (v : V) (b : Bucket V)
      → insert V k v b ≡ (
          if faulty V b
          then err plain
          else if has_key k (rows V b)
          then err (sentinel bolt_key_exists)
          else ok (inserted V k v b))
  pub update_lem :
      (V : Type 0) (k : String) (v : V) (b : Bucket V)
      → update V k v b ≡ (
          if faulty V b
          then err plain
          else if has_key k (rows V b)
          then ok (updated V k v b)
          else err (sentinel bolt_not_found))
  pub delete_lem :
      (V : Type 0) (k : String) (b : Bucket V)
      → delete V k b ≡ (
          if faulty V b
          then err plain
          else if has_key k (rows V b)
          then ok (deleted V k b)
          else err (sentinel bolt_not_found))
  -- a new row stands at some place among the old ones
  pub inserted_rows :
      (V : Type 0) (k : String) (v : V) (b : Bucket V)
      → (l : List (String × V)) × (r : List (String × V)) × (rows V b ≡ l ++ r)
        × (rows V (inserted V k v b) ≡ l ++ (k, v) ∷ r)
  pub updated_rows :
      (V : Type 0) (k : String) (v : V) (b : Bucket V)
      → rows V (updated V k v b) ≡ replaced k v (rows V b)
  pub deleted_rows :
      (V : Type 0) (k : String) (b : Bucket V) → rows V (deleted V k b) ≡ without k (rows V b)
