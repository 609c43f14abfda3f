-- ===== src/Manager/Registry.antt =====
-- worker/manager/: what the manager promises of mappings and snap stores, without buckets and rows. A
-- disk may be mapped to a place, and a disk that is mapped may hold a snap store at its place.
pub mod Refined
pub mod Rules
pub mod Abstraction
use coriolis_snapshot_agent.Common.{
  ◌≡◌, Bool, true, false, List, [], ◌∷◌, String, Option, none, some, ◌==◌, if◌then◌else◌,
}

-- The id of a snap store, and where its files lie.
pub record Held : Type 0 where
  pub id : String
  pub place : String

-- For each disk the place that it is mapped to, and the snap store that it holds.
pub record Registry : Type 0 where
  pub mapping_of : String → Option String
  pub store_of : String → Option Held

module _ {ℓ} {A : Type ℓ} where
  abbrev pub update : (String → Option A) → String → A → String → Option A
  update f disk a k = if disk == k then some a else f k

abbrev pub dropped : String → Option Held → Option Held
dropped id none = none
dropped id (some h) = if h.id == id then none else some h

-- What may happen to a registry.
pub data Change (r r' : Registry) : Type 0 where
  map_disk :
      (disk place : String)
      → r.mapping_of disk ≡ none
      → r' ≡ record r { mapping_of = update r.mapping_of disk place }
      → Change r r'
  add_store :
      (disk id place : String)
      → r.mapping_of disk ≡ some place
      → r.store_of disk ≡ none
      → r' ≡ record r { store_of = update r.store_of disk (record { id = id; place = place }) }
      → Change r r'
  drop_store :
      (id : String) → r' ≡ record r { store_of = λ k. dropped id (r.store_of k) } → Change r r'

pub data Changes (r : Registry) : Registry → Type 0 where
  done : Changes r r
  further : {s t : Registry} → Changes r s → Change s t → Changes r t
