-- ===== src/Manager.antt =====
-- worker/manager/: the manager, which keeps the database and the kernel module in step. What the
-- kernel module and the packages for texts answer is an argument.
pub mod Changes
pub mod Closed
pub mod Creation
pub mod Disks
pub mod Host
pub mod Kept
pub mod Linked
pub mod Locations
pub mod Mappings
pub mod MessageLoop
pub mod Registry
pub mod Removal
pub mod Request
pub mod Responses
pub mod Startup
pub mod State
pub mod Stores
pub mod Tidy
pub mod Volumes
use coriolis_snapshot_agent.Common.{ℕ, List, [], ◌∷◌, String}
use coriolis_snapshot_agent.Result.{Result, ok, Action}

-- `uuid.UUID.String`, `uuid.Parse`, `fmt.Sprintf` of a number, `strconv.ParseUint` and `path.Base`.
pub record Texts : Type 0 where
  pub uuid_string : List ℕ → String
  pub uuid_parse : String → Result (List ℕ)
  pub format_uint : ℕ → String
  pub parse_uint : String → Result ℕ
  pub base : String → String

module _ {S : Type 0} where
  -- An error that is only written to the log.
  abbrev pub logged : {A : Type 0} → Action S A → Action S (Unit {0})
  logged m s = let (r, s') = m s in (ok tt, s')

  -- `for _, a := range as { … }`, where the body cannot return.
  abbrev pub each_logged : {A B : Type 0} → (A → Action S B) → List A → Action S (Unit {0})
  each_logged f [] s = (ok tt, s)
  each_logged f (a ∷ rest) s = let (r, s') = f a s in each_logged f rest s'
