-- ===== src/Db.antt =====
-- db/: the database of the agent, a bucket of bolthold for each of its types.
pub mod Models
pub mod Connection
pub mod Disks
pub mod Stores
pub mod Snapshots
pub mod RoundTrip
pub mod Deletion
unfoldable pub use Models.*
unfoldable pub use Connection.*
unfoldable pub use Disks.*
unfoldable pub use Stores.*
unfoldable pub use Snapshots.*
