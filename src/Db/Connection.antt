-- ===== src/Db/Connection.antt =====
-- The connection of db/db.go to its store: one bucket for each type, and the calls of
-- `*bolthold.Store`, each on the bucket of its type.
use coriolis_snapshot_agent.Common.{Bool, List, String, if◌then◌else◌}
use coriolis_snapshot_agent.Errors.{typed, wrap, not_found, this, bolt_not_found, is}
use coriolis_snapshot_agent.Result.{Result, ok, err, Action}
use coriolis_snapshot_agent.Bolthold.{Bolthold}
use coriolis_snapshot_agent.Db.Models.{
  TrackedDisk, SnapStoreFilesLocation, SnapStore, SnapStoreMapping, SnapStoreFile, SnapshotImage,
  VolumeSnapshot, Snapshot,
}

module _ ⦃bolt : Bolthold⦄ where
  open bolt use {Bucket, find, find_one, insert, update, delete}

  pub record Database : Type 0 where
    pub tracked_disks : Bucket TrackedDisk
    pub locations : Bucket SnapStoreFilesLocation
    pub snap_stores : Bucket SnapStore
    pub mappings : Bucket SnapStoreMapping
    pub files : Bucket SnapStoreFile
    pub images : Bucket SnapshotImage
    pub volume_snapshots : Bucket VolumeSnapshot
    pub snapshots : Bucket Snapshot

  -- Where the bucket of a type stands.
  pub record Table (V : Type 0) : Type 0 where
    pub bucket : Database → Bucket V
    pub with_bucket : Bucket V → Database → Database

  abbrev pub disks_table : Table TrackedDisk
  disks_table = record {
    bucket = λ d. d.tracked_disks;
    with_bucket = λ b d. record d { tracked_disks = b };
  }

  abbrev pub locations_table : Table SnapStoreFilesLocation
  locations_table = record {
    bucket = λ d. d.locations;
    with_bucket = λ b d. record d { locations = b };
  }

  abbrev pub stores_table : Table SnapStore
  stores_table = record {
    bucket = λ d. d.snap_stores;
    with_bucket = λ b d. record d { snap_stores = b };
  }

  abbrev pub mappings_table : Table SnapStoreMapping
  mappings_table = record {
    bucket = λ d. d.mappings;
    with_bucket = λ b d. record d { mappings = b };
  }

  abbrev pub files_table : Table SnapStoreFile
  files_table = record { bucket = λ d. d.files; with_bucket = λ b d. record d { files = b } }

  abbrev pub images_table : Table SnapshotImage
  images_table = record { bucket = λ d. d.images; with_bucket = λ b d. record d { images = b } }

  abbrev pub volume_snapshots_table : Table VolumeSnapshot
  volume_snapshots_table = record {
    bucket = λ d. d.volume_snapshots;
    with_bucket = λ b d. record d { volume_snapshots = b };
  }

  abbrev pub snapshots_table : Table Snapshot
  snapshots_table = record {
    bucket = λ d. d.snapshots;
    with_bucket = λ b d. record d { snapshots = b };
  }

  abbrev pub changed :
      {V : Type 0} → Table V → Database → Result (Bucket V) → Result (Unit {0}) × Database
  changed t d (ok b) = (ok tt, t.with_bucket b d)
  changed t d (err e) = (err e, d)

  module _ {V : Type 0} (t : Table V) where
    -- `d.con.Find`, `d.con.FindOne`
    abbrev pub con_find : (V → Bool) → Action Database (List V)
    con_find p d = (find V p (t.bucket d), d)

    abbrev pub con_find_one : (V → Bool) → Action Database V
    con_find_one p d = (find_one V p (t.bucket d), d)

    -- `d.con.Insert`, `d.con.Update`, `d.con.Delete`: a call that fails changes nothing.
    abbrev pub con_insert : String → V → Action Database (Unit {0})
    con_insert k v d = changed t d (insert V k v (t.bucket d))

    abbrev pub con_update : String → V → Action Database (Unit {0})
    con_update k v d = changed t d (update V k v (t.bucket d))

    abbrev pub con_delete : String → Action Database (Unit {0})
    con_delete k d = changed t d (delete V k (t.bucket d))

  -- The Go functions turn bolthold's `ErrNotFound` into the type of errors.go, and wrap the rest.
  abbrev pub translated {ℓ} : {A : Type ℓ} → Result A → Result A
  translated (ok a) = ok a
  translated (err e) = if is e (this bolt_not_found) then err (typed not_found) else err (wrap e)

  abbrev pub or_not_found : {A : Type 0} → Action Database A → Action Database A
  or_not_found m d = let (r, d') = m d in (translated r, d')

  -- `if !errors.Is(err, bolthold.ErrNotFound) { return err }`: a missing row is no error.
  abbrev pub tolerant : Result (Unit {0}) → Result (Unit {0})
  tolerant (ok a) = ok a
  tolerant (err e) = if is e (this bolt_not_found) then ok tt else err (wrap e)

  abbrev pub or_missing : Action Database (Unit {0}) → Action Database (Unit {0})
  or_missing m d = let (r, d') = m d in (tolerant r, d')
