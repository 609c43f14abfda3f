-- ===== src/Manager/Locations/Listing.antt =====
-- worker/manager/snapstore_locations.go: the list of the locations has room for those configured only.
use coriolis_snapshot_agent.Common.{
  ℕ, zero, suc, ◌<◌, ◌≡◌, true, false, List, [], ◌∷◌, ◌==◌, arith, length, All,
}
use coriolis_snapshot_agent.Errors.{panicked}
use coriolis_snapshot_agent.Result.{ok, err}
use coriolis_snapshot_agent.Bolthold.{Bolthold, matching}
use coriolis_snapshot_agent.Config.{Config}
use coriolis_snapshot_agent.Storage.Files.{FileSystemInfo, file_system_info}
use coriolis_snapshot_agent.Db.Models.{SnapStoreFilesLocation, SnapStoreFile}
use coriolis_snapshot_agent.Db.Connection.{Database}
use coriolis_snapshot_agent.Manager.Host.{Host}
use coriolis_snapshot_agent.Manager.Locations.{fill_entries, list_locations}

module _ ⦃bolt : Bolthold⦄ (host : Host) where
  open bolt use {rows, faulty, find_lem}

  -- The file system of a location can be read.
  abbrev pub IsReadable : SnapStoreFilesLocation → Type 0
  IsReadable l = (info : FileSystemInfo) × (file_system_info (host.statfs l.path) ≡ ok info)

  fill_entries-overrun :
      (n : ℕ) (ls : List SnapStoreFilesLocation) (d : Database)
      → faulty SnapStoreFile d.files ≡ false
      → All IsReadable ls
      → n < length ls
      → fill_entries host n ls d ≡ (err panicked, d)
  unfolding fill_entries
  fill_entries-overrun n [] d f h lt = absurd (omega arith)
  fill_entries-overrun zero (l ∷ ls) d f ((info, e), h) lt =
      ground (arith, e, f, find_lem SnapStoreFile (λ x. x.location.path == l.path) d.files)
  fill_entries-overrun (suc n) (l ∷ ls) d f ((info, e), h) lt = ground (
    arith,
    e,
    f,
    find_lem SnapStoreFile (λ x. x.location.path == l.path) d.files,
    fill_entries-overrun n ls d f h (omega arith),
  )

  -- When the database holds more locations than the configuration has destinations, as after a
  -- destination was taken out of the configuration, the listing panics.
  pub list_locations_overrun :
      (config : Config) (d : Database)
      → faulty SnapStoreFile d.files ≡ false
      → faulty SnapStoreFilesLocation d.locations ≡ false
      → All IsReadable (matching (λ l. true) (rows SnapStoreFilesLocation d.locations))
      → length config.cow_destination
        < length (matching (λ l. true) (rows SnapStoreFilesLocation d.locations))
      → list_locations host config d ≡ (err panicked, d)
  unfolding list_locations
  list_locations_overrun config d f g h lt = ground (
    arith,
    g,
    find_lem SnapStoreFilesLocation (λ l. true) d.locations,
    fill_entries-overrun (length config.cow_destination)
        (matching (λ l. true) (rows SnapStoreFilesLocation d.locations)) d f h lt,
  )
