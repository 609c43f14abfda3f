-- ===== src/Manager/Startup.antt =====
-- worker/manager/initialization.go, and `NewManager` of worker/manager/manager.go: how the manager
-- comes up, from the configuration and the database.
pub mod Populated
pub mod Quiet
pub mod Unwound
use coriolis_snapshot_agent.Common.{ℕ, Bool, true, false, List, [], ◌∷◌, String, if◌then◌else◌}
use coriolis_snapshot_agent.Errors.{conflict, any_of, fs_not_exist, this, is, wrap}
use coriolis_snapshot_agent.Result.{
  Result, ok, err, Action, wrapped, pure, raise, lift, attempt, wrapping, on_error, ◌>>=◌, ◌>>◌,
}
use coriolis_snapshot_agent.Bolthold.{Bolthold}
use coriolis_snapshot_agent.Config.{Config, ConfigHost, StoreMapping, validate}
use coriolis_snapshot_agent.Storage.{BlockVolume}
use coriolis_snapshot_agent.Db.Models.{SnapStore}
use coriolis_snapshot_agent.Db.Stores.{list_snap_stores}
use coriolis_snapshot_agent.Manager.{Texts, logged}
use coriolis_snapshot_agent.Manager.State.{
  Agent, Kernel, View, in_db, on_disk, made_dir, removed_tree, removed_file,
}
use coriolis_snapshot_agent.Manager.Host.{Host, asked_now, done_now}
use coriolis_snapshot_agent.Manager.Disks.{list_disks, add_tracked_disk}
use coriolis_snapshot_agent.Manager.Locations.{add_snap_store_location}
use coriolis_snapshot_agent.Manager.Mappings.{MappingRequest, add_mapping}
use coriolis_snapshot_agent.Manager.Stores.{watch_store}

-- `if !errors.Is(err, &vErrors.ConflictError{}) { return err }`
abbrev pub unless_conflict : {A : Type 0} → Result A → Result (Unit {0})
unless_conflict (ok a) = ok tt
unless_conflict (err e) = if is e (any_of conflict) then ok tt else err (wrap e)

module _ ⦃bolt : Bolthold⦄ (host : Host) where
  unfoldable pub remove_names : String → List String → Action Agent (Unit {0})
  remove_names dir [] = pure tt
  remove_names dir (n ∷ ns) = do
    wrapping
        (done_now host (removed_tree (host.join dir n)) (λ out. out.remove_all (host.join dir n)))
    remove_names dir ns

  unfoldable pub clean_one : String → Result (Unit {0}) → Action Agent (Unit {0})
  unfolding remove_names
  clean_one dir (ok a) = do names ← lift (wrapped (host.read_dir dir)); remove_names dir names
  clean_one dir (err e) =
      if is e (this fs_not_exist)
      then wrapping (done_now host (made_dir dir) (λ out. out.mkdir_all dir))
      else raise (wrap e)

  -- `cleanStorage`, over the destinations of the configuration.
  unfoldable pub clean_storage : List String → Action Agent (Unit {0})
  unfolding clean_one
  clean_storage [] = pure tt
  clean_storage (dir ∷ dirs) = do
    found ← attempt (asked_now host (λ out. out.stat dir))
    clean_one dir found
    clean_storage dirs

  unfoldable pub add_location : String → Action Agent (Unit {0})
  unfolding add_snap_store_location
  add_location path = do
    added ← attempt (in_db (add_snap_store_location host path))
    lift (unless_conflict added)

  -- `addSnapStoreFilesLocations`
  unfoldable pub add_locations : List String → Action Agent (Unit {0})
  unfolding add_location
  add_locations [] = pure tt
  add_locations (path ∷ paths) = do add_location path; add_locations paths

  module _ (config : Config) (texts : Texts) where
    unfoldable pub watch_parsed : SnapStore → Action Agent (Unit {0})
    watch_parsed store = do
      id ← lift (wrapped (texts.uuid_parse store.snap_store_id))
      watch_store host config texts id store

    -- The loop of `PopulateSnapStoreWatcher`.
    unfoldable pub watch_stores : List SnapStore → Action Agent (Unit {0})
    unfolding watch_parsed
    watch_stores [] = pure tt
    watch_stores (store ∷ stores) = do watch_parsed store; watch_stores stores

    -- `PopulateSnapStoreWatcher`
    unfoldable pub populate_watchers : Action Agent (Unit {0})
    unfolding list_snap_stores
    populate_watchers = do stores ← wrapping (in_db list_snap_stores); watch_stores stores

    -- `new_id` is the id that a mapping of a device gets.
    unfoldable pub map_device : (String → String) → StoreMapping → Action Agent (Unit {0})
    unfolding add_mapping
    map_device new_id m = do
      added ← attempt (
          in_db (
            add_mapping (new_id m.device)
              (record { snap_store_location = m.location; tracked_disk = m.device })))
      lift (unless_conflict added)

    -- The loop of `initStorageMappings`.
    unfoldable pub add_mappings : (String → String) → List StoreMapping → Action Agent (Unit {0})
    unfolding map_device
    add_mappings new_id [] = pure tt
    add_mappings new_id (m ∷ ms) = do map_device new_id m; add_mappings new_id ms

    -- `initStorageMappings`
    unfoldable pub init_storage_mappings : (String → String) → Action Agent (Unit {0})
    init_storage_mappings new_id =
        if config.auto_init_physical_disks
        then add_mappings new_id config.snap_store_mappings
        else pure tt

    module _ (kernel : Kernel) (view : View) where
      unfoldable pub add_disks : List BlockVolume → Action Agent (Unit {0})
      add_disks [] = pure tt
      add_disks (v ∷ vs) = do
        info ← wrapping (add_tracked_disk host config texts kernel view v.path)
        add_disks vs

      -- `initTrackedDisks`
      unfoldable pub init_tracked_disks : (String → String) → Action Agent (Unit {0})
      unfolding list_disks
      init_tracked_disks new_id =
          if config.auto_init_physical_disks
          then (do
            disks ← lift (wrapped (list_disks host config false false))
            add_disks disks
            wrapping (init_storage_mappings new_id))
          else pure tt

      -- What `NewManager` does in any case.
      unfoldable pub bring_up : (String → String) → Action Agent (Unit {0})
      bring_up new_id = do
        wrapping (add_locations config.cow_destination)
        wrapping (init_tracked_disks new_id)
        wrapping populate_watchers

      unfoldable pub clean_start : (String → String) → Action Agent (Unit {0})
      unfolding clean_storage
      clean_start new_id = do wrapping (clean_storage config.cow_destination); bring_up new_id

      -- A database file that was not there is removed again if the manager does not come up.
      unfoldable pub first_start : (String → String) → Action Agent (Unit {0})
      first_start new_id =
          on_error
            (logged (on_disk (removed_file config.db_file) (host.remove_file config.db_file)))
            (clean_start new_id)

      abbrev pub needs_init : Result (Unit {0}) → Result Bool
      needs_init (ok a) = ok false
      needs_init (err e) = if is e (this fs_not_exist) then ok true else err (wrap e)

      -- `NewManager`, for the answer of `db.NewDatabase`: the state holds the database it opens.
      unfoldable pub new_manager :
          ConfigHost → Result (Unit {0}) → (String → String) → Action Agent (Unit {0})
      unfolding validate
      new_manager checks open_database new_id = do
        lift (validate checks config)
        found ← attempt (asked_now host (λ out. out.stat config.db_file))
        init ← lift (needs_init found)
        lift (wrapped open_database)
        if init then first_start new_id else bring_up new_id
