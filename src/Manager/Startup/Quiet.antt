-- ===== src/Manager/Startup/Quiet.antt =====
-- worker/manager/initialization.go: the parts of the start that ask nothing of the disk.
use coriolis_snapshot_agent.Common.{
  ℕ, ◌≡◌, refl, ◌∙◌, Bool, true, false, List, [], ◌∷◌, String, if◌then◌else◌,
}
use coriolis_snapshot_agent.Result.{Result, ok, err, Action, pure, lift, attempt, wrapping, ◌>>=◌}
use coriolis_snapshot_agent.Bolthold.{Bolthold}
use coriolis_snapshot_agent.Config.{Config, StoreMapping}
use coriolis_snapshot_agent.Storage.{BlockVolume}
use coriolis_snapshot_agent.Types.{DevId, CbtInfo}
use coriolis_snapshot_agent.Watcher.{Watcher}
use coriolis_snapshot_agent.Db.Models.{SnapStore, TrackedDisk}
use coriolis_snapshot_agent.Db.Connection.{Database}
use coriolis_snapshot_agent.Manager.{Texts}
use coriolis_snapshot_agent.Manager.State.{Agent, Kernel, View, in_db, kernel_add, record_watcher}
use coriolis_snapshot_agent.Manager.Host.{Host}
use coriolis_snapshot_agent.Manager.Disks.{add_tracked_disk, ensure_tracking, ensure_row}
use coriolis_snapshot_agent.Manager.Stores.{watch_store}
use coriolis_snapshot_agent.Manager.Startup.{
  add_locations, watch_stores, populate_watchers, add_mappings, init_storage_mappings, add_disks,
  init_tracked_disks, bring_up, watch_parsed, add_location, map_device,
}

module _ ⦃bolt : Bolthold⦄ where
  -- Nothing was asked of the disk.
  pub record SameDisk {A : Type 0} (m : Action Agent A) : Type 0 where
    pub step : (s : Agent) → ((m s).1).disk_ops ≡ s.disk_ops

  module _ {A : Type 0} where
    SameDisk-lift : (r : Result A) → SameDisk (lift r)
    SameDisk-lift r = record { step = λ s. refl }

    SameDisk-pure : (a : A) → SameDisk (pure a)
    SameDisk-pure a = record { step = λ s. refl }

    SameDisk-read : (f : Agent → Result A) → SameDisk {A = A} (λ s. (f s, s))
    SameDisk-read f = record { step = λ s. refl }

    SameDisk-wrapping : (m : Action Agent A) → SameDisk m → SameDisk (wrapping m)
    SameDisk-wrapping m h = record { step = h.step }

    SameDisk-attempt : (m : Action Agent A) → SameDisk m → SameDisk (attempt m)
    SameDisk-attempt m h = record { step = h.step }

    SameDisk-in_db : (m : Action Database A) → SameDisk (in_db m)
    SameDisk-in_db m = record { step = λ s. refl }

    SameDisk-if :
        (b : Bool) (m k : Action Agent A) → SameDisk m → SameDisk k → SameDisk (if b then m else k)
    SameDisk-if true m k h i = h
    SameDisk-if false m k h i = i

  SameDisk-record_watcher : (id : String) (w : Watcher) → SameDisk (record_watcher id w)
  unfolding record_watcher
  SameDisk-record_watcher id w = record { step = λ s. refl }

  SameDisk-kernel_add : (kernel : Kernel) (dev : DevId) → SameDisk (kernel_add kernel dev)
  SameDisk-kernel_add kernel dev = record { step = λ s. refl }

  disk-then :
      {A B : Type 0} (t : Agent) (f : A → Action Agent B) (r : Result A)
      → ((a : A) → ((f a t).1).disk_ops ≡ t.disk_ops)
      → (((lift r >>= f) t).1).disk_ops ≡ t.disk_ops
  disk-then t f (ok a) k = k a
  disk-then t f (err e) k = refl

  SameDisk-bind :
      {A B : Type 0} (m : Action Agent A) (f : A → Action Agent B)
      → SameDisk m
      → ((a : A) → SameDisk (f a))
      → SameDisk (m >>= f)
  SameDisk-bind m f h k = record {
    step = λ s. disk-then ((m s).1) f ((m s).0) (λ a. (k a).step ((m s).1)) ∙ h.step s;
  }

  ruleset quiet = (
    SameDisk-lift, SameDisk-pure, SameDisk-read, SameDisk-wrapping, SameDisk-attempt,
    SameDisk-in_db, SameDisk-if, SameDisk-record_watcher, SameDisk-kernel_add, SameDisk-bind,
  )

  module _ (host : Host) (config : Config) (texts : Texts) where
    SameDisk-watch_store :
        (id : List ℕ) (store : SnapStore) → SameDisk (watch_store host config texts id store)
    unfolding watch_store
    SameDisk-watch_store id store = search (quiet) depth 24

    SameDisk-watch_parsed : (store : SnapStore) → SameDisk (watch_parsed host config texts store)
    unfolding watch_parsed
    SameDisk-watch_parsed store = search (quiet, SameDisk-watch_store) depth 24

    SameDisk-watch_stores :
        (stores : List SnapStore) → SameDisk (watch_stores host config texts stores)
    unfolding watch_stores
    SameDisk-watch_stores [] = SameDisk-pure tt
    SameDisk-watch_stores (store ∷ stores) =
        SameDisk-bind _ _ (SameDisk-watch_parsed store) (λ a. SameDisk-watch_stores stores)

    SameDisk-add_location : (path : String) → SameDisk (add_location host path)
    unfolding add_location
    SameDisk-add_location path = search (quiet) depth 24

    SameDisk-add_locations : (paths : List String) → SameDisk (add_locations host paths)
    unfolding add_locations
    SameDisk-add_locations [] = SameDisk-pure tt
    SameDisk-add_locations (path ∷ paths) =
        SameDisk-bind _ _ (SameDisk-add_location path) (λ a. SameDisk-add_locations paths)

    SameDisk-map_device :
        (new_id : String → String) (m : StoreMapping)
        → SameDisk (map_device host config texts new_id m)
    unfolding map_device
    SameDisk-map_device new_id m = search (quiet) depth 24

    SameDisk-add_mappings :
        (new_id : String → String) (ms : List StoreMapping)
        → SameDisk (add_mappings host config texts new_id ms)
    unfolding add_mappings
    SameDisk-add_mappings new_id [] = SameDisk-pure tt
    SameDisk-add_mappings new_id (m ∷ ms) =
        SameDisk-bind _ _ (SameDisk-map_device new_id m) (λ a. SameDisk-add_mappings new_id ms)

    module _ (kernel : Kernel) (view : View) where
      SameDisk-ensure_tracking :
          (v : BlockVolume) (infos : List CbtInfo)
          → SameDisk (ensure_tracking host config texts kernel view v infos)
      unfolding ensure_tracking
      SameDisk-ensure_tracking v infos = search (quiet) depth 24

      SameDisk-ensure_row :
          (v : BlockVolume) (d : TrackedDisk)
          → SameDisk (ensure_row host config texts kernel view v d)
      unfolding ensure_row
      SameDisk-ensure_row v d = search (quiet) depth 24

      SameDisk-add_tracked_disk :
          (path : String) → SameDisk (add_tracked_disk host config texts kernel view path)
      unfolding add_tracked_disk
      SameDisk-add_tracked_disk path =
          search (quiet, SameDisk-ensure_tracking, SameDisk-ensure_row) depth 32

      SameDisk-add_disks :
          (vs : List BlockVolume) → SameDisk (add_disks host config texts kernel view vs)
      unfolding add_disks
      SameDisk-add_disks [] = SameDisk-pure tt
      SameDisk-add_disks (v ∷ vs) =
          SameDisk-bind _ _ (SameDisk-wrapping _ (SameDisk-add_tracked_disk v.path))
            (λ a. SameDisk-add_disks vs)

      SameDisk-init_storage_mappings :
          (new_id : String → String) → SameDisk (init_storage_mappings host config texts new_id)
      unfolding init_storage_mappings
      SameDisk-init_storage_mappings new_id = search (quiet, SameDisk-add_mappings) depth 24

      SameDisk-init_tracked_disks :
          (new_id : String → String)
          → SameDisk (init_tracked_disks host config texts kernel view new_id)
      unfolding init_tracked_disks
      SameDisk-init_tracked_disks new_id =
          search (quiet, SameDisk-add_disks, SameDisk-init_storage_mappings) depth 24

      SameDisk-populate_watchers : SameDisk (populate_watchers host config texts)
      unfolding populate_watchers
      SameDisk-populate_watchers = search (quiet, SameDisk-watch_stores) depth 24

      pub SameDisk-bring_up :
          (new_id : String → String) → SameDisk (bring_up host config texts kernel view new_id)
      unfolding bring_up
      SameDisk-bring_up new_id =
          search
            (quiet, SameDisk-add_locations, SameDisk-init_tracked_disks, SameDisk-populate_watchers)
            depth 24
