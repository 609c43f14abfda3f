-- ===== src/Tests/Snapstores.antt =====
-- Examples for the snap stores and the requests for snapshots.
use coriolis_snapshot_agent.Wire.Buffer.{filled, write, for_each}
use coriolis_snapshot_agent.Wire.{serialize_initiate}
use coriolis_snapshot_agent.Common.{◌≡◌, refl, [], ◌∷◌, ◌++◌, List, inl}
use coriolis_snapshot_agent.Errors.{plain, sentinel, fs_not_exist, wrap, typed, conflict, is}
use coriolis_snapshot_agent.Result.{ok, err, Result}
use coriolis_snapshot_agent.Bolthold.Memory.{memory}
use coriolis_snapshot_agent.Watcher.{Watcher, Outside}
use coriolis_snapshot_agent.Watcher.Start.{new_watcher, fresh, start}
use coriolis_snapshot_agent.Db.Models.{SnapStore, VolumeSnapshot}
use coriolis_snapshot_agent.Db.Snapshots.{list_snapshots_for_disk}
use coriolis_snapshot_agent.Manager.State.{
  Agent, made_dir, removed_tree, DiskOp, View, snapshot_create, snapshot_delete, snap_store_cleanup,
}
use coriolis_snapshot_agent.Manager.Host.{Host}
use coriolis_snapshot_agent.Manager.Stores.{make_snap_store, watcher_params, store_path}
use coriolis_snapshot_agent.Manager.Stores.Failures.{
  IsStorable, IsUnmade, row, make_snap_store_leaks, make_snap_store_cleans,
}
use coriolis_snapshot_agent.Manager.Request.{DiskRequest, ensure_snap_store, request_snapshot}
use coriolis_snapshot_agent.Manager.Request.Release.{IsPrepared, request_snapshot_releases}
use coriolis_snapshot_agent.Manager.Creation.{Target}
use coriolis_snapshot_agent.Manager.Creation.Release.{cleanup_calls, IsCreated, IsUnreadable}
use coriolis_snapshot_agent.Manager.Request.{
  target, refuse_taken, make_targets, ensured, fill_store,
}
use coriolis_snapshot_agent.Manager.Stores.{store_with_row}
use coriolis_snapshot_agent.Manager.State.{Call}
use coriolis_snapshot_agent.Types.{CbtInfo}
use coriolis_snapshot_agent.Wire.{serialize_next_portion}
use coriolis_snapshot_agent.Manager.Request.Refusal.{request_snapshot_refused, IsTaken, IsUntaken}
use coriolis_snapshot_agent.Tests.Machine.{
  config, host, texts, kernel, view, sda_disk, cow, sda_mapping, mapped, with_db,
}
use coriolis_snapshot_agent.Tests.Samples.{granting, no_basedir, snapshot_of, sda_snapshot, dev}

abbrev agent : Agent ⦃bolt = memory⦄
agent = with_db mapped

abbrev store : SnapStore
store = row ⦃bolt = memory⦄ host config texts (9 ∷ []) sda_disk cow

storable : (h : Host) → IsStorable ⦃bolt = memory⦄ h config texts (9 ∷ []) "sda" sda_disk cow agent
storable h = record {
  mapping = sda_mapping;
  more_mappings = [];
  more_locations = [];
  more_disks = [];
  mapping_found = refl;
  location_found = refl;
  disk_found = refl;
  none_yet = refl;
  free = refl;
  mappings_readable = refl;
  locations_readable = refl;
  disks_readable = refl;
  stores_readable = refl;
  still_readable = refl;
}

-- The folder of a store is not there, and cannot be made.
abbrev no_folder : Host
no_folder = record host { outside = λ ops. record no_basedir { mkdir_all = λ p. err plain } }

no_folder-IsUnmade : IsUnmade ⦃bolt = memory⦄ no_folder config texts store []
unfolding store_path is
no_folder-IsUnmade = record {
  named = refl;
  stat_error = sentinel fs_not_exist;
  missing = refl;
  missing_kind = refl;
}

make_snap_store_leaks_example :
    let (r, t) = make_snap_store ⦃bolt = memory⦄ no_folder config texts (9 ∷ []) "sda" agent in
    (r ≡ err (wrap plain))
    × (t.watchers ≡ [])
    × (make_snap_store ⦃bolt = memory⦄ no_folder config texts (7 ∷ []) "sda" t
        ≡ (err (typed conflict), t))
make_snap_store_leaks_example =
    make_snap_store_leaks ⦃bolt = memory⦄ no_folder config texts (9 ∷ []) (7 ∷ []) "sda" sda_disk
      cow agent plain (storable no_folder) no_folder-IsUnmade refl

-- The folder can be made, but the device of the kernel module cannot be opened.
abbrev no_device : Host
no_device = record host { outside = λ ops. no_basedir; open_device = err plain }

no_device-IsUnmade : IsUnmade ⦃bolt = memory⦄ no_device config texts store []
unfolding store_path is
no_device-IsUnmade = record {
  named = refl;
  stat_error = sentinel fs_not_exist;
  missing = refl;
  missing_kind = refl;
}

unopened :
    new_watcher no_device.open_device
      (no_device.outside (made_dir "/cow/id" ∷ []))
      (watcher_params ⦃bolt = memory⦄ no_device config texts (9 ∷ []) store)
    ≡ err (wrap plain)
unfolding new_watcher
unopened = refl

make_snap_store_cleans_example :
    let (r, t) = make_snap_store ⦃bolt = memory⦄ no_device config texts (9 ∷ []) "sda" agent in
    (r ≡ err (wrap (wrap plain)))
    × (t.db.snap_stores ≡ [])
    × (t.watchers ≡ [])
    × (t.disk_ops
        ≡ []
          ++ made_dir (store_path no_device store) ∷ []
          ++ removed_tree (store_path no_device store) ∷ [])
make_snap_store_cleans_example =
    make_snap_store_cleans ⦃bolt = memory⦄ no_device config texts (9 ∷ []) "sda" sda_disk cow agent
      (wrap plain) (storable no_device) no_device-IsUnmade refl unopened

-- A folder is not there before it is made.
abbrev once_made : Outside → List DiskOp → Outside
once_made out [] = record out { stat = λ p. err (sentinel fs_not_exist) }
once_made out (op ∷ ops) = out

-- A new snap store gets its folder and its first file.
abbrev empty_disk : Host
empty_disk = record host { outside = once_made granting }

filled_store :
    let (r, t) = ensure_snap_store ⦃bolt = memory⦄ empty_disk config texts (9 ∷ []) "sda" agent in
    (r ≡ ok store) × (t.disk_ops ≡ made_dir "/cow/id" ∷ [])
unfolding ensure_snap_store ensured is make_snap_store store_with_row serialize_initiate filled
    write for_each fill_store serialize_next_portion
filled_store = (refl, refl)

-- The watcher of a store starts in its new folder, but there is no room for the first file.
abbrev full_disk : Host
full_disk = record host { outside = once_made (record granting { bytes_free = λ p. ok 0 }) }

abbrev sda_watcher : Watcher
sda_watcher =
    record (fresh (watcher_params ⦃bolt = memory⦄ full_disk config texts (9 ∷ []) store)) {
      written =
          (start (full_disk.outside (made_dir "/cow/id" ∷ [])) (
            fresh
              (watcher_params ⦃bolt = memory⦄ full_disk config texts (9 ∷ []) store))).1.written;
    }

abbrev ask : DiskRequest
ask = record { disk = "sda"; store_id = 9 ∷ []; volume_id = "v"; image_id = "i" }

abbrev snapped : VolumeSnapshot
snapped = record sda_snapshot { original_device = sda_disk }

abbrev taken : Agent ⦃bolt = memory⦄
taken = with_db (record mapped {
  volume_snapshots = ("v1", snapped) ∷ [];
  snapshots = ("1", snapshot_of "1" (snapped ∷ [])) ∷ [];
})

sda-IsTaken : IsTaken ⦃bolt = memory⦄ ask taken
unfolding list_snapshots_for_disk
sda-IsTaken = (snapshot_of "1" (snapped ∷ []), [], refl)

sdb-IsUntaken : IsUntaken ⦃bolt = memory⦄ (record ask { disk = "sdb" }) taken
unfolding list_snapshots_for_disk
sdb-IsUntaken = refl

request_snapshot_refused_example :
    request_snapshot ⦃bolt = memory⦄ host config texts kernel view
      (record ask { disk = "sdb" } ∷ ask ∷ [])
      taken
    ≡ (err (typed conflict), taken)
request_snapshot_refused_example =
    request_snapshot_refused ⦃bolt = memory⦄ host config texts kernel view
      (record ask { disk = "sdb" } ∷ []) [] ask taken (sdb-IsUntaken, tt) sda-IsTaken

-- The kernel module can be asked before the snapshot and not after it.
abbrev blind : List Call → Result (List CbtInfo)
blind [] = ok []
blind (c ∷ calls) = err plain

abbrev blind_view : View
blind_view = record view { cbt_info = blind }

-- The agent when the snap store of the request was made.
abbrev supplied : Agent ⦃bolt = memory⦄
supplied = (ensure_snap_store ⦃bolt = memory⦄ empty_disk config texts (9 ∷ []) "sda" agent).1

abbrev sda_targets : List Target
sda_targets = target ⦃bolt = memory⦄ empty_disk config texts ask store sda_disk ∷ []

prepared :
    IsPrepared ⦃bolt = memory⦄ empty_disk config texts kernel blind_view
      (ask ∷ [])
      sda_targets
      agent
      supplied
unfolding refuse_taken make_targets ensure_snap_store ensured is make_snap_store store_with_row
    serialize_initiate filled write for_each fill_store serialize_next_portion
prepared = record { then_free = agent; untaken = refl; made = refl }

supplied-IsCreated : IsCreated ⦃bolt = memory⦄ texts kernel blind_view sda_targets supplied [] [] 4
unfolding ensure_snap_store ensured is make_snap_store store_with_row serialize_initiate filled
    write for_each fill_store serialize_next_portion
supplied-IsCreated = record { pre_read = refl; before_read = refl; made = refl }

supplied-IsUnreadable :
    IsUnreadable ⦃bolt = memory⦄ texts kernel blind_view sda_targets supplied plain
unfolding IsUnreadable ensure_snap_store ensured is make_snap_store store_with_row
    serialize_initiate filled write for_each fill_store serialize_next_portion
supplied-IsUnreadable = inl refl

request_snapshot_releases_example :
    request_snapshot ⦃bolt = memory⦄ empty_disk config texts kernel blind_view (ask ∷ []) agent ≡ (
      err (wrap plain),
      record supplied {
        calls = snapshot_create (dev 0 ∷ []) ∷ snapshot_delete 4 ∷ snap_store_cleanup (9 ∷ []) ∷ [];
      },
    )
unfolding cleanup_calls ensure_snap_store ensured is make_snap_store store_with_row
    serialize_initiate filled write for_each fill_store serialize_next_portion
request_snapshot_releases_example =
    request_snapshot_releases ⦃bolt = memory⦄ empty_disk config texts kernel blind_view (ask ∷ [])
      sda_targets agent supplied [] [] 4 plain prepared supplied-IsCreated supplied-IsUnreadable
