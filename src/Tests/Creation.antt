-- ===== src/Tests/Creation.antt =====
-- Examples for `CreateSnapshot`, on a bolthold in memory.
use coriolis_snapshot_agent.Common.{ℕ, ◌≡◌, refl, true, List, [], ◌∷◌, length, some}
use coriolis_snapshot_agent.Errors.{plain}
use coriolis_snapshot_agent.Result.{Result, ok, err, is_ok}
use coriolis_snapshot_agent.Types.{CbtInfo, ImageInfo}
use coriolis_snapshot_agent.Bolthold.Memory.{memory}
use coriolis_snapshot_agent.Db.Models.{no_disk, no_store}
use coriolis_snapshot_agent.Manager.{Texts}
use coriolis_snapshot_agent.Manager.State.{View, Agent, Call, Kernel, snapshot_create}
use coriolis_snapshot_agent.Db.Snapshots.{create_snapshot_image, create_volume_snapshot}
use coriolis_snapshot_agent.Manager.Volumes.{filter_cbt_info, new_image}
use coriolis_snapshot_agent.Manager.Creation.{Target, snap_volumes, take_snapshot}
use coriolis_snapshot_agent.Manager.Creation.Release.{IsCreated, asked, loop_failure_leaks}
use coriolis_snapshot_agent.Tests.Samples.{dev}

abbrev texts : Texts
texts = record {
  uuid_string = λ id. "id";
  uuid_parse = λ s. ok (9 ∷ []);
  format_uint = λ n. "4";
  parse_uint = λ s. ok 4;
  base = λ p. p;
}

abbrev kernel : Kernel
kernel = record {
  on_add = λ calls d. ok tt;
  on_add_file = λ calls id path. ok tt;
  on_create = λ calls devices. ok 4;
  on_delete = λ calls n. ok tt;
  on_cleanup = λ calls id. ok (some 0);
}

-- One CBT entry, whose number is that of the calls so far.
abbrev cbt : ℕ → List CbtInfo
cbt n =
    record {
      dev_id = dev 0;
      dev_capacity = 1000;
      cbt_map_size = 4;
      snap_number = n;
      generation_id = [];
    }
    ∷ []

abbrev images : List Call → List ImageInfo
images [] = []
images (c ∷ calls) = record { original_dev_id = dev 0; snapshot_dev_id = dev 99 } ∷ []

abbrev view : View
view = record {
  cbt_info = λ calls. ok (cbt (length calls));
  images = λ calls. ok (images calls);
  bitmap = λ calls d. ok (1 ∷ 0 ∷ []);
  device_node = λ d. ok "/dev/veeamimage0";
}

abbrev blind : List Call → Result (List CbtInfo)
blind [] = ok (cbt 0)
blind (c ∷ calls) = err plain

abbrev blind_view : View
blind_view = record view { cbt_info = blind }

abbrev no_node : View
no_node = record view { device_node = λ d. err plain }

abbrev targets : List Target
targets =
    record { dev = dev 0; disk = no_disk; store = no_store; volume_id = "v"; image_id = "i" } ∷ []

abbrev agent : Agent ⦃bolt = memory⦄
agent = record {
  db = record {
    tracked_disks = [];
    locations = [];
    snap_stores = [];
    mappings = [];
    files = [];
    images = [];
    volume_snapshots = [];
    snapshots = [];
  };
  calls = [];
  watchers = [];
  disk_ops = [];
}

taken :
    let (r, s) = take_snapshot ⦃bolt = memory⦄ texts kernel view targets agent in
    (is_ok r ≡ true) × (s.calls ≡ snapshot_create (dev 0 ∷ []) ∷ [])
unfolding take_snapshot filter_cbt_info new_image create_snapshot_image create_volume_snapshot
taken = (refl, refl)

no_node-IsCreated : IsCreated ⦃bolt = memory⦄ texts kernel no_node targets agent (cbt 0) [] 4
no_node-IsCreated = record { pre_read = refl; before_read = refl; made = refl }

no_node_failed :
    (snap_volumes ⦃bolt = memory⦄ texts kernel no_node targets 4
      (cbt 0)
      (cbt 1)
      []
      (images (snapshot_create (dev 0 ∷ []) ∷ []))
      targets
      (asked ⦃bolt = memory⦄ texts kernel no_node targets agent)).0
    ≡ err plain
unfolding snap_volumes filter_cbt_info new_image
no_node_failed = refl

loop_failure_leaks_example :
    ((take_snapshot ⦃bolt = memory⦄ texts kernel no_node targets agent).0 ≡ err plain)
    × ((take_snapshot ⦃bolt = memory⦄ texts kernel no_node targets agent).1.calls
        ≡ snapshot_create (dev 0 ∷ []) ∷ [])
loop_failure_leaks_example =
    loop_failure_leaks ⦃bolt = memory⦄ texts kernel no_node targets agent (cbt 0) (cbt 1) []
      (images (snapshot_create (dev 0 ∷ []) ∷ [])) 4 plain no_node-IsCreated refl refl
      no_node_failed
