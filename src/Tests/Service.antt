-- ===== src/Tests/Service.antt =====
-- Examples for the service as a whole.
use coriolis_snapshot_agent.Manager.Volumes.{filter_cbt_info}
use coriolis_snapshot_agent.Wire.Buffer.{filled, write, for_each}
use coriolis_snapshot_agent.Wire.{serialize_initiate, serialize_next_portion}
use coriolis_snapshot_agent.Manager.Stores.{watch_store, make_snap_store, store_with_row}
use coriolis_snapshot_agent.Manager.Request.{ensured, fill_store}
use coriolis_snapshot_agent.Errors.{is}
use coriolis_snapshot_agent.Api.{create_snap_store_mapping_handler, create_snapshot_handler}
use coriolis_snapshot_agent.Config.{Config, ConfigHost, parse_config}
use coriolis_snapshot_agent.Manager.Startup.{
  new_manager, bring_up, add_locations, init_tracked_disks, populate_watchers, watch_stores,
}
use coriolis_snapshot_agent.Config.Validation.{IsValid}
use coriolis_snapshot_agent.Ioctl.{set_missing_kernel_entries}
use coriolis_snapshot_agent.Service.Main.{Flags, main, serves, come_up, get_logging_writer}
use coriolis_snapshot_agent.Service.Ready.{IsReady, main-IsReady}
use coriolis_snapshot_agent.Tests.Ioctl.{kmod}
use coriolis_snapshot_agent.Tests.Startup.{stocked}
use coriolis_snapshot_agent.Common.{false, ◌≡◌, refl, true, [], ◌∷◌, some}
use coriolis_snapshot_agent.Result.{ok}
use coriolis_snapshot_agent.Bolthold.Memory.{memory}
use coriolis_snapshot_agent.Manager.State.{Agent}
use coriolis_snapshot_agent.Manager.Tidy.{IsTidy}
use coriolis_snapshot_agent.Manager.Registry.{Held, Changes}
use coriolis_snapshot_agent.Manager.Registry.Abstraction.{registry_of}
use coriolis_snapshot_agent.Service.{
  World, Reach, served, request, here, next, create_mapping, create_snapshot,
}
use coriolis_snapshot_agent.Service.Order.{Reach-IsTidy, Reach-IsLinked}
use coriolis_snapshot_agent.Manager.Linked.{IsLinked}
use coriolis_snapshot_agent.Service.Refinement.{Reach-Changes, Reach-mapped, Reach-placed}
use coriolis_snapshot_agent.Tests.Machine.{
  config, decoded, checks, host, texts, kernel, view, mapped, with_db,
}
use coriolis_snapshot_agent.Tests.Probing.{bridged}

abbrev world : World (Unit {0}) (Unit {0})
world = record {
  host = host;
  kernel = kernel;
  view = view;
  facts = bridged;
  parse_bool = λ text. true;
  block_size = ok 1024;
  open_image = λ path. ok tt;
  config_host = checks;
  open_database = ok tt;
  new_id = λ device. "m";
}

-- A disk and a location, and no mapping.
abbrev unmapped : Agent ⦃bolt = memory⦄
unmapped = with_db (record mapped { mappings = [] })

-- The disk is mapped, and a snapshot of it is asked for, which makes its snap store.
abbrev then_mapped : Agent ⦃bolt = memory⦄
then_mapped =
    served ⦃bolt = memory⦄ (Unit {0}) (Unit {0}) config texts world
      (create_mapping "m" (ok (record { snap_store_location = "/cow"; tracked_disk = "sda" })))
      unmapped

abbrev asked : Agent ⦃bolt = memory⦄
asked =
    served ⦃bolt = memory⦄ (Unit {0}) (Unit {0}) config texts world
      (create_snapshot
        (ok (record { disk = "sda"; store_id = 9 ∷ []; volume_id = "v"; image_id = "i" } ∷ [])))
      then_mapped

abbrev run : Reach ⦃bolt = memory⦄ (Unit {0}) (Unit {0}) config texts unmapped asked
run = next (next here (request world _ unmapped)) (request world _ then_mapped)

Reach-IsTidy_example : IsTidy ⦃bolt = memory⦄ asked.db.mappings asked.db.snap_stores
Reach-IsTidy_example =
    Reach-IsTidy ⦃bolt = memory⦄ (Unit {0}) (Unit {0}) config texts unmapped asked refl refl run

Reach-IsLinked_example :
    IsLinked ⦃bolt = memory⦄ asked.db.tracked_disks asked.db.locations asked.db.mappings
      asked.db.snap_stores
Reach-IsLinked_example =
    Reach-IsLinked ⦃bolt = memory⦄ (Unit {0}) (Unit {0}) config texts unmapped asked refl refl run

unmapped-IsTidy : IsTidy ⦃bolt = memory⦄ unmapped.db.mappings unmapped.db.snap_stores
unmapped-IsTidy =
    Reach-IsTidy ⦃bolt = memory⦄ (Unit {0}) (Unit {0}) config texts unmapped unmapped refl refl here

Reach-Changes_example :
    Changes (registry_of ⦃bolt = memory⦄ unmapped.db) (registry_of ⦃bolt = memory⦄ asked.db)
Reach-Changes_example =
    Reach-Changes ⦃bolt = memory⦄ (Unit {0}) (Unit {0}) config texts unmapped asked unmapped-IsTidy
      run

made : (registry_of ⦃bolt = memory⦄ then_mapped.db).mapping_of "sda" ≡ some "/cow"
unfolding registry_of served create_snap_store_mapping_handler is
made = refl

then-IsTidy : IsTidy ⦃bolt = memory⦄ then_mapped.db.mappings then_mapped.db.snap_stores
then-IsTidy =
    Reach-IsTidy ⦃bolt = memory⦄ (Unit {0}) (Unit {0}) config texts unmapped then_mapped refl refl
      (next here (request world _ unmapped))

Reach-mapped_example : (registry_of ⦃bolt = memory⦄ asked.db).mapping_of "sda" ≡ some "/cow"
Reach-mapped_example =
    Reach-mapped ⦃bolt = memory⦄ (Unit {0}) (Unit {0}) config texts then_mapped asked "sda" "/cow"
      then-IsTidy made (next here (request world _ then_mapped))

abbrev sda_store : Held
sda_store = record { id = "id"; place = "/cow" }

holds : (registry_of ⦃bolt = memory⦄ asked.db).store_of "sda" ≡ some sda_store
unfolding registry_of served create_snapshot_handler create_snap_store_mapping_handler is ensured
    make_snap_store store_with_row serialize_initiate filled write for_each fill_store
    serialize_next_portion filter_cbt_info
holds = refl

Reach-placed_example : (registry_of ⦃bolt = memory⦄ asked.db).mapping_of "sda" ≡ some "/cow"
Reach-placed_example =
    Reach-placed ⦃bolt = memory⦄ (Unit {0}) (Unit {0}) config texts unmapped asked "sda" sda_store
      refl refl run holds

-- The disks are not added at the start.
abbrev by_hand : ConfigHost
by_hand = record checks {
  decode_file = λ path. ok (record decoded { auto_init_physical_disks = false });
}

abbrev by_hand_config : Config
by_hand_config = record config { auto_init_physical_disks = false }

abbrev manual : World (Unit {0}) (Unit {0})
manual = record world { config_host = by_hand }

abbrev flags : Flags
flags = record { conf = "/etc/agent.toml"; install = false; version = false }

abbrev up : Agent ⦃bolt = memory⦄
up = (main ⦃bolt = memory⦄ texts kmod manual flags stocked).1

comes_up : main ⦃bolt = memory⦄ texts kmod manual flags stocked ≡ (serves by_hand_config, up)
unfolding main come_up get_logging_writer parse_config set_missing_kernel_entries new_manager
    bring_up add_locations is init_tracked_disks populate_watchers watch_stores watch_store
    serialize_initiate filled write for_each
comes_up = refl

main-IsReady_example :
    IsValid by_hand by_hand_config
    × ((set_missing_kernel_entries kmod []).0 ≡ ok tt)
    × IsReady ⦃bolt = memory⦄ texts kmod manual by_hand_config up
main-IsReady_example =
    main-IsReady ⦃bolt = memory⦄ texts kmod manual flags stocked up by_hand_config comes_up
