-- ===== src/Tests/Disks.antt =====
-- Examples for the disks, the locations and the files of snap stores.
use coriolis_snapshot_agent.Common.{arith, ◌≡◌, refl, List, [], ◌∷◌, ℕ, some}
use coriolis_snapshot_agent.Errors.{panicked, is}
use coriolis_snapshot_agent.Result.{ok, err, Result}
use coriolis_snapshot_agent.Types.{Range}
use coriolis_snapshot_agent.Bolthold.Memory.{memory}
use coriolis_snapshot_agent.Config.{Config}
use coriolis_snapshot_agent.Storage.{PhysicalDiskInfo}
use coriolis_snapshot_agent.Storage.Files.{
  file_ranges, file_system_info, file_device_info, involved_devices,
}
use coriolis_snapshot_agent.Storage.Fiemap.{Extent, get_extents}
use coriolis_snapshot_agent.Storage.Fiemap.Walk.{reported, get_extents_all}
use coriolis_snapshot_agent.Storage.Files.Extents.{Spans, file_ranges_span}
use coriolis_snapshot_agent.Db.Connection.{Database}
use coriolis_snapshot_agent.Manager.State.{Agent}
use coriolis_snapshot_agent.Manager.Disks.{DiskInfo, add_tracked_disk}
use coriolis_snapshot_agent.Manager.Disks.Spared.{Fits, IsTracked, add_tracked_disk_tracks}
use coriolis_snapshot_agent.Manager.Locations.{
  LocationInfo, add_snap_store_location, list_locations, total_from,
}
use coriolis_snapshot_agent.Manager.Locations.Listing.{IsReadable, list_locations_overrun}
use coriolis_snapshot_agent.Tests.Machine.{
  config, host, texts, kernel, view, cow, blank, mapped, with_db,
}
use coriolis_snapshot_agent.Tests.Samples.{dev, sda}

abbrev sdb_info : PhysicalDiskInfo
sdb_info = record { major = 8; minor = 16; device_path = "/dev/sdb"; sector_size = 512 }

abbrev extents : List Extent
extents =
    record { logical = 0; physical = 4096; length = 8192 }
    ∷ record { logical = 8192; physical = 0; length = 512 }
    ∷ []

file_ranges_span_example :
    (rs : List Range) × (file_ranges (ok sdb_info) (ok extents) ≡ ok (rs, dev 16))
    × Spans extents rs
file_ranges_span_example =
    file_ranges_span sdb_info extents ((omega arith, omega arith), ((omega arith, omega arith), tt))

abbrev fiemap : ℕ → ℕ → Result (List Extent)
fiemap start count = ok (reported extents start count)

get_extents_all_example : get_extents fiemap 3 (ok tt) ≡ some (ok extents)
get_extents_all_example =
    get_extents_all fiemap extents
      (omega arith, omega arith, omega arith, (omega arith, omega arith, omega arith, tt))
      (λ start count. refl) 3 (omega arith)

abbrev sda_info : DiskInfo
sda_info = record { tracking_id = "sda"; volume = sda }

abbrev tracked : Agent ⦃bolt = memory⦄
tracked =
    (add_tracked_disk host config ⦃bolt = memory⦄ texts kernel view "/dev/sda" (with_db blank)).1

tracks :
    add_tracked_disk host config ⦃bolt = memory⦄ texts kernel view "/dev/sda" (with_db blank)
    ≡ (ok sda_info, tracked)
unfolding add_tracked_disk is
tracks = refl

add_tracked_disk_tracks_example :
    Fits host config "/dev/sda" sda
    × IsTracked host config ⦃bolt = memory⦄ texts kernel view sda (with_db blank) tracked
add_tracked_disk_tracks_example =
    add_tracked_disk_tracks host config ⦃bolt = memory⦄ texts kernel view "/dev/sda" (with_db blank)
      tracked sda_info tracks

abbrev only_disk : Database ⦃bolt = memory⦄
only_disk = record mapped { locations = []; mappings = [] }

abbrev located : Database ⦃bolt = memory⦄
located = (add_snap_store_location ⦃bolt = memory⦄ host "/cow" only_disk).1

abbrev cow_info : LocationInfo
cow_info = record {
  available_capacity = 3276800;
  allocated_capacity = 0;
  total_capacity = 4096000;
  path = "/cow";
  device_path = "/dev/sdb";
  major = 8;
  minor = 16;
}

locates : add_snap_store_location ⦃bolt = memory⦄ host "/cow" only_disk ≡ (ok cow_info, located)
unfolding add_snap_store_location file_device_info involved_devices is total_from
locates = refl

abbrev no_destination : Config
no_destination = record config { cow_destination = [] }

cow-IsReadable : IsReadable ⦃bolt = memory⦄ host cow
unfolding file_system_info
cow-IsReadable = (_, refl)

list_locations_overrun_example :
    list_locations ⦃bolt = memory⦄ host no_destination mapped ≡ (err panicked, mapped)
list_locations_overrun_example =
    list_locations_overrun ⦃bolt = memory⦄ host no_destination mapped refl refl (cow-IsReadable, tt)
      (omega arith)
