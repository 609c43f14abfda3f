-- ===== src/Tests/Samples.antt =====
-- The data of the tests: a watcher, an outside that grants everything, two volumes, and a database in
-- memory with one snapshot.
use coriolis_snapshot_agent.Common.{ℕ, ◌/◌, true, false, List, [], ◌∷◌, String, length, replicate}
use coriolis_snapshot_agent.Errors.{sentinel, fs_not_exist}
use coriolis_snapshot_agent.Result.{ok, err}
use coriolis_snapshot_agent.Types.{DevId, Range}
use coriolis_snapshot_agent.Storage.{Partition, BlockVolume}
use coriolis_snapshot_agent.Watcher.{Watcher, Outside}
use coriolis_snapshot_agent.Bolthold.Memory.{memory}
use coriolis_snapshot_agent.Db.Models.{
  VolumeSnapshot, Snapshot, no_disk, no_image, no_store, healthy,
}
use coriolis_snapshot_agent.Db.Connection.{Database}

abbrev pub dev : ℕ → DevId
dev minor = record { major = 8; minor = minor }

abbrev pub store_id : List ℕ
store_id = replicate 16 7

abbrev pub two_ranges : List Range
two_ranges = record { left = 0; right = 4096 } ∷ record { left = 8192; right = 70000 } ∷ []

abbrev pub partition : String → ℕ → Partition
partition path minor = record {
  name = path;
  path = path;
  sectors = 100;
  start_sector = 0;
  end_sector = 99;
  filesystem_type = "ext4";
  major = 8;
  minor = minor;
}

abbrev pub volume : String → ℕ → List Partition → BlockVolume
volume path minor partitions = record {
  path = path;
  name = path;
  size = 1000;
  logical_sector_size = 512;
  physical_sector_size = 512;
  partitions = partitions;
  filesystem_type = "";
  major = 8;
  minor = minor;
  device_mapper_slaves = [];
  is_virtual = false;
}

abbrev pub sda : BlockVolume
sda = volume "/dev/sda" 0 (partition "/dev/sda1" 1 ∷ partition "/dev/sda2" 2 ∷ [])

abbrev pub sdb : BlockVolume
sdb = volume "/dev/sdb" 16 []

abbrev pub watcher : Watcher
watcher = record {
  id = store_id;
  snap_store_file_size = 2000;
  dev_id = dev 0;
  snap_device_id = dev 16;
  basedir = "/snapstores/a";
  allocated_space = 5;
  is_open = true;
  written = [];
  sent = [];
}

abbrev pub granting : Outside
granting = record {
  stat = λ p. ok tt;
  mkdir_all = λ p. ok tt;
  bytes_free = λ p. ok 100000;
  new_file_path = λ p. "/snapstores/a/1";
  create_snap_store_file = λ p n. ok tt;
  file_ranges = λ p. ok (two_ranges, dev 16);
  write = λ bytes. ok (length bytes);
  file_size = λ p. ok 2048;
  remove_all = λ p. ok tt;
  devices = ok (sda ∷ sdb ∷ []);
  fifth = λ n. n / 5;
}

abbrev pub no_basedir : Outside
no_basedir = record granting { stat = λ p. err (sentinel fs_not_exist) }

abbrev pub snapshot_of : String → List VolumeSnapshot → Snapshot
snapshot_of id vols = record { snapshot_id = id; volume_snapshots = vols }

abbrev pub sda_snapshot : VolumeSnapshot
sda_snapshot = record {
  tracking_id = "v1";
  snapshot_number = 3;
  generation_id = "g";
  original_device = no_disk;
  snapshot_image = no_image;
  bitmap = [];
  snapshot_id = "1";
  snap_store = no_store;
  status = healthy;
}

abbrev pub stored : Database ⦃bolt = memory⦄
stored = record {
  tracked_disks = [];
  locations = [];
  snap_stores = [];
  mappings = [];
  files = [];
  images = [];
  volume_snapshots = ("v1", sda_snapshot) ∷ [];
  snapshots = ("1", snapshot_of "1" (sda_snapshot ∷ [])) ∷ [];
}
