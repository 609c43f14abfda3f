-- ===== src/Tests/Machine.antt =====
-- The data of the tests of the manager: a configuration, a machine with two disks, a kernel module that
-- grants everything, and a database with one disk that is mapped to one location.
use coriolis_snapshot_agent.Common.{true, false, List, [], ◌∷◌, some, ◌*◌}
use coriolis_snapshot_agent.Result.{ok}
use coriolis_snapshot_agent.Storage.{Probe}
use coriolis_snapshot_agent.Storage.Files.{Statfs}
use coriolis_snapshot_agent.Config.{Config, ConfigHost, pos, tmpfs_magic}
use coriolis_snapshot_agent.Bolthold.Memory.{memory}
use coriolis_snapshot_agent.Db.Models.{
  TrackedDisk, SnapStoreFilesLocation, SnapStoreMapping, no_disk, no_location,
}
use coriolis_snapshot_agent.Db.Connection.{Database}
use coriolis_snapshot_agent.Manager.{Texts}
use coriolis_snapshot_agent.Manager.State.{Agent, Kernel, View}
use coriolis_snapshot_agent.Manager.Host.{Host}
use coriolis_snapshot_agent.Tests.Samples.{dev, sda, sdb, granting}

abbrev pub decoded : Config
decoded = record {
  db_file = "";
  api_server = record {
    bind = "0.0.0.0";
    port = pos 9999;
    tls_config = record { cert = "crt"; key = "key"; ca_cert = "ca" };
  };
  log_file = "";
  cow_destination = "/cow" ∷ [];
  auto_init_physical_disks = true;
  snap_store_mappings = record { device = "sda"; location = "/cow" } ∷ [];
  snap_store_file_size = 0;
  cow_destination_device_paths = [];
}

abbrev pub config : Config
config = record decoded {
  db_file = "/var/run/coriolis-snapshot-agent/coriolis-snapshot-agent.db";
  snap_store_file_size = 2 * 1024 * 1024 * 1024;
  cow_destination_device_paths = "/dev/sdb" ∷ [];
}

abbrev pub probes : List Probe
probes =
    record { info = ok sda; mounted = ok false } ∷ record { info = ok sdb; mounted = ok true } ∷ []

abbrev pub statfs : Statfs
statfs = record { type = tmpfs_magic; bsize = 4096; blocks = 1000; bfree = 900; bavail = 800 }

abbrev pub checks : ConfigHost
checks = record {
  decode_file = λ p. ok decoded;
  stat = λ p. ok tt;
  statfs = λ p. ok statfs;
  device_of = λ p. ok (dev 16);
  sys_block = ok probes;
  dir = λ p. "/var/run/coriolis-snapshot-agent";
  join = λ p q. q;
  is_ip = λ t. true;
  read_file = λ p. ok [];
  append_certs = λ pem. true;
  load_key_pair = λ cert key. ok tt;
}

abbrev pub host : Host
host = record {
  sys_block = ok probes;
  statfs = λ p. ok statfs;
  device_of = λ p. ok (dev 16);
  join = λ p q. "/cow/id";
  outside = λ ops. granting;
  file_calls = λ p n. record { stat = ok tt; create = ok tt; fallocate = ok tt; close = ok tt };
  remove_file = λ p. ok tt;
  open_device = ok tt;
  read_dir = λ p. ok [];
}

abbrev pub texts : Texts
texts = record {
  uuid_string = λ id. "id";
  uuid_parse = λ s. ok (9 ∷ []);
  format_uint = λ n. "4";
  parse_uint = λ s. ok 4;
  base = λ p. "sda";
}

abbrev pub kernel : Kernel
kernel = record {
  on_add = λ calls d. ok tt;
  on_add_file = λ calls id path. ok tt;
  on_create = λ calls devices. ok 4;
  on_delete = λ calls n. ok tt;
  on_cleanup = λ calls id. ok (some 0);
}

abbrev pub view : View
view = record {
  cbt_info = λ calls. ok [];
  images = λ calls. ok [];
  bitmap = λ calls d. ok (1 ∷ []);
  device_node = λ d. ok "/dev/veeamimage0";
}

abbrev pub sda_disk : TrackedDisk
sda_disk = record no_disk { tracking_id = "sda"; path = "/dev/sda"; major = 8 }

abbrev pub cow : SnapStoreFilesLocation
cow = record no_location { path = "/cow"; device_path = "/dev/sdb"; major = 8; minor = 16 }

abbrev pub sda_mapping : SnapStoreMapping
sda_mapping = record { tracking_id = "m"; tracked_disk = sda_disk; location = cow }

abbrev pub blank : Database ⦃bolt = memory⦄
blank = record {
  tracked_disks = [];
  locations = [];
  snap_stores = [];
  mappings = [];
  files = [];
  images = [];
  volume_snapshots = [];
  snapshots = [];
}

abbrev pub mapped : Database ⦃bolt = memory⦄
mapped = record blank {
  tracked_disks = ("sda", sda_disk) ∷ [];
  locations = ("/cow", cow) ∷ [];
  mappings = ("m", sda_mapping) ∷ [];
}

abbrev pub with_db : Database ⦃bolt = memory⦄ → Agent ⦃bolt = memory⦄
with_db d = record { db = d; calls = []; watchers = []; disk_ops = [] }
