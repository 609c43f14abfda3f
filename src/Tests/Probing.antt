-- ===== src/Tests/Probing.antt =====
-- Examples for the probing of disks, for udev and for the network interfaces.
use Prim.Native.String.{◌++◌}
use coriolis_snapshot_agent.Common.{
  ℕ, ◌≡◌, refl, Bool, true, false, List, [], ◌∷◌, String, some, ◌==◌, ◌||◌, if◌then◌else◌, All, eqb,
  none,
}
use coriolis_snapshot_agent.Errors.{plain, is}
use coriolis_snapshot_agent.Result.{Result, ok, err, is_ok}
use coriolis_snapshot_agent.Storage.{BlockVolume}
use coriolis_snapshot_agent.Storage.Files.{list_block_devices}
use coriolis_snapshot_agent.Storage.Probing.{Sys, Entry, Stat}
use coriolis_snapshot_agent.Storage.Volumes.{sys_block_probes}
use coriolis_snapshot_agent.Storage.Volumes.Valid.{Listed, list_block_devices-Listed}
use coriolis_snapshot_agent.Storage.Udev.{UdevEvent, get_udev_device, handle_event}
use coriolis_snapshot_agent.Storage.Udev.Detection.{
  get_udev_device-announced, get_udev_device-removed,
}
use coriolis_snapshot_agent.System.{Facts, Interface, Nic, get_nic_info}
use coriolis_snapshot_agent.Tests.Samples.{dev}

abbrev folder : String → Entry
folder name = record { name = name; is_dir = true }

abbrev listing : String → Result (List Entry)
listing path =
    if path == "/sys/block"
    then ok (folder "sr0" ∷ folder "vda" ∷ [])
    else if path == "/sys/block/vda"
    then ok (folder "queue" ∷ folder "vda1" ∷ [])
    else err plain

-- The files that are missing.
abbrev is_missing : String → Bool
is_missing path =
    (path == "/sys/block/vda/queue/partition")
    || (path == "/sys/devices/virtual/block/vda")
    || (path == "/sys/block/vda/slaves")

abbrev node : Stat
node = record { is_dir = true; is_device = true; is_char_device = false; rdev = dev 0 }

-- A machine with a CD-ROM and a disk that has one partition.
abbrev machine : Sys
machine = record {
  mounts = ok (("/dev/mapper/root" ∷ "/" ∷ []) ∷ ("proc" ∷ []) ∷ []);
  is_symlink = λ path. ok true;
  eval_symlinks = λ path. ok "/dev/dm-0";
  stat = λ path. if is_missing path then err plain else ok node;
  read_dir = listing;
  read_file = λ path. ok path;
  atoi_line = λ contents. ok (
      if contents == "/sys/block/sr0/device/type"
      then 5
      else if contents == "/sys/block/vda/vda1/size"
      then 2048
      else 0);
  assignments = λ path. ok (("DEVNAME", some "vda1") ∷ []);
  join = λ a b. a ++ "/" ++ b;
  open_volume = λ path. ok tt;
  size_of = λ path. ok 1049088;
  physical_sector_size = λ path. ok 4096;
  logical_sector_size = λ path. ok 512;
  blkid = λ path. ok (("TYPE", "ext4") ∷ []);
}

abbrev vda : BlockVolume
vda = record {
  path = "/dev/vda";
  name = "vda";
  size = 1049088;
  logical_sector_size = 512;
  physical_sector_size = 4096;
  partitions =
      record {
        name = "vda1";
        path = "/dev/vda1";
        sectors = 2048;
        start_sector = 0;
        end_sector = 2047;
        filesystem_type = "ext4";
        major = (dev 0).major;
        minor = (dev 0).minor;
      }
      ∷ [];
  filesystem_type = "ext4";
  major = (dev 0).major;
  minor = (dev 0).minor;
  device_mapper_slaves = [];
  is_virtual = false;
}

listed : list_block_devices true false false (sys_block_probes machine) ≡ ok (vda ∷ [])
unfolding list_block_devices sys_block_probes is
listed = refl

list_block_devices-Listed_example : All (Listed machine true false false) (vda ∷ [])
list_block_devices-Listed_example =
    list_block_devices-Listed machine true false false (vda ∷ []) listed

abbrev added : ℕ → List UdevEvent
added n =
    if eqb n 2 then record { devnode = "/dev/vda"; devnum = dev 0; action = "add" } ∷ [] else []

get_udev_device-announced_example : is_ok (get_udev_device (dev 0) added []) ≡ true
get_udev_device-announced_example = get_udev_device-announced (dev 0) added 1 [] refl refl

get_udev_device-removed_example :
    get_udev_device
      (dev 0)
      added
      (handle_event (record { devnode = "/dev/vda"; devnum = dev 0; action = "remove" }) [])
    ≡ ok (record { device_node = "/dev/vda"; device_status = "" })
get_udev_device-removed_example = get_udev_device-removed (dev 0) added "/dev/vda" []

abbrev interface : String → Interface
interface name = record {
  name = name;
  hardware_addr = "aa:bb";
  is_loopback = name == "lo";
  addrs = ok ("10.0.0.1/24" ∷ []);
}

-- A bridge with an ordinary interface in it, and one that the system has not.
abbrev pub bridged : Facts (Unit {0}) (Unit {0})
bridged = record {
  interfaces = ok (interface "lo" ∷ interface "br0" ∷ interface "eth0" ∷ []);
  eval_symlinks = λ path. ok path;
  stat = λ path.
      if (path == "/sys/class/net/br0/device") || (path == "/sys/class/net/eth0/bridge")
      then err plain
      else ok true;
  read_dir = λ path. ok ("eth0" ∷ "eth1" ∷ []);
  scan_number = λ path. ok 1;
  join = λ a b. a ++ "/" ++ b;
  cpus = ok [];
  cpu_counts = λ logical. ok 4;
  virtual_memory = ok tt;
  os_release = ok [];
  trim_quotes = λ text. text;
  goos = "linux";
  hostname = ok "host";
}

abbrev nic : String → String → Nic
nic type name = record {
  interface_type = type;
  hw_address = "aa:bb";
  ip_addresses = "10.0.0.1/24" ∷ [];
  name = name;
}

bridge_has_slaves :
    get_nic_info bridged
    ≡ ok (
        record {
          nic = nic "bridge_interface" "br0";
          slaves = some (nic "physical_interface" "eth0") ∷ none ∷ [];
        }
        ∷ record { nic = nic "physical_interface" "eth0"; slaves = [] }
        ∷ [])
unfolding get_nic_info
bridge_has_slaves = refl
