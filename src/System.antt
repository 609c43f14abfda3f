-- ===== src/System.antt =====
-- internal/system/system.go and internal/system/util_linux.go: the report on the machine. What the
-- system and gopsutil answer is a `Facts`; `InfoStat` and `VirtualMemoryStat` are types of gopsutil.
use coriolis_snapshot_agent.Common.{
  ℕ, Bool, true, false, List, [], ◌∷◌, ◌++◌, map, String, Option, none, some, eqb, ◌==◌,
  if◌then◌else◌,
}
use coriolis_snapshot_agent.Result.{
  Result, ok, err, Action, lift, pure, wrapped, wrapping, is_ok, ◌>>=◌,
}

pub record Interface : Type 0 where
  pub name : String
  pub hardware_addr : String
  pub is_loopback : Bool
  pub addrs : Result (List String)

-- `NetworkInterface` without its slaves.
pub record Nic : Type 0 where
  pub interface_type : String
  pub hw_address : String
  pub ip_addresses : List String
  pub name : String

-- A slave is a pointer, which is nil if the map has no such name. What it points to never gets slaves.
pub record NetworkInterface : Type 0 where
  pub nic : Nic
  pub slaves : List (Option Nic)

pub record OsInfo : Type 0 where
  pub platform : String
  pub os_name : String
  pub os_version : String

pub record CpuInfo (InfoStat : Type 0) : Type 0 where
  pub cpu_info : List InfoStat
  pub physical_cores : ℕ
  pub logical_cores : ℕ

pub record Facts (InfoStat VirtualMemoryStat : Type 0) : Type 0 where
  pub interfaces : Result (List Interface)
  pub eval_symlinks : String → Result String
  -- whether the path is a folder
  pub stat : String → Result Bool
  pub read_dir : String → Result (List String)
  -- the number at the start of a file
  pub scan_number : String → Result ℕ
  pub join : String → String → String
  pub cpus : Result (List InfoStat)
  pub cpu_counts : Bool → Result ℕ
  pub virtual_memory : Result VirtualMemoryStat
  -- the lines of /etc/os-release, split at the first "="
  pub os_release : Result (List (String × Option String))
  pub trim_quotes : String → String
  pub goos : String
  pub hostname : Result String

pub record SystemInfo (InfoStat VirtualMemoryStat Disk : Type 0) : Type 0 where
  pub cpus : CpuInfo InfoStat
  pub disks : List Disk
  pub memory : VirtualMemoryStat
  pub nics : List NetworkInterface
  pub operating_system : OsInfo
  pub hostname : String
  pub firmware_type : String

abbrev pub net_class_path : String
net_class_path = "/sys/class/net"

abbrev pub tun_iface : ℕ
tun_iface = 65534

abbrev pub is_number : ℕ → Result ℕ → Bool
is_number n (ok m) = eqb m n
is_number n (err e) = false

-- `nicNameMapping[name]`, which a later interface of that name has overwritten.
abbrev pub nic_named : String → List Nic → Option Nic
nic_named name [] = none
nic_named name (n ∷ ns) = elim (nic_named name ns) [
  | some later ↦ some later
  | none ↦ if n.name == name then some n else none
]

abbrev pub details_from :
    (String → String) → String × String → List (String × Option String) → String × String
details_from trim found [] = found
details_from trim found ((k, none) ∷ lines) = details_from trim found lines
details_from trim (name, version) ((k, some v) ∷ lines) =
    details_from trim
      (if k == "ID"
        then (v, version)
        else if k == "VERSION_ID"
        then (name, trim v)
        else (name, version))
      lines

module _ {InfoStat VirtualMemoryStat : Type 0} (facts : Facts InfoStat VirtualMemoryStat) where
  -- The tests of `getNICInfo`, in their order.
  unfoldable pub interface_type_of : String → String → String
  interface_type_of name link =
      if is_number tun_iface (facts.scan_number (facts.join link "type"))
      then "tunnel_interface"
      else if is_ok (facts.stat (facts.join link "device"))
      then "physical_interface"
      else if is_ok (facts.stat (facts.join link "bridge"))
      then "bridge_interface"
      else if is_ok (facts.stat (facts.join link "bonding"))
      then "bond_interface"
      else if is_ok (facts.stat (facts.join "/sys/devices/virtual/net" name))
      then "virtual_interface"
      else "unsupported_interface"

  abbrev pub nic_of : Interface → String → List String → Nic
  nic_of i link addrs = record {
    interface_type = interface_type_of i.name link;
    hw_address = i.hardware_addr;
    ip_addresses = addrs;
    name = i.name;
  }

  -- The first loop of `getNICInfo`.
  unfoldable pub nics_from : List Nic → List Interface → Result (List Nic)
  unfolding interface_type_of
  nics_from found [] = ok found
  nics_from found (i ∷ is) = elim i.is_loopback [
    | true ↦ nics_from found is
    | false ↦ elim (facts.eval_symlinks (facts.join net_class_path i.name)) [
      | err e ↦ nics_from found is
      | ok link ↦ elim (wrapped i.addrs) [
        | err e ↦ err e
        | ok addrs ↦ nics_from (found ++ (nic_of i link addrs ∷ [])) is
      ]
    ]
  ]

  -- `getBridgeInterfaceSlaves`
  unfoldable pub get_bridge_interface_slaves : List Nic → Nic → Result (List (Option Nic))
  get_bridge_interface_slaves mapping bridge =
      elim (wrapped (facts.eval_symlinks (facts.join net_class_path bridge.name))) [
        | err e ↦ err e
        | ok link ↦ elim (wrapped (facts.stat (facts.join link "brif"))) [
          | err e ↦ err e
          | ok false ↦ ok []
          | ok true ↦ elim (wrapped (facts.read_dir (facts.join link "brif"))) [
            | err e ↦ err e
            | ok files ↦ ok (map (λ f. nic_named f mapping) files)
          ]
        ]
      ]

  abbrev pub slaves_or_none : Result (List (Option Nic)) → List (Option Nic)
  slaves_or_none (ok slaves) = slaves
  slaves_or_none (err e) = []

  -- The second loop of `getNICInfo`.
  unfoldable pub with_slaves : List Nic → List Nic → List NetworkInterface
  unfolding get_bridge_interface_slaves
  with_slaves mapping [] = []
  with_slaves mapping (n ∷ ns) =
      record {
        nic = n;
        slaves =
            if n.interface_type == "bridge_interface"
            then slaves_or_none (get_bridge_interface_slaves mapping n)
            else [];
      }
      ∷ with_slaves mapping ns

  unfoldable pub get_nic_info : Result (List NetworkInterface)
  unfolding nics_from with_slaves
  get_nic_info = elim (wrapped facts.interfaces) [
    | err e ↦ err e
    | ok ifaces ↦ elim (nics_from [] ifaces) [
      | err e ↦ err e
      | ok nics ↦ ok (with_slaves nics nics)
    ]
  ]

  -- `FetchOSDetails`
  unfoldable pub fetch_os_details : Result (String × String)
  fetch_os_details = elim (wrapped facts.os_release) [
    | err e ↦ err e
    | ok lines ↦ ok (details_from facts.trim_quotes ("", "") lines)
  ]

  abbrev pub details_or_none : Result (String × String) → String × String
  details_or_none (ok details) = details
  details_or_none (err e) = ("", "")

  unfoldable pub get_os_info : Result OsInfo
  unfolding fetch_os_details
  get_os_info = ok (record {
    platform = facts.goos;
    os_name = (details_or_none fetch_os_details).0;
    os_version = (details_or_none fetch_os_details).1;
  })

  unfoldable pub get_cpu_info : Result (CpuInfo InfoStat)
  get_cpu_info = elim (wrapped facts.cpus) [
    | err e ↦ err e
    | ok info ↦ elim (wrapped (facts.cpu_counts false)) [
      | err e ↦ err e
      | ok physical ↦ elim (wrapped (facts.cpu_counts true)) [
        | err e ↦ err e
        | ok logical ↦
            ok (record { cpu_info = info; physical_cores = physical; logical_cores = logical })
      ]
    ]
  ]

  -- `GetSystemInfo`, with the call of `ListDisks` as an argument.
  unfoldable pub get_system_info :
      {S Disk : Type 0}
      → Action S (List Disk)
      → Action S (SystemInfo InfoStat VirtualMemoryStat Disk)
  unfolding get_cpu_info get_nic_info get_os_info
  get_system_info list_disks = do
    cpus ← lift (wrapped get_cpu_info)
    disks ← wrapping list_disks
    memory ← lift (wrapped facts.virtual_memory)
    nics ← lift (wrapped get_nic_info)
    os ← lift (wrapped get_os_info)
    hostname ← lift (wrapped facts.hostname)
    pure (record {
      cpus = cpus;
      disks = disks;
      memory = memory;
      nics = nics;
      operating_system = os;
      hostname = hostname;
      firmware_type = if is_ok (facts.stat "/sys/firmware/efi") then "efi" else "bios";
    })
