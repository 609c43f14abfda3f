-- ===== src/Config.antt =====
-- config/config.go: the configuration, its defaults and its validation. What the file system, the TOML
-- decoder and the packages net and tls answer is a `ConfigHost`.
pub mod Validation
use coriolis_snapshot_agent.Common.{
  ℕ, Bool, not, ◌||◌, List, [], ◌∷◌, String, ltb, eqb, ◌==◌, if◌then◌else◌, any, ◌*◌, true, false,
}
use coriolis_snapshot_agent.Errors.{typed, plain, wrap, value}
use coriolis_snapshot_agent.Result.{Result, ok, err, wrapped, check}
use coriolis_snapshot_agent.Result.Plain.{◌>>=◌, ◌>>◌}
use coriolis_snapshot_agent.Types.{DevId}
use coriolis_snapshot_agent.Storage.{Probe, PhysicalDiskInfo}
use coriolis_snapshot_agent.Storage.Files.{
  Statfs, file_system_info, file_device_info, involved_devices,
}

-- A Go `int`.
pub data ℤ : Type 0 where
  pos : ℕ → ℤ
  -- `negsuc n` is -(n + 1)
  negsuc : ℕ → ℤ

pub record TlsConfig : Type 0 where
  pub cert : String
  pub key : String
  pub ca_cert : String

pub record ApiServer : Type 0 where
  pub bind : String
  pub port : ℤ
  pub tls_config : TlsConfig

pub record StoreMapping : Type 0 where
  pub device : String
  pub location : String

pub record Config : Type 0 where
  pub db_file : String
  pub api_server : ApiServer
  pub log_file : String
  pub cow_destination : List String
  pub auto_init_physical_disks : Bool
  pub snap_store_mappings : List StoreMapping
  pub snap_store_file_size : ℕ
  pub cow_destination_device_paths : List String

pub record ConfigHost : Type 0 where
  pub decode_file : String → Result Config
  pub stat : String → Result (Unit {0})
  pub statfs : String → Result Statfs
  pub device_of : String → Result DevId
  pub sys_block : Result (List Probe)
  -- `filepath.Dir`, `filepath.Join`
  pub dir : String → String
  pub join : String → String → String
  pub is_ip : String → Bool
  pub read_file : String → Result (List ℕ)
  pub append_certs : List ℕ → Bool
  pub load_key_pair : String → String → Result (Unit {0})

abbrev pub default_db_file : String
default_db_file = "/var/run/coriolis-snapshot-agent/coriolis-snapshot-agent.db"

abbrev pub default_snap_store_file_size : ℕ
default_snap_store_file_size = 2 * 1024 * 1024 * 1024

abbrev pub tmpfs_magic : ℕ
tmpfs_magic = 0x01021994

-- `a.Port > 65535 || a.Port < 1`
unfoldable pub is_bad_port : ℤ → Bool
is_bad_port (pos n) = ltb 65535 n || ltb n 1
is_bad_port (negsuc n) = true

module _ (host : ConfigHost) where
  -- `SnapStoreMapping.Validate`
  unfoldable pub validate_mapping : StoreMapping → Result (Unit {0})
  validate_mapping m = do
    check ((m.device == "") || (m.location == "")) (typed value)
    wrapped (host.stat m.location)
    elim (host.stat (host.join "/dev" m.device)) [ ok a ↦ ok tt | err e ↦ err (typed value) ]

  -- `TLSConfig.TLSConfig` as far as it fails.
  unfoldable pub validate_tls : TlsConfig → Result (Unit {0})
  validate_tls t = do
    pem ← host.read_file t.ca_cert
    check (not (host.append_certs pem)) plain
    host.load_key_pair t.cert t.key

  -- `APIServer.Validate`
  unfoldable pub validate_api_server : ApiServer → Result (Unit {0})
  unfolding validate_tls is_bad_port
  validate_api_server a = do
    check (is_bad_port a.port) plain
    check (not (host.is_ip a.bind)) plain
    wrapped (validate_tls a.tls_config)

  -- The loop over the mappings at the end of `Validate`.
  unfoldable pub check_mappings : List String → List StoreMapping → Result (Unit {0})
  check_mappings destinations [] = ok tt
  check_mappings destinations (m ∷ ms) = do
    check (not (any (λ location. location == m.location) destinations)) (typed value)
    check_mappings destinations ms

  -- `Config.Validate`
  unfoldable pub validate : Config → Result (Unit {0})
  unfolding file_system_info validate_api_server check_mappings
  validate c = do
    check (c.db_file == "") plain
    wrapped (host.stat (host.dir c.db_file))
    info ← wrapped (file_system_info (host.statfs (host.dir c.db_file)))
    check (not (eqb info.type tmpfs_magic)) (typed value)
    wrapped (validate_api_server c.api_server)
    check_mappings c.cow_destination c.snap_store_mappings

  unfoldable pub destination_devices : List String → Result (List DevId)
  unfolding file_device_info
  destination_devices [] = ok []
  destination_devices (path ∷ paths) = do
    info ← wrapped (file_device_info (host.device_of path) host.sys_block)
    rest ← destination_devices paths
    ok (record { major = info.major; minor = info.minor } ∷ rest)

  abbrev pub with_defaults : List String → Config → Config
  with_defaults paths c = record c {
    cow_destination_device_paths = paths;
    db_file = if c.db_file == "" then default_db_file else c.db_file;
    snap_store_file_size =
        if eqb c.snap_store_file_size 0
        then default_snap_store_file_size
        else c.snap_store_file_size;
  }

  abbrev pub is_empty : List String → Bool
  is_empty [] = true
  is_empty (p ∷ ps) = false

  -- `ParseConfig`
  unfoldable pub parse_config : String → Result Config
  unfolding destination_devices involved_devices validate
  parse_config path = do
    decoded ← wrapped (host.decode_file path)
    check (is_empty decoded.cow_destination) plain
    devices ← destination_devices decoded.cow_destination
    paths ← wrapped (involved_devices devices host.sys_block)
    let config = with_defaults paths decoded
    wrapped (validate config)
    ok config
