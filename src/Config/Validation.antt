-- ===== src/Config/Validation.antt =====
-- config/config.go: what a configuration that `ParseConfig` returns can be relied on for.
use mathlib.Core.Path.{subst}
use coriolis_snapshot_agent.Common.{
  ℕ, ◌≤◌, ◌≡◌, ◌≢◌, refl, ◌⊎◌, inl, inr, true, false, List, [], ◌∷◌, String, All, any, arith, ◌==◌,
  eqb, if◌then◌else◌,
}
use coriolis_snapshot_agent.Result.{ok, Result-cases}
use coriolis_snapshot_agent.Config.{
  Config, ConfigHost, StoreMapping, TlsConfig, ApiServer, ℤ, pos, negsuc, tmpfs_magic, validate_tls,
  validate_api_server, check_mappings, validate, with_defaults, is_empty, parse_config,
  default_snap_store_file_size, destination_devices, involved_devices,
}
use coriolis_snapshot_agent.Storage.Files.{Statfs}

-- Every mapping points to a configured destination.
abbrev pub IsMapped : List String → List StoreMapping → Type 0
IsMapped destinations = All (λ m. any (λ location. location == m.location) destinations ≡ true)

port_cases : (z : ℤ) → ((n : ℕ) × (z ≡ pos n)) ⊎ ((n : ℕ) × (z ≡ negsuc n))
port_cases (pos n) = inl (n, refl)
port_cases (negsuc n) = inr (n, refl)

module _ (host : ConfigHost) where
  -- The database lies in a directory on a tmpfs, the server has a port and an address, the certificates
  -- can be read, and each mapping points to a destination.
  pub record IsValid (c : Config) : Type 0 where
    pub db_named : (c.db_file == "") ≡ false
    pub db_dir : host.stat (host.dir c.db_file) ≡ ok tt
    pub on_tmpfs : (s : Statfs) × (host.statfs (host.dir c.db_file) ≡ ok s) × (s.type ≡ tmpfs_magic)
    pub port_range : (n : ℕ) × (c.api_server.port ≡ pos n) × (1 ≤ n) × (n ≤ 65535)
    pub address : host.is_ip c.api_server.bind ≡ true
    pub authority :
        (pem : List ℕ) × (host.read_file c.api_server.tls_config.ca_cert ≡ ok pem)
        × (host.append_certs pem ≡ true)
    pub key_pair :
        host.load_key_pair c.api_server.tls_config.cert c.api_server.tls_config.key ≡ ok tt
    pub mapped : IsMapped c.cow_destination c.snap_store_mappings

  tls_valid :
      (t : TlsConfig)
      → validate_tls host t ≡ ok tt
      → ((pem : List ℕ) × (host.read_file t.ca_cert ≡ ok pem) × (host.append_certs pem ≡ true))
        × (host.load_key_pair t.cert t.key ≡ ok tt)
  unfolding validate_tls
  tls_valid t h = elim (Result-cases (host.read_file t.ca_cert)) [
    | inl (pem, e) ↦ ((pem, e, ground (arith, e)), ground (arith, e))
    | inr (x, e) ↦ absurd (ground (arith, e))
  ]

  mappings_valid :
      (destinations : List String) (ms : List StoreMapping)
      → check_mappings host destinations ms ≡ ok tt
      → IsMapped destinations ms
  unfolding check_mappings
  mappings_valid destinations [] h = tt
  mappings_valid destinations (m ∷ ms) h =
      (ground (arith), mappings_valid destinations ms (ground (arith)))

  server_valid :
      (a : ApiServer)
      → validate_api_server host a ≡ ok tt
      → ((n : ℕ) × (a.port ≡ pos n) × (1 ≤ n) × (n ≤ 65535))
        × (host.is_ip a.bind ≡ true)
        × (validate_tls host a.tls_config ≡ ok tt)
  unfolding validate_api_server
  server_valid a h = elim (port_cases a.port) [
    | inl (n, e) ↦
        ((n, e, ground (arith, e), ground (arith, e)), ground (arith, e), ground (arith, e))
    | inr (n, e) ↦ absurd (ground (arith, e))
  ]

  -- A configuration is accepted only if it is valid.
  validate-IsValid : (c : Config) → validate host c ≡ ok tt → IsValid c
  unfolding validate
  validate-IsValid c h = elim (Result-cases (host.statfs (host.dir c.db_file))) [
    | inr (x, e) ↦ absurd (ground (arith, e))
    | inl (s, e) ↦
        let (port, address, tls) = server_valid c.api_server (ground (arith, e)) in
        let (authority, key_pair) = tls_valid c.api_server.tls_config tls in
        record {
          db_named = ground (arith, e);
          db_dir = ground (arith, e);
          on_tmpfs = (s, e, ground (arith, e));
          port_range = port;
          address = address;
          authority = authority;
          key_pair = key_pair;
          mapped = mappings_valid c.cow_destination c.snap_store_mappings (ground (arith, e));
        }
  ]

  size_set : (n : ℕ) → (if eqb n 0 then default_snap_store_file_size else n) ≢ 0
  size_set n h = ground (arith)

  -- Whatever the file holds, a configuration that `ParseConfig` returns is valid, has a destination for
  -- the snap stores and a size for their files that is not 0.
  pub parse_config-IsValid :
      (path : String) (c : Config)
      → parse_config host path ≡ ok c
      → IsValid c × (is_empty host c.cow_destination ≡ false) × (c.snap_store_file_size ≢ 0)
  unfolding parse_config
  parse_config-IsValid path c h = elim (Result-cases (host.decode_file path)) [
    | inr (x, e) ↦ absurd (ground (arith, e))
    | inl (d, e) ↦ elim (Result-cases (destination_devices host d.cow_destination)) [
      | inr (x, e1) ↦ absurd (ground (arith, e, e1))
      | inl (devices, e1) ↦ elim (Result-cases (involved_devices devices host.sys_block)) [
        | inr (x, e2) ↦ absurd (ground (arith, e, e1, e2))
        | inl (paths, e2) ↦ elim (Result-cases (validate host (with_defaults host paths d))) [
          | inr (x, e3) ↦ absurd (ground (arith, e, e1, e2, e3))
          | inl (u, e3) ↦
              let same : with_defaults host paths d ≡ c = ground (arith, e, e1, e2, e3) in
              subst
                (λ (x : Config).
                  IsValid x
                  × (is_empty host x.cow_destination ≡ false)
                  × (x.snap_store_file_size ≢ 0))
                same
                (
                  validate-IsValid (with_defaults host paths d) e3,
                  ground (arith, e, e1, e2, e3),
                  size_set d.snap_store_file_size,
                )
        ]
      ]
    ]
  ]
