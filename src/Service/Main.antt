-- ===== src/Service/Main.antt =====
-- cmd/coriolis-snapshot-agent/main.go and util/util.go: from the flags to the server.
use coriolis_snapshot_agent.Common.{Bool, String, ◌==◌, if◌then◌else◌, []}
use coriolis_snapshot_agent.Errors.{Error, plain, fs_not_exist, this, is}
use coriolis_snapshot_agent.Result.{
  Result, ok, err, Action, pure, raise, lift, ◌>>=◌, ◌>>◌, attempt,
}
use coriolis_snapshot_agent.Bolthold.{Bolthold}
use coriolis_snapshot_agent.Config.{Config, parse_config, validate_tls}
use coriolis_snapshot_agent.Ioctl.{Module, set_missing_kernel_entries}
use coriolis_snapshot_agent.Manager.{Texts}
use coriolis_snapshot_agent.Manager.State.{Agent, made_dir}
use coriolis_snapshot_agent.Manager.Host.{asked_now, done_now}
use coriolis_snapshot_agent.Manager.Startup.{new_manager}
use coriolis_snapshot_agent.Service.{World}

pub record Flags : Type 0 where
  pub conf : String
  pub install : Bool
  pub version : Bool

-- Where the log goes: the standard output, or a file that is rotated.
pub data LogWriter : Type 0 where
  stdout : LogWriter
  rotated : String → LogWriter

-- What becomes of the process.
pub data Outcome : Type 0 where
  prints_version : Outcome
  runs_install : Outcome
  fatal : Error → Outcome
  serves : Config → Outcome

module _ ⦃bolt : Bolthold⦄ {InfoStat VirtualMemoryStat : Type 0} (texts : Texts) (kmod : Module)
    (w : World InfoStat VirtualMemoryStat) where
  abbrev pub or_plain : Result (Unit {0}) → Result (Unit {0})
  or_plain (ok a) = ok tt
  or_plain (err e) = err plain

  unfoldable pub make_log_dir : String → Result (Unit {0}) → Action Agent (Unit {0})
  make_log_dir dirname (ok a) = pure tt
  make_log_dir dirname (err e) =
      if is e (this fs_not_exist)
      then done_now w.host (made_dir dirname) (λ out. or_plain (out.mkdir_all dirname))
      else raise plain

  -- `GetLoggingWriter`
  unfoldable pub get_logging_writer : Config → Action Agent LogWriter
  unfolding make_log_dir
  get_logging_writer config =
      let dirname = w.config_host.dir config.log_file in
      if config.log_file == "" then pure stdout else (do
        found ← attempt (asked_now w.host (λ out. out.stat dirname))
        make_log_dir dirname found
        pure (rotated config.log_file))

  -- `main` from the configuration to the server that listens; each error ends the process.
  -- `NewAPIController` and `Start` do not fail.
  unfoldable pub come_up : String → Action Agent Config
  unfolding get_logging_writer
  come_up conf = do
    config ← lift (parse_config w.config_host conf)
    writer ← get_logging_writer config
    lift ((set_missing_kernel_entries kmod []).0)
    new_manager w.host config texts w.kernel w.view w.config_host w.open_database w.new_id
    lift (validate_tls w.config_host config.api_server.tls_config)
    pure config

  abbrev pub ended : Result Config × Agent → Outcome × Agent
  ended (ok config, s) = (serves config, s)
  ended (err e, s) = (fatal e, s)

  -- `main`, in a process without watchers, up to the server.
  unfoldable pub main : Flags → Agent → Outcome × Agent
  unfolding come_up
  main flags s =
      let started = record s { watchers = [] } in
      if flags.version
      then (prints_version, started)
      else if flags.install
      then (runs_install, started)
      else ended (come_up flags.conf started)
