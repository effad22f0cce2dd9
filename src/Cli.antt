-- ===== src/Cli.antt =====
-- cmd/herdr-tokens/main.go: the commands. What a run of a command learns from the system is the
-- record `Answers`; each of its questions is asked once in a run. What the run does is a list of
-- events, in order, beside the exit code. A line keeps what its message shows.
pub mod Start
pub mod Stop
pub mod Locks
pub mod Preview
pub mod Samples
use herdr_tokens.Prelude.{
  ℕ, String, ◌==◌, ◌+++◌, Bool, Option, none, some, List, [], ◌∷◌, ◌++◌, if◌then◌else◌,
}
use herdr_tokens.Prelude.Int.{ℤ}
use herdr_tokens.Prelude.Result.{Result, ok, err}
use herdr_tokens.Dict.{Dict, insert}
use herdr_tokens.Config.{Config, ConfigError}
use herdr_tokens.Wire.{Workspace, Agent, Snapshot}
use herdr_tokens.Derive.{Tokens, desired}
use herdr_tokens.Client.{CallError}
use herdr_tokens.Process.{ProcessError, Lock, held, already_running, lock_failed}

pub record Answers : Type 0 where
  pub getenv : String → String
  pub temp_dir : String
  pub join : String → String → String
  -- `daemon.StateFile`
  pub state_file : String → String → String → String
  pub load_config : String → Result ConfigError Config
  pub socket : Result ProcessError String
  pub lock : String → Lock
  pub executable : Result String String
  pub open_log : String → Option String
  pub spawn : String → String → String → Result String ℕ
  pub write_pid : String → Option String
  pub read_pid : String → Result ProcessError ℤ
  pub find_process : ℤ → Option String
  pub signal : ℤ → Option String
  pub snapshot : String → Result CallError Snapshot

pub data Line : Type 0 where
  usage config_ok not_running running : Line
  version : String → Line
  config_error : ConfigError → Line
  process_error : ProcessError → Line
  call_error : CallError → Line
  failure : String → Line
  log_at : String → Line
  started : ℕ → String → Line
  stopped : ℤ → Line
  shown : Dict Tokens → Line

pub data Event : Type 0 where
  -- to the standard output, and to the standard error
  said complained : Line → Event
  took_lock dropped_lock : String → Event
  spawned : String → String → String → Event
  signalled : ℤ → Event
  wrote_pid removed : String → Event
  -- `daemon.Run`, from its start to its end
  ran : Config → String → Event

-- An exit code, and what was done before.
abbrev pub Outcome : Type 0
Outcome = ℕ × List Event

abbrev pub exit : ℕ → List Event → Outcome
exit code events = (code, events)

-- Events before the rest of a run.
abbrev pub after_events : List Event → Outcome → Outcome
after_events events (code, rest) = (code, events ++ rest)

-- `daemon.Version`
abbrev pub daemon_version : String
daemon_version = "0.1.0"

module _ (a : Answers) where
  unfoldable pub config_path : String
  config_path =
      let d = a.getenv "HERDR_PLUGIN_CONFIG_DIR" in
      if d == "" then "config.toml" else a.join d "config.toml"

  unfoldable pub state_dir : String
  state_dir = let d = a.getenv "HERDR_PLUGIN_STATE_DIR" in if d == "" then a.temp_dir else d

  abbrev pub file_of : String → String → String
  file_of sock name = a.state_file state_dir sock name

  -- The body of `runDaemon` once it has the lock; the deferred calls are the last events.
  abbrev pub serve : Config → String → String → String → Outcome
  serve cfg sock lock_path pid_path = elim (a.write_pid pid_path) [
    | some e ↦ exit 1 (complained (failure e) ∷ dropped_lock lock_path ∷ [])
    | none ↦
        exit 0 (wrote_pid pid_path ∷ ran cfg sock ∷ removed pid_path ∷ dropped_lock lock_path ∷ [])
  ]

  abbrev pub daemon_locked : Config → String → Lock → Outcome
  daemon_locked cfg sock (held path) =
      after_events (took_lock path ∷ []) (serve cfg sock path (file_of sock "daemon.pid"))
  daemon_locked cfg sock already_running = exit 0 []
  daemon_locked cfg sock (lock_failed e) = exit 1 (complained (failure e) ∷ [])

  abbrev pub daemon_on : Config → Result ProcessError String → Outcome
  daemon_on cfg (err e) = exit 1 (complained (process_error e) ∷ [])
  daemon_on cfg (ok sock) = daemon_locked cfg sock (a.lock (file_of sock "daemon.lock"))

  abbrev pub daemon_with : Result ConfigError Config → Outcome
  daemon_with (err e) = exit 2 (complained (config_error e) ∷ [])
  daemon_with (ok cfg) = daemon_on cfg a.socket

  -- `runDaemon`
  unfoldable pub run_daemon : Outcome
  unfolding config_path state_dir
  run_daemon = daemon_with (a.load_config config_path)

  abbrev pub launched : String → String → Result String ℕ → Outcome
  launched exe log (err e) = exit 1 (complained (failure e) ∷ complained (log_at log) ∷ [])
  launched exe log (ok pid) = exit 0 (spawned exe "daemon" log ∷ said (started pid log) ∷ [])

  abbrev pub start_logged : String → String → Option String → Outcome
  start_logged exe log (some e) = exit 1 (complained (failure e) ∷ [])
  start_logged exe log none = launched exe log (a.spawn exe "daemon" log)

  abbrev pub start_exe : String → Result String String → Outcome
  start_exe log (err e) = exit 1 (complained (failure e) ∷ complained (log_at log) ∷ [])
  start_exe log (ok exe) = start_logged exe log (a.open_log log)

  abbrev pub start_checked : String → Result ConfigError Config → Outcome
  start_checked log (err e) = exit 2 (complained (config_error e) ∷ complained (log_at log) ∷ [])
  start_checked log (ok cfg) = start_exe log a.executable

  abbrev pub start_locked : String → Lock → Outcome
  start_locked log (held path) =
      after_events (took_lock path ∷ dropped_lock path ∷ [])
        (start_checked log (a.load_config config_path))
  start_locked log already_running = exit 0 (said running ∷ [])
  start_locked log (lock_failed e) = exit 1 (complained (failure e) ∷ complained (log_at log) ∷ [])

  abbrev pub start_on : Result ProcessError String → Outcome
  start_on (err e) = exit 1 (complained (process_error e) ∷ [])
  start_on (ok sock) =
      start_locked (file_of sock "daemon.log") (a.lock (file_of sock "daemon.lock"))

  unfoldable pub start : Outcome
  unfolding config_path state_dir
  start = start_on a.socket

  abbrev pub stop_found : ℤ → Option String → Outcome
  stop_found pid (some e) = exit 0 (said not_running ∷ [])
  stop_found pid none = elim (a.signal pid) [
    | some e ↦ exit 0 (said not_running ∷ [])
    | none ↦ exit 0 (signalled pid ∷ said (stopped pid) ∷ [])
  ]

  abbrev pub stop_pid : Result ProcessError ℤ → Outcome
  stop_pid (err e) = exit 0 (said not_running ∷ [])
  stop_pid (ok pid) = stop_found pid (a.find_process pid)

  abbrev pub stop_locked : String → Lock → Outcome
  stop_locked sock (held path) = exit 0 (took_lock path ∷ dropped_lock path ∷ said not_running ∷ [])
  stop_locked sock already_running = stop_pid (a.read_pid (file_of sock "daemon.pid"))
  stop_locked sock (lock_failed e) =
      exit 1 (complained (failure e) ∷ complained (log_at (file_of sock "daemon.log")) ∷ [])

  abbrev pub stop_on : Result ProcessError String → Outcome
  stop_on (err e) = exit 1 (complained (process_error e) ∷ [])
  stop_on (ok sock) = stop_locked sock (a.lock (file_of sock "daemon.lock"))

  unfoldable pub stop : Outcome
  unfolding state_dir
  stop = stop_on a.socket

-- `for _, ws := range snap.Workspaces { out[ws.Label] = derive.Desired(...) }`
unfoldable pub preview_tokens : List Agent → String → List Workspace → Dict Tokens → Dict Tokens
preview_tokens agents mode [] out = out
preview_tokens agents mode (ws ∷ rest) out =
    preview_tokens agents mode rest (insert ws.label (desired ws agents mode) out)

module _ (a : Answers) where
  abbrev pub previewed : Config → Result CallError Snapshot → Outcome
  previewed cfg (err e) = exit 1 (complained (call_error e) ∷ [])
  previewed cfg (ok snap) =
      exit 0 (said (shown (preview_tokens snap.agents cfg.value snap.workspaces [])) ∷ [])

  abbrev pub preview_on : Config → Result ProcessError String → Outcome
  preview_on cfg (err e) = exit 1 (complained (process_error e) ∷ [])
  preview_on cfg (ok sock) = previewed cfg (a.snapshot sock)

  abbrev pub preview_with : Result ConfigError Config → Outcome
  preview_with (err e) = exit 2 (complained (config_error e) ∷ [])
  preview_with (ok cfg) = preview_on cfg a.socket

  unfoldable pub preview : Outcome
  unfolding preview_tokens config_path
  preview = preview_with (a.load_config (config_path a))

  abbrev pub config_checked : Result ConfigError Config → Outcome
  config_checked (err e) = exit 2 (complained (config_error e) ∷ [])
  config_checked (ok cfg) = exit 0 (said config_ok ∷ [])

  abbrev pub dispatch : String → Outcome
  dispatch cmd =
      if cmd == "version"
      then exit 0 (said (version daemon_version) ∷ [])
      else if cmd == "validate-config"
      then config_checked (a.load_config (config_path a))
      else if cmd == "preview"
      then preview
      else if cmd == "daemon"
      then run_daemon a
      else if cmd == "start"
      then start a
      else if cmd == "stop"
      then stop a
      else exit 2 (complained usage ∷ [])

  -- `main`, with the arguments after the program's name
  unfoldable pub main : List String → Outcome
  unfolding preview run_daemon start stop config_path
  main [] = exit 2 (complained usage ∷ [])
  main (cmd ∷ rest) = dispatch cmd
