-- ===== src/Cli/Samples.antt =====
-- Runs of the commands, and the theorems about them.
use herdr_tokens.Prelude.{String, ◌+++◌, true, none, some, [], ◌∷◌, ◌≡◌, ◌↔◌, refl}
use herdr_tokens.Prelude.Int.{pos}
use herdr_tokens.Prelude.Result.{ok, err, OkThen}
use herdr_tokens.Dict.{lookup}
use herdr_tokens.Config.{Config, default, unsupported_schema}
use herdr_tokens.Wire.{Workspace}
use herdr_tokens.Derive.Samples.{office, lab, staff}
use herdr_tokens.Controller.Samples.{both}
use herdr_tokens.Process.{held, already_running}
use herdr_tokens.Cli.{
  config_path, Answers, start, stop, run_daemon, main, preview_tokens, said, running, took_lock,
  wrote_pid, ran, removed, dropped_lock, file_of, complained, config_error, log_at, signalled,
  stopped,
}
use herdr_tokens.Cli.Start.{spawns, Launches, start-spawns_iff, spawned-runs}
use herdr_tokens.Cli.Stop.{signals, Signals, stop-signals_iff}
use herdr_tokens.Cli.Locks.{LeavesNoLock, main-LeavesNoLock}
use herdr_tokens.Cli.Preview.{tokens_of, last_labelled, lookup-preview_tokens}

abbrev pub free : Answers
free = record {
  getenv = λ k. "";
  temp_dir = "/tmp/";
  join = λ d s. d +++ s;
  state_file = λ d sock name. d +++ name;
  load_config = λ path. ok default;
  socket = ok "/run/a";
  lock = λ path. held path;
  executable = ok "herdr-tokens";
  open_log = λ path. none;
  spawn = λ exe arg log. ok 4711;
  write_pid = λ path. none;
  read_pid = λ path. ok (pos 4711);
  find_process = λ pid. none;
  signal = λ pid. none;
  snapshot = λ sock. ok both;
}

abbrev busy : Answers
busy = record free { lock = λ path. already_running }

abbrev misconfigured : Answers
misconfigured = record free { load_config = λ path. err (unsupported_schema (pos 2)) }

runs :
    (start busy ≡ (0, said running ∷ []))
    × (start misconfigured ≡ (
      2,
      took_lock "/tmp/daemon.lock"
          ∷ dropped_lock "/tmp/daemon.lock"
          ∷ complained (config_error (unsupported_schema (pos 2)))
          ∷ complained (log_at "/tmp/daemon.log")
          ∷ [],
    ))
    × (stop busy ≡ (0, signalled (pos 4711) ∷ said (stopped (pos 4711)) ∷ []))
    × (run_daemon busy ≡ (0, []))
unfolding start stop run_daemon
runs = (refl, refl, refl, refl)

start-spawns_iff_example : (spawns (start free) ≡ true) ↔ OkThen free.socket (Launches free)
start-spawns_iff_example = start-spawns_iff free

spawned-runs_example :
    (cfg : Config) × (sock : String) × (path : String) × (free.load_config (config_path free)
      ≡ ok cfg)
    × (free.socket ≡ ok sock)
    × (free.lock (file_of free sock "daemon.lock") ≡ held path)
    × (run_daemon free ≡ (
      0,
      took_lock path
          ∷ wrote_pid (file_of free sock "daemon.pid")
          ∷ ran cfg sock
          ∷ removed (file_of free sock "daemon.pid")
          ∷ dropped_lock path
          ∷ [],
    ))
unfolding start
spawned-runs_example = spawned-runs free refl (λ path. refl)

stop-signals_iff_example : (signals (stop busy) ≡ true) ↔ OkThen busy.socket (Signals busy)
stop-signals_iff_example = stop-signals_iff busy

main-LeavesNoLock_example : LeavesNoLock (main free ("daemon" ∷ []))
main-LeavesNoLock_example = main-LeavesNoLock free ("daemon" ∷ [])

abbrev twin : Workspace
twin = record lab { label = "space-a" }

lookup-preview_tokens_example :
    lookup "space-a" (preview_tokens staff "label" (office ∷ twin ∷ []) [])
    ≡ tokens_of staff "label" (last_labelled "space-a" (office ∷ twin ∷ []))
lookup-preview_tokens_example = lookup-preview_tokens staff "label" "space-a" (office ∷ twin ∷ [])

-- Of two workspaces with one label, the first is not shown.
hidden : last_labelled "space-a" (office ∷ twin ∷ []) ≡ some twin
unfolding last_labelled
hidden = refl
