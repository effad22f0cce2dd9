-- ===== src/Cli/Start.antt =====
-- When `start` spawns a daemon, and what then becomes of it.
use herdr_tokens.Prelude.{
  String, Bool, true, false, Option, none, some, [], ◌∷◌, ◌≡◌, ◌↔◌, refl, any,
}
use herdr_tokens.Prelude.Result.{Result, ok, OkThen, OkThen_iff}
use herdr_tokens.Config.{Config, ConfigError}
use herdr_tokens.Process.{Lock, held, already_running, lock_failed}
use herdr_tokens.Cli.{
  Answers, Event, Outcome, start, config_path, file_of, start_on, start_locked, start_checked,
  start_exe, start_logged, launched, run_daemon, spawned, took_lock, dropped_lock, wrote_pid, ran,
  removed, daemon_with, daemon_on, daemon_locked, serve,
}

abbrev is_spawn : Event → Bool
is_spawn (spawned exe arg log) = true
is_spawn _ = false

abbrev pub spawns : Outcome → Bool
spawns (code, events) = any is_spawn events

-- What has to go well once the log's path is known.
abbrev Logged : Answers → String → String → Type 0
Logged a log exe = (a.open_log log ≡ none) × OkThen (a.spawn exe "daemon" log) (λ pid. Unit {0})

-- What has to go well for `start` to spawn: the lock is free, the configuration loads, and the
-- executable, the log and the process are there.
abbrev pub Launches : Answers → String → Type 0
Launches a sock =
    ((path : String) × (a.lock (file_of a sock "daemon.lock") ≡ held path))
    × OkThen (a.load_config (config_path a))
        (λ cfg. OkThen a.executable (Logged a (file_of a sock "daemon.log")))

module _ (a : Answers) where
  start_logged_iff :
      (exe log : String) (o : Option String)
      → (spawns (start_logged a exe log o) ≡ true)
        ↔ ((o ≡ none) × OkThen (a.spawn exe "daemon" log) (λ pid. Unit {0}))
  start_logged_iff exe log none =
      let (to, from) =
        OkThen_iff (λ r. spawns (launched a exe log r)) (a.spawn exe "daemon" log) (λ e. refl)
          (λ pid. ((λ _. tt), λ _. refl)) in
      ((λ h. (refl, to h)), λ (_, h). from h)
  start_logged_iff exe log (some e) = ((λ h. cc), λ (h, _). cc)

  start_checked_iff :
      (log : String) (r : Result ConfigError Config)
      → (spawns (start_checked a log r) ≡ true)
        ↔ OkThen r (λ cfg. OkThen a.executable (Logged a log))
  start_checked_iff log r =
      OkThen_iff (λ r. spawns (start_checked a log r)) r (λ e. refl)
        λ cfg.
          OkThen_iff (λ r. spawns (start_exe a log r)) a.executable (λ e. refl)
            λ exe. start_logged_iff exe log (a.open_log log)

  start_locked_iff :
      (log : String) (l : Lock)
      → (spawns (start_locked a log l) ≡ true) ↔ (
          ((path : String) × (l ≡ held path))
          × OkThen (a.load_config (config_path a)) (λ cfg. OkThen a.executable (Logged a log)))
  start_locked_iff log (held path) =
      let (to, from) = start_checked_iff log (a.load_config (config_path a)) in
      ((λ h. ((path, refl), to h)), λ (_, rest). from rest)
  start_locked_iff log already_running = ((λ h. cc), λ ((path, h), _). cc)
  start_locked_iff log (lock_failed e) = ((λ h. cc), λ ((path, h), _). cc)

-- `start` spawns a daemon exactly if the socket's path is known, the lock is free, the configuration
-- loads, and the executable, the log and the process are there.
pub start-spawns_iff : (a : Answers) → (spawns (start a) ≡ true) ↔ OkThen a.socket (Launches a)
unfolding start
start-spawns_iff a =
    OkThen_iff (λ r. spawns (start_on a r)) a.socket (λ e. refl)
      λ sock.
        start_locked_iff a (file_of a sock "daemon.log") (a.lock (file_of a sock "daemon.lock"))

-- A child that `start` spawned, if it sees what `start` saw and can write its PID file, does not die
-- at once: it gets the lock of the socket, runs the loop with the configuration that the file holds,
-- and on its end removes the PID file and drops the lock.
pub spawned-runs :
    (a : Answers)
    → spawns (start a) ≡ true
    → ((path : String) → a.write_pid path ≡ none)
    → (cfg : Config) × (sock : String) × (path : String) × (a.load_config (config_path a) ≡ ok cfg)
      × (a.socket ≡ ok sock)
      × (a.lock (file_of a sock "daemon.lock") ≡ held path)
      × (run_daemon a ≡ (
        0,
        took_lock path
            ∷ wrote_pid (file_of a sock "daemon.pid")
            ∷ ran cfg sock
            ∷ removed (file_of a sock "daemon.pid")
            ∷ dropped_lock path
            ∷ [],
      ))
unfolding run_daemon
spawned-runs a h writes =
    let (sock, (s, ((path, l), (cfg, (c, _))))) = (start-spawns_iff a).0 h in
    (
      cfg,
      sock,
      path,
      c,
      s,
      l,
      rw (c, daemon_with)
          (rw (s, daemon_on)
            (rw (l, daemon_locked) (rw (writes (file_of a sock "daemon.pid"), serve) refl))),
    )
