-- ===== src/Lifecycle/Commands/Daemon.antt =====
-- `daemon`, uninterrupted: it is refused the lock, or dies before it serves, or serves and clears up.
use herdr_tokens.Prelude.{
  ℕ, String, none, some, [], ◌∷◌, ◌≡◌, refl, ap, arith, Option-cases, inl, inr,
}
use herdr_tokens.Prelude.Result.{Result, ok, err}
use herdr_tokens.Config.{Config, ConfigError}
use herdr_tokens.Process.{ProcessError}
use herdr_tokens.Cli.{
  Answers, serve, daemon_on, daemon_with, file_of, failure, ran, Line, complained, took_lock,
  dropped_lock, wrote_pid, removed,
}
use herdr_tokens.Lifecycle.{
  State, move, idle, daemon_locking, daemon_locked, daemon_running, daemon_clearing, writes_pid,
  removes_pid, closes, closed,
}
use herdr_tokens.Lifecycle.Commands.{
  locks, unlocks, writes_file, removes_file, Steps, Replays, Agrees, then_step, locked_by, unlocked,
  at, gets, loses, gets_and_drops, says,
}

module _ (p : ℕ) (s : State) (fresh : s.phase p ≡ idle) where
  abbrev serving : State
  serving = record (move p daemon_running (locked_by p daemon_locked (move p daemon_locking s))) {
    pid_file = some p;
  }

  abbrev cleared : State
  cleared = record (move p daemon_clearing serving) { pid_file = none }

  -- `runDaemon` with the lock and a PID file.
  serves :
      s.holder ≡ none
      → Steps s
          (locks p ∷ writes_file p ∷ removes_file p ∷ unlocks p ∷ [])
          (unlocked p idle cleared)
  serves none_holds =
      then_step s cleared _
        (then_step s serving _
          (then_step s (locked_by p daemon_locked (move p daemon_locking s)) _
            (gets p s fresh daemon_locking daemon_locked refl refl none_holds)
            (writes_pid p (at p s fresh daemon_locked (move p daemon_locking s).phase)))
          (removes_pid p (
            at p s fresh daemon_running
              (locked_by p daemon_locked (move p daemon_locking s)).phase)))
        (closes p idle (ap closed (at p s fresh daemon_clearing serving.phase)))

  daemon_dies_early :
      (path : String) (e : Line)
      → s.holder ≡ none
      → Replays p s (took_lock path ∷ complained e ∷ dropped_lock path ∷ [])
  daemon_dies_early path e none_holds = record {
    end = unlocked p idle (locked_by p daemon_locked (move p daemon_locking s));
    trace = _;
    path = gets_and_drops p s fresh daemon_locking daemon_locked idle refl refl refl none_holds;
    follows = refl;
    holder = refl;
    pid_file = refl;
    phases = λ q. ground (arith, fresh);
  }

  daemon_runs :
      (path pid_path sock : String) (cfg : Config)
      → s.holder ≡ none
      → Replays p s (
          took_lock path
          ∷ wrote_pid pid_path
          ∷ ran cfg sock
          ∷ removed pid_path
          ∷ dropped_lock path
          ∷ [])
  daemon_runs path pid_path sock cfg none_holds = record {
    end = unlocked p idle cleared;
    trace = _;
    path = serves none_holds;
    follows = refl;
    holder = refl;
    pid_file = refl;
    phases = λ q. ground (arith, fresh);
  }

  serve-Replays :
      (a : Answers) (cfg : Config) (sock path pid_path : String)
      → s.holder ≡ none
      → Replays p s (took_lock path ∷ (serve a cfg sock path pid_path).1)
  serve-Replays a cfg sock path pid_path none_holds = elim (Option-cases (a.write_pid pid_path)) [
    | inl fine ↦ rw (fine, serve) (daemon_runs path pid_path sock cfg none_holds)
    | inr (e, fails) ↦ rw (fails, serve) (daemon_dies_early path (failure e) none_holds)
  ]

  daemon_refused : (r : ℕ) → s.holder ≡ some r → Replays p s []
  daemon_refused r holds = record {
    end = move p idle (move p daemon_locking s);
    trace = _;
    path = loses p s fresh daemon_locking idle r refl refl holds;
    follows = refl;
    holder = refl;
    pid_file = refl;
    phases = λ q. ground (arith, fresh);
  }

  daemon_on-Replays :
      (a : Answers)
      → Agrees a p s
      → (cfg : Config) (sock : Result ProcessError String) → Replays p s (daemon_on a cfg sock).1
  daemon_on-Replays a agrees cfg (err e) = says p s fresh _ refl refl refl refl
  daemon_on-Replays a agrees cfg (ok sock) = elim (Option-cases s.holder) [
    | inl none_holds ↦
        rw (agrees.free none_holds (file_of a sock "daemon.lock"))
          (serve-Replays a cfg sock _ _ none_holds)
    | inr (r, holds) ↦
        rw (agrees.taken r holds (file_of a sock "daemon.lock")) (daemon_refused r holds)
  ]

  pub daemon_with-Replays :
      (a : Answers)
      → Agrees a p s
      → (cfg : Result ConfigError Config) → Replays p s (daemon_with a cfg).1
  daemon_with-Replays a agrees (err e) = says p s fresh _ refl refl refl refl
  daemon_with-Replays a agrees (ok cfg) = daemon_on-Replays a agrees cfg a.socket
