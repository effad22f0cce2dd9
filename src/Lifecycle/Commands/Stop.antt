-- ===== src/Lifecycle/Commands/Stop.antt =====
-- `stop`, uninterrupted: it gets the lock, or is refused it and reads the PID file.
use herdr_tokens.Prelude.{ℕ, String, none, some, [], ◌∷◌, ◌≡◌, refl, arith, Option-cases, inl, inr}
use herdr_tokens.Prelude.Int.{pos}
use herdr_tokens.Prelude.Result.{Result, ok, err}
use herdr_tokens.Process.{ProcessError}
use herdr_tokens.Cli.{
  Answers, stop_found, stop_pid, stop_locked as stop_with, stop_on, not_running, file_of, signalled,
  stopped, said, took_lock, dropped_lock,
}
use herdr_tokens.Lifecycle.{
  State, move, idle, stop_locking, stop_locked, stop_refused, stop_signalling, reads_pid,
  finds_no_pid, signals, fails_to_signal,
}
use herdr_tokens.Lifecycle.Commands.{
  Steps, Replays, Agrees, then_step, locked_by, unlocked, at, loses, gets_and_drops, says,
}

module _ (p : ℕ) (s : State) (fresh : s.phase p ≡ idle) where
  stop_finds_none :
      (path : String)
      → s.holder ≡ none
      → Replays p s (took_lock path ∷ dropped_lock path ∷ said not_running ∷ [])
  stop_finds_none path none_holds = record {
    end = unlocked p idle (locked_by p stop_locked (move p stop_locking s));
    trace = _;
    path = gets_and_drops p s fresh stop_locking stop_locked idle refl refl refl none_holds;
    follows = refl;
    holder = refl;
    pid_file = refl;
    phases = λ q. ground (arith, fresh);
  }

  -- `stop`, refused the lock: it finds a PID file and signals or fails to, or finds none.
  abbrev refused_stop : State
  refused_stop = move p stop_refused (move p stop_locking s)

  -- The last step of a stop that has read the PID file.
  abbrev at_target : ℕ → State
  at_target t = move p (stop_signalling t) refused_stop

  looks_at : (r t : ℕ) → s.holder ≡ some r → s.pid_file ≡ some t → Steps s [] (at_target t)
  looks_at r t holds names =
      then_step s refused_stop _ (loses p s fresh stop_locking stop_refused r refl refl holds)
        (reads_pid p t (at p s fresh stop_refused (move p stop_locking s).phase) names)

  stop_sends :
      (r t : ℕ)
      → s.holder ≡ some r
      → s.pid_file ≡ some t
      → Replays p s (signalled (pos t) ∷ said (stopped (pos t)) ∷ [])
  stop_sends r t holds names = record {
    end = move p idle (at_target t);
    trace = _;
    path =
        then_step s (at_target t) _ (looks_at r t holds names)
          (signals p t (at p s fresh (stop_signalling t) refused_stop.phase));
    follows = refl;
    holder = refl;
    pid_file = refl;
    phases = λ q. ground (arith, fresh);
  }

  stop_fails :
      (r t : ℕ) → s.holder ≡ some r → s.pid_file ≡ some t → Replays p s (said not_running ∷ [])
  stop_fails r t holds names = record {
    end = move p idle (at_target t);
    trace = _;
    path =
        then_step s (at_target t) _ (looks_at r t holds names)
          (fails_to_signal p t (at p s fresh (stop_signalling t) refused_stop.phase));
    follows = refl;
    holder = refl;
    pid_file = refl;
    phases = λ q. ground (arith, fresh);
  }

  stop_reads_none :
      (r : ℕ) → s.holder ≡ some r → s.pid_file ≡ none → Replays p s (said not_running ∷ [])
  stop_reads_none r holds unnamed = record {
    end = move p idle refused_stop;
    trace = _;
    path =
        then_step s refused_stop _ (loses p s fresh stop_locking stop_refused r refl refl holds)
          (finds_no_pid p (at p s fresh stop_refused (move p stop_locking s).phase) unnamed);
    follows = refl;
    holder = refl;
    pid_file = refl;
    phases = λ q. ground (arith, fresh);
  }

  stop_found-Replays :
      (a : Answers) (r t : ℕ)
      → s.holder ≡ some r
      → s.pid_file ≡ some t
      → Replays p s (stop_found a (pos t) (a.find_process (pos t))).1
  stop_found-Replays a r t holds names = elim (Option-cases (a.find_process (pos t))) [
    | inr (e, fails) ↦ rw (fails, stop_found) (stop_fails r t holds names)
    | inl found ↦ elim (Option-cases (a.signal (pos t))) [
      | inl sent ↦ rw (found, stop_found) (rw sent (stop_sends r t holds names))
      | inr (e, fails) ↦ rw (found, stop_found) (rw fails (stop_fails r t holds names))
    ]
  ]

  stop_pid-Replays :
      (a : Answers)
      → Agrees a p s
      → (r : ℕ) (path : String) → s.holder ≡ some r
      → Replays p s (stop_pid a (a.read_pid path)).1
  stop_pid-Replays a agrees r path holds = elim (Option-cases s.pid_file) [
    | inl unnamed ↦
        let (e, fails) = agrees.unnamed unnamed path in
        rw (fails, stop_pid) (stop_reads_none r holds unnamed)
    | inr (t, names) ↦
        rw (agrees.named t names path, stop_pid) (stop_found-Replays a r t holds names)
  ]

  pub stop_on-Replays :
      (a : Answers)
      → Agrees a p s
      → (sock : Result ProcessError String) → Replays p s (stop_on a sock).1
  stop_on-Replays a agrees (err e) = says p s fresh _ refl refl refl refl
  stop_on-Replays a agrees (ok sock) = elim (Option-cases s.holder) [
    | inl none_holds ↦
        rw (agrees.free none_holds (file_of a sock "daemon.lock"), stop_with)
          (stop_finds_none _ none_holds)
    | inr (r, holds) ↦
        rw (agrees.taken r holds (file_of a sock "daemon.lock"), stop_with)
          (stop_pid-Replays a agrees r _ holds)
  ]
