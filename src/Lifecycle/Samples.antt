-- ===== src/Lifecycle/Samples.antt =====
-- The theorems about interleavings at a run: a daemon starts while a PID file is left over.
use herdr_tokens.Prelude.{ℕ, some, [], ◌∷◌, ◌≡◌, ◌≢◌, refl, arith}
use herdr_tokens.Lifecycle.{
  State, idle, start_locked, Reachable, initial, move, daemon_locking, daemon_locked,
  daemon_running, begins, acquires, writes_pid, at_first, stop_signalling,
}
use herdr_tokens.Cli.{main}
use herdr_tokens.Cli.Samples.{free}
use herdr_tokens.Lifecycle.Commands.{Agrees, Replays}
use herdr_tokens.Lifecycle.Commands.Runs.{main-Replays}
use herdr_tokens.Lifecycle.Exclusion.{Reachable-exclusion, Reachable-pid}
use herdr_tokens.Lifecycle.Stale.{Reachable-stale_signal}

abbrev locking : State
locking = move 7 daemon_locking (initial (some 3))

abbrev locked : State
locked = record (move 7 daemon_locked locking) { holder = some 7 }

abbrev serving : State
serving = record (move 7 daemon_running locked) { pid_file = some 7 }

serving-Reachable : Reachable (some 3) serving
serving-Reachable =
    Reachable.then _ _
      (Reachable.then _ _ (Reachable.then _ _ at_first (begins 7 daemon_locking refl refl))
        (acquires 7 daemon_locked refl refl))
      (writes_pid 7 refl)

Reachable-exclusion_example : ◌≡◌ {A = ℕ} 7 7
Reachable-exclusion_example = Reachable-exclusion (some 3) serving 7 7 serving-Reachable refl refl

Reachable-pid_example : serving.pid_file ≡ some 7
Reachable-pid_example = Reachable-pid (some 3) serving 7 serving-Reachable refl

Reachable-stale_signal_example :
    (s : State) × Reachable (some 3) s
    × (s.holder ≡ some 7)
    × (s.phase 7 ≡ start_locked)
    × (s.phase 8 ≡ stop_signalling 3)
    × ((r : ℕ) → r ≢ 7 → r ≢ 8 → s.phase r ≡ idle)
Reachable-stale_signal_example = Reachable-stale_signal 3 7 8 (ground arith)

-- A start by process 7 where process 4711 left its PID file, with answers that say so.
abbrev left_over : State
left_over = initial (some 4711)

free-Agrees : Agrees free 7 left_over
free-Agrees = record {
  free = λ h path. refl;
  taken = λ q h path. cc;
  named = λ t h path. cc;
  unnamed = λ h path. cc;
  new = λ exe arg log c h. (refl, ground arith);
}

main-Replays_example : Replays 7 left_over (main free ("start" ∷ [])).1
main-Replays_example = main-Replays free ("start" ∷ []) 7 left_over refl free-Agrees
