-- ===== src/Lifecycle/Stale.antt =====
-- A stop that runs beside a start can signal the process that a stale PID file names.
use herdr_tokens.Prelude.{ℕ, some, ◌≡◌, ◌≢◌, refl, arith}
use herdr_tokens.Lifecycle.{
  State, idle, Reachable, initial, move, start_locking, start_locked, stop_locking, stop_refused,
  stop_signalling, begins, acquires, is_refused, reads_pid, at_first,
}

module _ (t p q : ℕ) where
  abbrev starting : State
  starting = move p start_locking (initial (some t))

  abbrev locked_by_start : State
  locked_by_start = record (move p start_locked starting) { holder = some p }

  abbrev stopping : State
  stopping = move q stop_locking locked_by_start

  abbrev stop_waits : State
  stop_waits = move q stop_refused stopping

  abbrev about_to_signal : State
  about_to_signal = move q (stop_signalling t) stop_waits

  reached : p ≢ q → Reachable (some t) about_to_signal
  reached n =
      Reachable.then _ _
        (Reachable.then _ _
          (Reachable.then _ _
            (Reachable.then _ _ (Reachable.then _ _ at_first (begins p start_locking refl refl))
              (acquires p start_locked (ground arith) refl))
            (begins q stop_locking (ground arith) refl))
          (is_refused q p stop_refused (ground arith) refl))
        (reads_pid q t (ground arith) refl)

  no_other : (r : ℕ) → r ≢ p → r ≢ q → about_to_signal.phase r ≡ idle
  no_other r n m = ground arith

-- From a state in which no process runs and a PID file is left over, a state can be reached in which a
-- start has the lock, a stop is about to signal the process that the file names, and no other process
-- is there, no daemon above all.
pub Reachable-stale_signal :
    (t p q : ℕ)
    → p ≢ q
    → (s : State) × Reachable (some t) s
      × (s.holder ≡ some p)
      × (s.phase p ≡ start_locked)
      × (s.phase q ≡ stop_signalling t)
      × ((r : ℕ) → r ≢ p → r ≢ q → s.phase r ≡ idle)
Reachable-stale_signal t p q n =
    (about_to_signal t p q, reached t p q n, refl, ground arith, ground arith, no_other t p q)
