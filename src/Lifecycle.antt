-- ===== src/Lifecycle.antt =====
-- cmd/herdr-tokens/main.go, the commands of several processes on one socket, interleaved: the lock,
-- the PID file, and where each process stands in `runDaemon`, `start` or `stop`. A process may die
-- at any time, or leave on an error; the system then drops its lock, but not its PID file.
pub mod Exclusion
pub mod Stale
pub mod Commands
pub mod Samples
use herdr_tokens.Prelude.{ℕ, Bool, true, false, Option, none, some, ◌≡◌, ◌≢◌, nat_eq, if◌then◌else◌}

-- Where a process stands; `idle` is no process, or another program's.
pub data Phase : Type 0 where
  idle : Phase
  -- `runDaemon`: before the lock, with the lock, with the PID file too, without it again
  daemon_locking daemon_locked daemon_running daemon_clearing : Phase
  -- `start`: before the lock, with the lock, without it again
  start_locking start_locked start_free : Phase
  -- `stop`: before the lock, with the lock, refused by the lock, about to signal a process
  stop_locking stop_locked stop_refused : Phase
  stop_signalling : ℕ → Phase

pub record State : Type 0 where
  pub holder : Option ℕ
  pub pid_file : Option ℕ
  pub phase : ℕ → Phase

abbrev pub move : ℕ → Phase → State → State
move p there s = record s { phase = λ q. if nat_eq q p then there else s.phase q }

-- A command begins by trying to get the lock.
abbrev pub is_entry : Phase → Bool
is_entry daemon_locking = true
is_entry start_locking = true
is_entry stop_locking = true
is_entry _ = false

-- Where a process goes when it gets the lock, when it is refused, and when it closes the lock.
abbrev pub acquired : Phase → Option Phase
acquired daemon_locking = some daemon_locked
acquired start_locking = some start_locked
acquired stop_locking = some stop_locked
acquired _ = none

abbrev pub refused : Phase → Option Phase
refused daemon_locking = some idle
refused start_locking = some idle
refused stop_locking = some stop_refused
refused _ = none

abbrev pub closed : Phase → Option Phase
closed daemon_locked = some idle
closed daemon_clearing = some idle
closed start_locked = some start_free
closed stop_locked = some idle
closed _ = none

abbrev pub without : ℕ → Option ℕ → Option ℕ
without p none = none
without p (some q) = if nat_eq q p then none else some q

pub data Step (s : State) : State → Type 0 where
  begins :
      (p : ℕ) (there : Phase) → s.phase p ≡ idle → is_entry there ≡ true → Step s (move p there s)
  acquires :
      (p : ℕ) (there : Phase)
      → acquired (s.phase p) ≡ some there
      → s.holder ≡ none
      → Step s (record (move p there s) { holder = some p })
  is_refused :
      (p q : ℕ) (there : Phase)
      → refused (s.phase p) ≡ some there
      → s.holder ≡ some q
      → Step s (move p there s)
  writes_pid :
      (p : ℕ)
      → s.phase p ≡ daemon_locked
      → Step s (record (move p daemon_running s) { pid_file = some p })
  removes_pid :
      (p : ℕ)
      → s.phase p ≡ daemon_running
      → Step s (record (move p daemon_clearing s) { pid_file = none })
  -- `os.Remove` may fail, and its error is dropped.
  leaves_pid : (p : ℕ) → s.phase p ≡ daemon_running → Step s (move p daemon_clearing s)
  closes :
      (p : ℕ) (there : Phase)
      → closed (s.phase p) ≡ some there
      → Step s (record (move p there s) { holder = none })
  spawns :
      (p q : ℕ)
      → s.phase p ≡ start_free
      → s.phase q ≡ idle
      → Step s (move q daemon_locking (move p idle s))
  gives_up : (p : ℕ) → s.phase p ≡ start_free → Step s (move p idle s)
  reads_pid :
      (p t : ℕ)
      → s.phase p ≡ stop_refused
      → s.pid_file ≡ some t
      → Step s (move p (stop_signalling t) s)
  finds_no_pid : (p : ℕ) → s.phase p ≡ stop_refused → s.pid_file ≡ none → Step s (move p idle s)
  signals : (p t : ℕ) → s.phase p ≡ stop_signalling t → Step s (move p idle s)
  -- the process is not found, or the signal is not sent
  fails_to_signal : (p t : ℕ) → s.phase p ≡ stop_signalling t → Step s (move p idle s)
  dies : (p : ℕ) → Step s (record (move p idle s) { holder = without p s.holder })

-- At first no process runs and nobody holds the lock; a PID file may be left over.
abbrev pub initial : Option ℕ → State
initial left_over = record { holder = none; pid_file = left_over; phase = λ p. idle }

pub data Reachable (left_over : Option ℕ) : State → Type 0 where
  at_first : Reachable left_over (initial left_over)
  then : (s s' : State) → Reachable left_over s → Step s s' → Reachable left_over s'
