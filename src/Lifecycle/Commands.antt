-- ===== src/Lifecycle/Commands.antt =====
-- The commands of Cli in the model of several processes: a run of a command that no other process
-- interrupts is a path of its steps.
pub mod Daemon
pub mod Start
pub mod Stop
pub mod Runs
use herdr_tokens.Prelude.{
  ℕ, String, ◌==◌, Bool, true, false, Option, none, some, List, [], ◌∷◌, ◌++◌, ◌≡◌, ◌≢◌, ◌⊎◌, refl,
  ap, sym, subst, ◌∙◌, arith, nat_eq, if◌then◌else◌, Bool-cases, Option-cases, inl, inr,
}
use herdr_tokens.Prelude.Int.{ℤ, pos, negsuc}
use herdr_tokens.Prelude.Result.{Result, ok, err}
use herdr_tokens.Config.{Config, ConfigError}
use herdr_tokens.Process.{ProcessError, Lock, already_running}
use herdr_tokens.Client.{CallError}
use herdr_tokens.Wire.{Snapshot}
use herdr_tokens.Cli.{
  Answers, launched, start_exe, start_logged, start_checked, start_locked as start_with, start_on,
  stop_found, stop_pid, stop_locked as stop_with, stop_on, config_path, dispatch, previewed,
  preview_on, preview_with, config_checked, running, not_running, serve, daemon_on, daemon_with,
  file_of, failure, ran, Event, Outcome, Line, main, start, stop, run_daemon, preview, said,
  complained, signalled, took_lock, dropped_lock, wrote_pid, removed, started,
}
use herdr_tokens.Lifecycle.{
  Phase, State, Step, Reachable, move, idle, daemon_locking, daemon_locked, daemon_running,
  daemon_clearing, start_locking, start_locked, start_free, stop_locking, stop_locked, stop_refused,
  stop_signalling, leaves_pid, fails_to_signal, dies, begins, acquires, is_refused, writes_pid,
  removes_pid, closes, closed, acquired, refused, is_entry, spawns, gives_up, reads_pid,
  finds_no_pid, signals,
}

-- What the events of a run leave of the lock, of the PID file, and of a child.
abbrev pub holder_after : ℕ → List Event → Option ℕ → Option ℕ
holder_after p [] h = h
holder_after p (took_lock path ∷ es) h = holder_after p es (some p)
holder_after p (dropped_lock path ∷ es) h = holder_after p es none
holder_after p (_ ∷ es) h = holder_after p es h

abbrev pub pid_file_after : ℕ → List Event → Option ℕ → Option ℕ
pid_file_after p [] f = f
pid_file_after p (wrote_pid path ∷ es) f = pid_file_after p es (some p)
pid_file_after p (removed path ∷ es) f = pid_file_after p es none
pid_file_after p (_ ∷ es) f = pid_file_after p es f

abbrev child_in : Line → Option ℕ → Option ℕ
child_in (started pid log) c = some pid
child_in _ c = c

abbrev pub child_of : List Event → Option ℕ
child_of [] = none
child_of (said line ∷ es) = child_in line (child_of es)
child_of (_ ∷ es) = child_of es

-- The phases with a child that has begun.
abbrev pub with_child : Option ℕ → (ℕ → Phase) → ℕ → Phase
with_child none phase q = phase q
with_child (some c) phase q = if nat_eq q c then daemon_locking else phase q

-- What a process does that others can see: in a run's events, and in the steps of several processes.
pub data Mark : Type 0 where
  locks unlocks writes_file removes_file : ℕ → Mark
  signals_process forks_child : ℕ → ℕ → Mark

abbrev mark_of_line : ℕ → Line → List Mark
mark_of_line p (started pid log) = forks_child p pid ∷ []
mark_of_line p _ = []

abbrev mark_of_signal : ℕ → ℤ → List Mark
mark_of_signal p (pos t) = signals_process p t ∷ []
mark_of_signal p (negsuc t) = []

abbrev mark_of_event : ℕ → Event → List Mark
mark_of_event p (took_lock path) = locks p ∷ []
mark_of_event p (dropped_lock path) = unlocks p ∷ []
mark_of_event p (wrote_pid path) = writes_file p ∷ []
mark_of_event p (removed path) = removes_file p ∷ []
mark_of_event p (signalled t) = mark_of_signal p t
mark_of_event p (said line) = mark_of_line p line
mark_of_event p _ = []

-- The marks of a run's events, by the process that runs.
abbrev pub marks_of : ℕ → List Event → List Mark
marks_of p [] = []
marks_of p (e ∷ es) = mark_of_event p e ++ marks_of p es

abbrev pub mark : {s t : State} → Step s t → List Mark
mark (acquires p there h n) = locks p ∷ []
mark (closes p there h) = unlocks p ∷ []
mark (writes_pid p h) = writes_file p ∷ []
mark (removes_pid p h) = removes_file p ∷ []
mark (spawns p q h new) = forks_child p q ∷ []
mark (signals p t h) = signals_process p t ∷ []
mark _ = []

-- Steps of several processes, with their marks in order.
pub data Steps (s : State) : List Mark → State → Type 0 where
  here : Steps s [] s
  and_then :
      (ms : List Mark) (t u : State)
      → Steps s ms t
      → (last : Step t u) → Steps s (ms ++ mark last) u

-- A run with these events, of a process that then is gone: its steps have the marks of the events, in
-- the same order.
pub record Replays (p : ℕ) (s : State) (events : List Event) : Type 0 where
  pub end : State
  pub trace : List Mark
  pub path : Steps s trace end
  pub follows : trace ≡ marks_of p events
  pub holder : end.holder ≡ holder_after p events s.holder
  pub pid_file : end.pid_file ≡ pid_file_after p events s.pid_file
  pub phases : (q : ℕ) → end.phase q ≡ with_child (child_of events) s.phase q

-- What the system answers a command is what the state says.
pub record Agrees (a : Answers) (p : ℕ) (s : State) : Type 0 where
  pub free : s.holder ≡ none → (path : String) → a.lock path ≡ Lock.held path
  pub taken : (q : ℕ) → s.holder ≡ some q → (path : String) → a.lock path ≡ already_running
  pub named : (t : ℕ) → s.pid_file ≡ some t → (path : String) → a.read_pid path ≡ ok (pos t)
  pub unnamed : s.pid_file ≡ none → (path : String) → (e : ProcessError) × (a.read_pid path ≡ err e)
  pub new :
      (exe arg log : String) (c : ℕ)
      → a.spawn exe arg log ≡ ok c
      → (s.phase c ≡ idle) × (nat_eq c p ≡ false)

pub result_cases {ℓ κ} :
    {E : Type ℓ} {A : Type κ} (r : Result E A) → ((e : E) × (r ≡ err e)) ⊎ ((x : A) × (r ≡ ok x))
result_cases (err e) = inl (e, refl)
result_cases (ok x) = inr (x, refl)

pub there_lem :
    (p : ℕ) (there : Phase) (phase : ℕ → Phase) → (if nat_eq p p then there else phase p) ≡ there
there_lem p there phase = ground arith

pub then_step :
    {ms : List Mark} (s t u : State)
    → Steps s ms t
    → (last : Step t u) → Steps s (ms ++ mark last) u
then_step s t u path last = and_then _ t u path last

abbrev pub locked_by : ℕ → Phase → State → State
locked_by p there s = record (move p there s) { holder = some p }

abbrev pub unlocked : ℕ → Phase → State → State
unlocked p there s = record (move p there s) { holder = none }

module _ (p : ℕ) (s : State) (fresh : s.phase p ≡ idle) where
  pub at : (there : Phase) (phase : ℕ → Phase) → (if nat_eq p p then there else phase p) ≡ there
  at there phase = there_lem p there phase

  -- A command gets the lock, or is refused it.
  pub gets :
      (there inside : Phase)
      → is_entry there ≡ true
      → acquired there ≡ some inside
      → s.holder ≡ none
      → Steps s (locks p ∷ []) (locked_by p inside (move p there s))
  gets there inside e h none_holds =
      then_step s (move p there s) _ (then_step s s (move p there s) here (begins p there fresh e))
        (acquires p inside (ap acquired (at there s.phase) ∙ h) none_holds)

  pub loses :
      (there out : Phase) (q : ℕ)
      → is_entry there ≡ true
      → refused there ≡ some out
      → s.holder ≡ some q
      → Steps s [] (move p out (move p there s))
  loses there out q e h holds =
      then_step s (move p there s) _ (then_step s s (move p there s) here (begins p there fresh e))
        (is_refused p q out (ap refused (at there s.phase) ∙ h) holds)

  pub gets_and_drops :
      (there inside out : Phase)
      → is_entry there ≡ true
      → acquired there ≡ some inside
      → closed inside ≡ some out
      → s.holder ≡ none
      → Steps s (locks p ∷ unlocks p ∷ []) (unlocked p out (locked_by p inside (move p there s)))
  gets_and_drops there inside out e h c none_holds =
      then_step s (locked_by p inside (move p there s)) _ (gets there inside e h none_holds)
        (closes p out (ap closed (at inside (move p there s).phase) ∙ c))

  -- A process that only says something.
  pub says :
      (events : List Event)
      → holder_after p events s.holder ≡ s.holder
      → pid_file_after p events s.pid_file ≡ s.pid_file
      → child_of events ≡ none
      → marks_of p events ≡ []
      → Replays p s events
  says events h f c m = record {
    end = s;
    trace = [];
    path = here;
    follows = sym m;
    holder = sym h;
    pid_file = sym f;
    phases = λ q. rw c refl;
  }
