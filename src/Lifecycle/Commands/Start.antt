-- ===== src/Lifecycle/Commands/Start.antt =====
-- `start`, uninterrupted: it is refused the lock, or looks at it and spawns a daemon or gives up.
use herdr_tokens.Prelude.{
  ℕ, String, false, none, some, List, [], ◌∷◌, ◌≡◌, refl, ap, sym, arith, nat_eq, Option-cases, inl,
  inr,
}
use herdr_tokens.Prelude.Result.{Result, ok, err}
use herdr_tokens.Config.{Config, ConfigError}
use herdr_tokens.Process.{ProcessError}
use herdr_tokens.Cli.{
  Answers, launched, start_exe, start_logged, start_checked, start_locked as start_with, start_on,
  config_path, running, file_of, Event, said, took_lock, dropped_lock, started,
}
use herdr_tokens.Lifecycle.{
  State, move, idle, daemon_locking, start_locking, start_locked, start_free, spawns, gives_up,
}
use herdr_tokens.Lifecycle.Commands.{
  marks_of, locks, unlocks, holder_after, pid_file_after, child_of, Steps, Replays, Agrees,
  result_cases, then_step, locked_by, unlocked, at, loses, gets_and_drops, says,
}

module _ (p : ℕ) (s : State) (fresh : s.phase p ≡ idle) where
  -- `start` after its look at p s fresh the lock: without a child, and with one.
  abbrev looked : State
  looked = unlocked p start_free (locked_by p start_locked (move p start_locking s))

  looks : s.holder ≡ none → Steps s (locks p ∷ unlocks p ∷ []) looked
  looks none_holds =
      gets_and_drops p s fresh start_locking start_locked start_free refl refl refl none_holds

  start_ends :
      (path : String) (events : List Event)
      → s.holder ≡ none
      → holder_after p events none ≡ none
      → pid_file_after p events s.pid_file ≡ s.pid_file
      → child_of events ≡ none
      → marks_of p events ≡ []
      → Replays p s (took_lock path ∷ dropped_lock path ∷ events)
  start_ends path events none_holds h f c m = record {
    end = move p idle looked;
    trace = _;
    path = then_step s looked _ (looks none_holds) (
        gives_up p
          (at p s fresh start_free (locked_by p start_locked (move p start_locking s)).phase));
    follows = ap (λ ms. locks p ∷ unlocks p ∷ ms) (sym m);
    holder = sym h;
    pid_file = sym f;
    phases = λ q. rw c (ground (arith, fresh));
  }

  start_spawns :
      (path exe log : String) (c : ℕ)
      → s.holder ≡ none
      → s.phase c ≡ idle
      → nat_eq c p ≡ false
      → Replays p s (
          took_lock path
          ∷ dropped_lock path
          ∷ Event.spawned exe "daemon" log
          ∷ said (started c log)
          ∷ [])
  start_spawns path exe log c none_holds new other = record {
    end = move c daemon_locking (move p idle looked);
    trace = _;
    path = then_step s looked _ (looks none_holds) (
        spawns p c
          (at p s fresh start_free (locked_by p start_locked (move p start_locking s)).phase)
          (ground (arith, new)));
    follows = refl;
    holder = refl;
    pid_file = refl;
    phases = λ q. ground (arith, fresh);
  }

  launched-Replays :
      (a : Answers)
      → Agrees a p s
      → (path exe log : String) → s.holder ≡ none
      → Replays p s
          (took_lock path ∷ dropped_lock path ∷ (launched a exe log (a.spawn exe "daemon" log)).1)
  launched-Replays a agrees path exe log none_holds =
      elim (result_cases (a.spawn exe "daemon" log)) [
        | inl (e, fails) ↦ rw (fails, launched) (start_ends path _ none_holds refl refl refl refl)
        | inr (c, works) ↦
            let (new, other) = agrees.new exe "daemon" log c works in
            rw (works, launched) (start_spawns path exe log c none_holds new other)
      ]

  start_exe-Replays :
      (a : Answers)
      → Agrees a p s
      → (path log : String) (exe : Result String String) → s.holder ≡ none
      → Replays p s (took_lock path ∷ dropped_lock path ∷ (start_exe a log exe).1)
  start_exe-Replays a agrees path log (err e) none_holds =
      start_ends path _ none_holds refl refl refl refl
  start_exe-Replays a agrees path log (ok exe) none_holds = elim (Option-cases (a.open_log log)) [
    | inl opens ↦ rw (opens, start_logged) (launched-Replays a agrees path exe log none_holds)
    | inr (e, fails) ↦ rw (fails, start_logged) (start_ends path _ none_holds refl refl refl refl)
  ]

  start_checked-Replays :
      (a : Answers)
      → Agrees a p s
      → (path log : String) (cfg : Result ConfigError Config) → s.holder ≡ none
      → Replays p s (took_lock path ∷ dropped_lock path ∷ (start_checked a log cfg).1)
  start_checked-Replays a agrees path log (err e) none_holds =
      start_ends path _ none_holds refl refl refl refl
  start_checked-Replays a agrees path log (ok cfg) none_holds =
      start_exe-Replays a agrees path log a.executable none_holds

  start_refused : (r : ℕ) → s.holder ≡ some r → Replays p s (said running ∷ [])
  start_refused r holds = record {
    end = move p idle (move p start_locking s);
    trace = _;
    path = loses p s fresh start_locking idle r refl refl holds;
    follows = refl;
    holder = refl;
    pid_file = refl;
    phases = λ q. ground (arith, fresh);
  }

  pub start_on-Replays :
      (a : Answers)
      → Agrees a p s
      → (sock : Result ProcessError String) → Replays p s (start_on a sock).1
  start_on-Replays a agrees (err e) = says p s fresh _ refl refl refl refl
  start_on-Replays a agrees (ok sock) = elim (Option-cases s.holder) [
    | inl none_holds ↦
        rw (agrees.free none_holds (file_of a sock "daemon.lock"), start_with)
          (start_checked-Replays a agrees _ _ (a.load_config (config_path a)) none_holds)
    | inr (r, holds) ↦
        rw (agrees.taken r holds (file_of a sock "daemon.lock"), start_with) (start_refused r holds)
  ]
