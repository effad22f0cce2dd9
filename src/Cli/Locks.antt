-- ===== src/Cli/Locks.antt =====
-- No command leaves a lock behind.
use herdr_tokens.Prelude.{String, Bool, true, false, List, [], ◌∷◌, ◌≡◌, refl, arith, count_if}
use herdr_tokens.Cli.{
  Answers, Event, Outcome, main, start, stop, preview, run_daemon, took_lock, dropped_lock,
}

abbrev is_take : Event → Bool
is_take (took_lock path) = true
is_take _ = false

abbrev is_drop : Event → Bool
is_drop (dropped_lock path) = true
is_drop _ = false

-- As many locks are dropped as are taken.
abbrev pub LeavesNoLock : Outcome → Type 0
LeavesNoLock (code, events) = count_if is_take events ≡ count_if is_drop events

module _ (a : Answers) where
  run_daemon-LeavesNoLock : LeavesNoLock (run_daemon a)
  unfolding run_daemon
  run_daemon-LeavesNoLock = ground arith

  start-LeavesNoLock : LeavesNoLock (start a)
  unfolding start
  start-LeavesNoLock = ground arith

  stop-LeavesNoLock : LeavesNoLock (stop a)
  unfolding stop
  stop-LeavesNoLock = ground arith

  preview-LeavesNoLock : LeavesNoLock (preview a)
  unfolding preview
  preview-LeavesNoLock = ground arith

-- Whatever the command and the answers, a run drops as many locks as it takes.
pub main-LeavesNoLock : (a : Answers) (args : List String) → LeavesNoLock (main a args)
unfolding main
main-LeavesNoLock a [] = refl
main-LeavesNoLock a (cmd ∷ rest) = ground (
  arith,
  run_daemon-LeavesNoLock a,
  start-LeavesNoLock a,
  stop-LeavesNoLock a,
  preview-LeavesNoLock a,
)
