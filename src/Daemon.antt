-- ===== src/Daemon.antt =====
-- internal/daemon/daemon.go, the loop of `run`: one round for each snapshot attempt, with the
-- environment's part of the round (what the attempt gave, what the clock said, and whether the
-- context ended in the wait) as an argument. The log is not modelled.
pub mod Steps
pub mod Backoff
pub mod Rounds
pub mod Samples
use herdr_tokens.Prelude.{
  ℕ, ◌*◌, Bool, true, false, Option, none, some, List, [], ◌∷◌, if◌then◌else◌,
}
use herdr_tokens.Prelude.Int.{ℤ, pos, ltb_ℤ, scale, wrap64}
use herdr_tokens.Config.{Config, millisecond, second}
use herdr_tokens.Wire.{Snapshot}
use herdr_tokens.Controller.{Reporter, Controller, new, invalidate, reconcile}

-- `defaultBaseBackoff` and `defaultMaxBackoff`
abbrev pub default_base_backoff : ℤ
default_base_backoff = pos (250 * millisecond)

abbrev pub default_max_backoff : ℤ
default_max_backoff = pos (5 * second)

-- The loop's variables, and the reporter's world.
pub record Loop (World : Type 0) : Type 0 where
  pub ctrl : Controller
  pub backoff : ℤ
  pub saw_failure : Bool
  pub world : World

-- What `client.Snapshot` gave: an error, or a snapshot and the time at which it is reconciled.
pub data Attempt : Type 0 where
  failed : Attempt
  got : Snapshot → ℤ → Attempt

-- One round's part of the environment: the attempt, and whether `ctx.Done()` ended the wait.
pub record Turn : Type 0 where
  pub attempt : Attempt
  pub stopped : Bool

-- `if backoff *= 2; backoff > maxBackoff { backoff = maxBackoff }`, on int64s.
unfoldable pub next_backoff : ℤ → ℤ → ℤ
next_backoff most backoff =
    let doubled = wrap64 (scale 2 backoff) in if ltb_ℤ most doubled then most else doubled

abbrev pub start : {World : Type 0} → Config → ℤ → World → Loop World
start cfg base w = record { ctrl = new cfg; backoff = base; saw_failure = false; world = w }

module _ {World E : Type 0} (rep : Reporter World E) (base most : ℤ) where
  -- What a round does with a snapshot.
  abbrev on_success : Snapshot → ℤ → Loop World → Loop World
  on_success snap now s =
      let ctrl = if s.saw_failure then invalidate s.ctrl else s.ctrl in
      let (_, ctrl', world') = reconcile rep ctrl snap now s.world in
      record { ctrl = ctrl'; backoff = base; saw_failure = false; world = world' }

  -- What the attempt leads to, and whether the context ends in the wait that follows.
  unfoldable pub attempted : Attempt → Bool → Loop World → Loop World
  attempted failed true s = record s { saw_failure = true }
  attempted failed false s = record s { saw_failure = true; backoff = next_backoff most s.backoff }
  attempted (got snap now) stopped s = on_success snap now s

  -- A round, and whether it was the last.
  unfoldable pub round : Turn → Loop World → Bool × Loop World
  unfolding attempted
  round turn s = (turn.stopped, attempted turn.attempt turn.stopped s)

  -- The rounds until the context ends; the result says whether it did before the turns ran out.
  unfoldable pub rounds : List Turn → Loop World → Bool × Loop World
  rounds [] s = (false, s)
  rounds (turn ∷ turns) s =
      let rest = rounds turns (round turn s).1 in
      if (round turn s).0 then (true, (round turn s).1) else rest

  unfoldable pub run : Config → World → List Turn → Bool × Loop World
  run cfg w turns = rounds turns (start cfg base w)
