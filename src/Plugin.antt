-- ===== src/Plugin.antt =====
-- The parts together, as `run` of internal/daemon/daemon.go wires them: the loop's attempts are
-- `Snapshot` calls of the client and the controller reports through the same client. What is left of
-- the environment is the transport, the clock, and whether the context ends in a wait.
pub mod Server
pub mod Herdr
pub mod Ticks
pub mod Samples
use herdr_tokens.Prelude.{ℕ, Bool, true, false, List, [], ◌∷◌, if◌then◌else◌}
use herdr_tokens.Prelude.Int.{ℤ}
use herdr_tokens.Prelude.Result.{Result, ok, err}
use herdr_tokens.Config.{Config}
use herdr_tokens.Wire.{Snapshot}
use herdr_tokens.Client.{
  Transport, Client, CallError, new_client, client_reporter, report_metadata, snapshot,
}
use herdr_tokens.Daemon.{Loop, Attempt, failed, got, Turn, start, round}

-- `time.Now()` after the attempt, and whether `ctx.Done()` ends the wait.
pub record Tick : Type 0 where
  pub now : ℤ
  pub stopped : Bool

-- `if err != nil`
abbrev pub attempt_of : Result CallError Snapshot → ℤ → Attempt
attempt_of (err e) now = failed
attempt_of (ok snap) now = got snap now

module _ {World : Type 0} (t : Transport World) (base most : ℤ) where
  -- One round: the attempt, and what the loop does with it.
  unfoldable pub tick : Tick → Loop (Client × World) → Bool × Loop (Client × World)
  unfolding snapshot report_metadata round
  tick env s =
      let (result, client, net) = snapshot t s.world.0 s.world.1 in
      round (client_reporter t) base most
        (record { attempt = attempt_of result env.now; stopped = env.stopped })
        (record s { world = (client, net) })

  unfoldable pub ticks : List Tick → Loop (Client × World) → Bool × Loop (Client × World)
  unfolding tick
  ticks [] s = (false, s)
  ticks (env ∷ rest) s =
      let later = ticks rest (tick env s).1 in
      if (tick env s).0 then (true, (tick env s).1) else later

  -- `run`, with a new client and a new controller
  unfoldable pub run_plugin : Config → World → List Tick → Bool × Loop (Client × World)
  unfolding ticks
  run_plugin cfg w rest = ticks rest (start cfg base (new_client, w))
