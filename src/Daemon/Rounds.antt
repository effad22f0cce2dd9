-- ===== src/Daemon/Rounds.antt =====
-- What the loop guarantees over its rounds: when it ends, what the controller remembers, and the
-- rewrite of every workspace after failures.
use herdr_tokens.Prelude.{
  String, Bool, true, false, Option, List, [], ◌∷◌, ◌++◌, ◌≡◌, refl, ◌∙◌, arith, any, map, inl, inr,
  Bool-cases,
}
use herdr_tokens.Prelude.Int.{ℤ}
use herdr_tokens.Dict.{Distinct}
use herdr_tokens.Config.{Config}
use herdr_tokens.Wire.{Workspace, Snapshot}
use herdr_tokens.Controller.{Reporter, reconcile, invalidate}
use herdr_tokens.Controller.Tracking.{IsTracking, reconcile-IsTracking}
use herdr_tokens.Controller.Calls.{Call, scripted, call_of, reconcile-invalidate}
use herdr_tokens.Daemon.Steps.{GoesOn, rounds-cons, rounds-append}
use herdr_tokens.Daemon.{Loop, Attempt, failed, got, Turn, attempted, round, rounds, run, start}

-- The workspaces of the last snapshot that was got, and `wss` if there is none.
abbrev pub last_workspaces : List Workspace → List Turn → List Workspace
last_workspaces wss [] = wss
last_workspaces wss (turn ∷ turns) =
    last_workspaces (elim turn.attempt [ failed ↦ wss | got snap now ↦ snap.workspaces ]) turns

module _ {World E : Type 0} (rep : Reporter World E) (base most : ℤ) where
  rounds-stopped :
      (turns : List Turn) (s : Loop World)
      → (rounds rep base most turns s).0 ≡ any (λ turn. turn.stopped) turns
  unfolding rounds round
  rounds-stopped [] s = refl
  rounds-stopped (turn ∷ turns) s =
      ground (arith, rounds-stopped turns (attempted rep base most turn.attempt turn.stopped s))

  attempted-IsTracking :
      (attempt : Attempt) (stopped : Bool) (s : Loop World) (wss : List Workspace)
      → IsTracking s.ctrl wss
      → IsTracking
          (attempted rep base most attempt stopped s).ctrl
          (elim attempt [ failed ↦ wss | got snap now ↦ snap.workspaces ])
  unfolding attempted
  attempted-IsTracking failed true s wss h = record { distinct = h.distinct; listed = h.listed }
  attempted-IsTracking failed false s wss h = record { distinct = h.distinct; listed = h.listed }
  attempted-IsTracking (got snap now) stopped s wss h = elim (Bool-cases s.saw_failure) [
    | inl again ↦ rw again (reconcile-IsTracking rep (invalidate s.ctrl) snap now s.world tt)
    | inr fine ↦ rw fine (reconcile-IsTracking rep s.ctrl snap now s.world h.distinct)
  ]

  rounds-IsTracking :
      (turns : List Turn) (s : Loop World) (wss : List Workspace)
      → GoesOn turns
      → IsTracking s.ctrl wss
      → IsTracking (rounds rep base most turns s).1.ctrl (last_workspaces wss turns)
  rounds-IsTracking [] s wss on h = unfold rounds in h
  rounds-IsTracking (turn ∷ turns) s wss (here, on) h =
      rw (rounds-cons rep base most turn turns s here)
        (rounds-IsTracking turns _ _ on (attempted-IsTracking turn.attempt false s wss h))

  attempted-cfg :
      (attempt : Attempt) (stopped : Bool) (s : Loop World)
      → (attempted rep base most attempt stopped s).ctrl.cfg ≡ s.ctrl.cfg
  unfolding attempted reconcile
  attempted-cfg failed true s = refl
  attempted-cfg failed false s = refl
  attempted-cfg (got snap now) stopped s = ground arith

  rounds-cfg :
      (turns : List Turn) (s : Loop World)
      → GoesOn turns
      → (rounds rep base most turns s).1.ctrl.cfg ≡ s.ctrl.cfg
  rounds-cfg [] s on = unfold rounds in refl
  rounds-cfg (turn ∷ turns) s (here, on) =
      rw (rounds-cons rep base most turn turns s here)
        (rounds-cfg turns _ on ∙ attempted-cfg turn.attempt false s)

-- The loop has ended exactly if the context ended in the wait of one of the turns.
run-stopped :
    {World E : Type 0} (rep : Reporter World E) (base most : ℤ) (cfg : Config) (w : World)
    (turns : List Turn)
    → (run rep base most cfg w turns).0 ≡ any (λ turn. turn.stopped) turns
unfolding run
run-stopped rep base most cfg w turns = rounds-stopped rep base most turns _

-- While the context lasts, whatever fails, the controller's records are of workspaces of the last
-- snapshot that was got, one for each of them at most, and there are none before the first.
pub run-IsTracking :
    {World E : Type 0} (rep : Reporter World E) (base most : ℤ) (cfg : Config) (w : World)
    (turns : List Turn)
    → GoesOn turns
    → IsTracking (run rep base most cfg w turns).1.ctrl (last_workspaces [] turns)
unfolding run
run-IsTracking rep base most cfg w turns on =
    rounds-IsTracking rep base most turns _ [] on (record { distinct = tt; listed = tt })

world-failed_got :
    {E : Type 0} (fails : String → Option E) (base most : ℤ) (snap : Snapshot) (now : ℤ)
    (s : Loop (List Call))
    → Distinct (map (λ (ws : Workspace). ws.workspace_id) snap.workspaces)
    → (rounds
        (scripted fails)
        base
        most
        (record { attempt = failed; stopped = false }
          ∷ record { attempt = got snap now; stopped = false }
          ∷ [])
        s).1.world
      ≡ s.world ++ map (call_of fails s.ctrl.cfg snap.agents now) snap.workspaces
unfolding rounds round
world-failed_got fails base most snap now s u = reconcile-invalidate fails s.ctrl snap now s.world u

-- With a reporter that logs its calls and fails for given workspaces: after any turns in none of
-- which the context ends, a failed attempt and then a snapshot whose workspaces have different ids make the
-- loop call the reporter once for every workspace of the snapshot, in order, also for those that the
-- snapshot shows as wanted.
pub recovery :
    {E : Type 0} (fails : String → Option E) (base most : ℤ) (cfg : Config) (log : List Call)
    (turns : List Turn) (snap : Snapshot) (now : ℤ)
    → GoesOn turns
    → Distinct (map (λ (ws : Workspace). ws.workspace_id) snap.workspaces)
    → (run (scripted fails) base most cfg log (
        turns
        ++ record { attempt = failed; stopped = false }
          ∷ record { attempt = got snap now; stopped = false }
          ∷ [])).1.world
      ≡ (run (scripted fails) base most cfg log turns).1.world
        ++ map (call_of fails cfg snap.agents now) snap.workspaces
unfolding run
recovery fails base most cfg log turns snap now on u =
    let rep = scripted fails in
    rw (rounds-append rep base most turns _ (start cfg base log) on) (
      world-failed_got fails base most snap now (rounds rep base most turns (start cfg base log)).1
        u
      ∙ rw (rounds-cfg rep base most turns (start cfg base log) on))
