-- ===== src/Plugin/Ticks.antt =====
-- What the parts guarantee together, tick by tick.
use herdr_tokens.Prelude.{Bool, true, false, ◌≡◌, refl, ◌⊎◌, inl, inr}
use herdr_tokens.Prelude.Int.{ℤ}
use herdr_tokens.Prelude.Result.{Result, ok, err}
use herdr_tokens.Wire.{Snapshot}
use herdr_tokens.Client.{Transport, Client, CallError, client_reporter, snapshot}
use herdr_tokens.Client.Replies.{Delivered, snapshot_iff}
use herdr_tokens.Daemon.{Loop, failed, attempted}
use herdr_tokens.Plugin.{Tick, attempt_of, tick}

Result-cases :
    (r : Result CallError Snapshot)
    → ((e : CallError) × (r ≡ err e)) ⊎ ((snap : Snapshot) × (r ≡ ok snap))
Result-cases (ok snap) = inr (snap, refl)
Result-cases (err e) = inl (e, refl)

-- What a round does with a failure.
failed_lem :
    {World : Type 0} (t : Transport World) (base most : ℤ) (stopped : Bool)
    (s : Loop (Client × World))
    → ((attempted (client_reporter t) base most failed stopped s).ctrl ≡ s.ctrl)
      × ((attempted (client_reporter t) base most failed stopped s).world ≡ s.world)
      × ((attempted (client_reporter t) base most failed stopped s).saw_failure ≡ true)
unfolding attempted
failed_lem t base most true s = (refl, refl, refl)
failed_lem t base most false s = (refl, refl, refl)

-- Unless a snapshot with a workspace in it is delivered, a tick of the daemon forgets nothing,
-- reports nothing (the world is as the attempt left it) and notes the failure: an unreadable or an
-- empty reply is never taken for an empty session.
pub tick-undelivered :
    {World : Type 0} (t : Transport World) (base most : ℤ) (env : Tick) (s : Loop (Client × World))
    → ((snap : Snapshot) → Delivered t s.world.0 s.world.1 snap → ⊥)
    → ((tick t base most env s).1.ctrl ≡ s.ctrl)
      × ((tick t base most env s).1.world
          ≡ ((snapshot t s.world.0 s.world.1).1, (snapshot t s.world.0 s.world.1).2))
      × ((tick t base most env s).1.saw_failure ≡ true)
unfolding tick
tick-undelivered t base most env s none = elim (Result-cases (snapshot t s.world.0 s.world.1).0) [
  | inl (e, h) ↦ rw (h, attempt_of) (failed_lem t base most env.stopped _)
  | inr (snap, h) ↦ absurd (none snap ((snapshot_iff t s.world.0 s.world.1 snap).0 h))
]
