-- ===== src/Client/Watcher/Cancelling.antt =====
-- A call whose context is done returns without help from the peer, and its goroutine ends.
use herdr_tokens.Prelude.{true, false, ◌||◌, some, [], ◌∷◌, ◌≡◌, ◌⊎◌, refl, arith, if◌then◌else◌}
use herdr_tokens.Client.Watcher.{
  writing, returned, Flight, Event, cancel, deadline_passes, takes_request, sends_part, sends_line,
  breaks_off, times_out, fires, leaves, part_read, blames_context, failed_stage, has_returned,
  happens, happen, InFlight, launched, next,
}

-- Until the call returns, the goroutine watches, or the connection's deadline has passed; and nothing
-- was read in a call that still writes.
abbrev IsGuarded : Flight → Type 0
IsGuarded s =
    ((has_returned s.stage || s.watching || s.expired) ≡ true)
    × (s.stage ≡ writing → s.part ≡ false)

happens-IsGuarded : (e : Event) (s s' : Flight) → IsGuarded s → happens e s ≡ some s' → IsGuarded s'
unfolding happens
happens-IsGuarded cancel s s' g h = ground arith
happens-IsGuarded deadline_passes s s' g h = ground arith
happens-IsGuarded takes_request s s' g h = ground arith
happens-IsGuarded sends_part s s' g h = ground arith
happens-IsGuarded sends_line s s' g h = ground arith
happens-IsGuarded breaks_off s s' g h = ground arith
happens-IsGuarded times_out s s' g h = ground arith
happens-IsGuarded fires s s' g h = ground arith
happens-IsGuarded leaves s s' g h = ground arith

InFlight-IsGuarded : (s : Flight) → InFlight s → IsGuarded s
InFlight-IsGuarded s (launched d c) = (refl, λ h. refl)
InFlight-IsGuarded s (next e r s' reach h) = happens-IsGuarded e r s (InFlight-IsGuarded r reach) h

-- What a call returns that is cancelled while it waits.
abbrev pub cut_off : Flight → Flight
cut_off s = record s {
  stage = returned (if s.part then part_read else blames_context);
  watching = false;
  expired = true;
}

cut_off_waiting :
    (s : Flight)
    → s.cancelled ≡ true
    → has_returned s.stage ≡ false
    → IsGuarded s
    → failed_stage s ≡ some (returned (if s.part then part_read else blames_context))
cut_off_waiting s c w g = ground arith

-- In every order of events, a call that still waits for the peer when its context is done returns
-- without the peer: the goroutine, if it has not done so, moves the deadline, and the operation fails,
-- with the context's error unless a part of the line was read.
pub cancelled_returns :
    (s : Flight)
    → InFlight s
    → s.cancelled ≡ true
    → has_returned s.stage ≡ false
    → ((s.watching ≡ true) × (happen (fires ∷ times_out ∷ []) s ≡ some (cut_off s)))
      ⊎ ((s.watching ≡ false) × (happen (times_out ∷ []) s ≡ some (cut_off s)))
unfolding happen
cancelled_returns s reach c w =
    let g = InFlight-IsGuarded s reach in
    let fails = cut_off_waiting s c w g in ground (arith, g, fails)
