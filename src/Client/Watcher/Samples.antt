-- ===== src/Client/Watcher/Samples.antt =====
-- A call that is cancelled while it reads, half a line read, and one whose answer comes first.
use herdr_tokens.Prelude.{true, false, some, [], ◌∷◌, ◌≡◌, ◌⊎◌, refl}
use herdr_tokens.Client.Watcher.{
  Flight, Stage, returned, line_read, cancel, takes_request, sends_part, times_out, fires,
  launched_call, happens, happen, InFlight, launched, next,
}
use herdr_tokens.Client.Watcher.Cancelling.{cut_off, cancelled_returns}

abbrev stuck : Flight
stuck = record {
  stage = Stage.reading;
  part = true;
  watching = true;
  has_deadline = false;
  cancelled = true;
  expired = false;
}

abbrev started : Flight
started = launched_call false false

abbrev taken : Flight
taken = record started { stage = Stage.reading }

stuck-InFlight : InFlight stuck
unfolding happens
stuck-InFlight =
    next cancel (record taken { part = true }) stuck
      (next sends_part taken (record taken { part = true })
        (next takes_request started taken (launched false false) refl) refl)
      refl

cancelled_returns_example :
    ((stuck.watching ≡ true) × (happen (fires ∷ times_out ∷ []) stuck ≡ some (cut_off stuck)))
    ⊎ ((stuck.watching ≡ false) × (happen (times_out ∷ []) stuck ≡ some (cut_off stuck)))
cancelled_returns_example = cancelled_returns stuck stuck-InFlight refl refl

abbrev answered : Flight
answered = record taken { stage = returned line_read }

cancel_after : happens cancel answered ≡ some (record answered { cancelled = true })
unfolding happens
cancel_after = refl
