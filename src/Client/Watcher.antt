-- ===== src/Client/Watcher.antt =====
-- `call` of internal/herdrapi/client.go while it writes and reads, beside the goroutine that watches
-- the context: the events of both, of the context and of the peer, in any order.
pub mod Cancelling
pub mod Samples
use herdr_tokens.Prelude.{
  Bool, true, false, not, ◌&&◌, Option, none, some, List, [], ◌∷◌, ◌≡◌, if◌then◌else◌,
}

-- How the write and the read end: a line, what was read of one, the context's error or the
-- connection's.
pub data Outcome : Type 0 where
  line_read part_read blames_context blames_connection : Outcome

-- `done` is closed when the call returns.
pub data Stage : Type 0 where
  writing reading : Stage
  returned : Outcome → Stage

pub record Flight : Type 0 where
  pub stage : Stage
  -- something was read, but not the line break
  pub part : Bool
  -- the goroutine is in its `select`
  pub watching : Bool
  pub has_deadline : Bool
  -- the context is done
  pub cancelled : Bool
  -- the connection's deadline has passed
  pub expired : Bool

pub data Event : Type 0 where
  -- of the context
  cancel deadline_passes : Event
  -- of the peer
  takes_request sends_part sends_line breaks_off : Event
  -- of the call: a blocked operation fails as its deadline has passed
  times_out : Event
  -- of the goroutine
  fires leaves : Event

abbrev pub launched_call : Bool → Bool → Flight
launched_call has_deadline cancelled = record {
  stage = writing;
  part = false;
  watching = true;
  has_deadline = has_deadline;
  cancelled = cancelled;
  expired = false;
}

-- `if ctx.Err() != nil`
abbrev pub blamed : Bool → Outcome
blamed cancelled = if cancelled then blames_context else blames_connection

-- What a failed read gives: `if err != nil && len(line) == 0`.
abbrev pub failed_read : Bool → Bool → Outcome
failed_read part cancelled = if part then part_read else blamed cancelled

abbrev pub failed_stage : Flight → Option Stage
failed_stage s = elim s.stage [
  | writing ↦ some (returned (blamed s.cancelled))
  | reading ↦ some (returned (failed_read s.part s.cancelled))
  | returned o ↦ none
]

abbrev pub to_stage : Flight → Option Stage → Option Flight
to_stage s none = none
to_stage s (some there) = some (record s { stage = there })

abbrev pub is_reading : Stage → Bool
is_reading writing = false
is_reading reading = true
is_reading (returned o) = false

abbrev pub has_returned : Stage → Bool
has_returned writing = false
has_returned reading = false
has_returned (returned o) = true

abbrev pub is_writing : Stage → Bool
is_writing s = not (is_reading s) && not (has_returned s)

-- An event, where it can happen.
unfoldable pub happens : Event → Flight → Option Flight
happens cancel s = some (record s { cancelled = true })
happens deadline_passes s = if s.has_deadline then some (record s { expired = true }) else none
happens takes_request s =
    if is_writing s.stage && not s.expired then some (record s { stage = reading }) else none
happens sends_part s =
    if is_reading s.stage && not s.expired then some (record s { part = true }) else none
happens sends_line s =
    if is_reading s.stage && not s.expired
    then some (record s { stage = returned line_read })
    else none
happens breaks_off s = to_stage s (failed_stage s)
happens times_out s = if s.expired then to_stage s (failed_stage s) else none
happens fires s =
    if s.watching && s.cancelled then some (record s { watching = false; expired = true }) else none
happens leaves s =
    if s.watching && has_returned s.stage then some (record s { watching = false }) else none

unfoldable pub happen : List Event → Flight → Option Flight
unfolding happens
happen [] s = some s
happen (e ∷ es) s = elim (happens e s) [ none ↦ none | some s' ↦ happen es s' ]

pub data InFlight : Flight → Type 0 where
  launched : (has_deadline cancelled : Bool) → InFlight (launched_call has_deadline cancelled)
  next : (e : Event) (s s' : Flight) → InFlight s → happens e s ≡ some s' → InFlight s'
