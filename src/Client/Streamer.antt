-- ===== src/Client/Streamer.antt =====
-- client/transports/streamer.py: the core that every streamed completion is iterated through. What a
-- wire class overrides is a record of methods; the content of messages, the usage and the events
-- other than start, finish and error are types of its own. A round is what one pass of the loop in
-- `__next__` or `__anext__` meets: the flags that the clock and `cancel()` set, and the read.
pub mod Lines
pub mod Narration
pub mod Ending
use luca_py.Base.{
  ◌⊎◌, inl, inr, ℕ, zero, suc, String, Bool, true, false, ◌||◌, Option, none, some, List, [], ◌∷◌,
  ◌++◌, if◌then◌else◌,
}

pub record Message (K U : Type 0) : Type 0 where
  pub content : K
  pub finish_reason : Option String
  pub provider_finish_reason : Option String
  pub error_message : Option String
  pub cancelled : Bool
  pub usage : Option U

-- What an ErrorEvent carries: the deadline, the premature end, and the errors of the wire.
pub data StreamFault : Type 0 where
  timeout premature_end : StreamFault
  stream_error http_error : String → StreamFault

-- `other` is each event that tells a part of the message.
pub data StreamEvent (P K U : Type 0) : Type 0 where
  start : StreamEvent P K U
  other : P → StreamEvent P K U
  finish : Message K U → StreamEvent P K U
  error : StreamFault → Option U → StreamEvent P K U

-- `own` are the fields that the wire class adds.
pub record Streamer (P K U W : Type 0) : Type 0 where
  pub message : Message K U
  pub usage : Option U
  pub stop_reason : Option String
  pub finish_reason : Option String
  pub is_entered : Bool
  pub pending : List (StreamEvent P K U)
  pub finished : Bool
  pub emitted_start : Bool
  pub own : W

-- What a terminal event is made with: `classify_finish`, and a `Usage()`.
pub record Finishing (K U : Type 0) : Type 0 where
  pub classify_finish : String → Message K U → Option String × Option String
  pub no_usage : U

-- What one wire class gives: `inl` is a StreamError, with its text. `leaks` is a chunk for which
-- `parse` or `handle` raises an exception that the loop does not catch, before anything is changed.
pub record Wire (P K U W C R : Type 0) : Type 0 where
  pub parse : C → String ⊎ List R
  pub handle : R → Streamer P K U W → (String ⊎ List (StreamEvent P K U)) × Streamer P K U W
  pub handle_wire_end : Streamer P K U W → List (StreamEvent P K U) × Streamer P K U W
  pub leaks : C → Bool
  pub finishing : Finishing K U

pub data Read (C : Type 0) : Type 0 where
  chunk : C → Read C
  wire_end task_cancelled : Read C
  raised_http : String → Read C

-- `expired` and `cancelled` as they are read in front of the read, and after it has raised.
pub record Round (C : Type 0) : Type 0 where
  pub expired : Bool
  pub cancelled : Bool
  pub read : Read C
  pub expired_after : Bool
  pub cancelled_after : Bool

-- What one call gives. `waiting` is a call that has not returned after the rounds that are given.
pub data Next (P K U W C : Type 0) : Type 0 where
  not_entered : Next P K U W C
  returned : StreamEvent P K U → Streamer P K U W → List (Round C) → Next P K U W C
  stopped : Streamer P K U W → Next P K U W C
  waiting : Streamer P K U W → Next P K U W C
  externally_cancelled : Streamer P K U W → List (Round C) → Next P K U W C
  leaked : Streamer P K U W → List (Round C) → Next P K U W C

-- The class of a latched stop reason, and `(None, None)` without one.
abbrev pub classified :
    {K U : Type 0}
    → (String → Message K U → Option String × Option String)
    → Option String
    → Message K U
    → Option String × Option String
classified classify none m = (none, none)
classified classify (some reason) m = classify reason m

abbrev pub or_default : {U : Type 0} → U → Option U → U
or_default u none = u
or_default u (some v) = v

-- The text of an error; that of the deadline goes on with the number of seconds.
abbrev pub fault_text : StreamFault → String
fault_text timeout = "stream exceeded timeout"
fault_text premature_end = "Stream ended without a terminal event"
fault_text (stream_error text) = text
fault_text (http_error text) = text

module _ {P K U : Type 0} where
  abbrev pub is_terminal : StreamEvent P K U → Bool
  is_terminal start = false
  is_terminal (other p) = false
  is_terminal (finish m) = true
  is_terminal (error f u) = true

  abbrev pub is_start : StreamEvent P K U → Bool
  is_start start = true
  is_start (other p) = false
  is_start (finish m) = false
  is_start (error f u) = false

module _ {P K U W : Type 0} where
  unfoldable pub finish_event :
      Finishing K U → Bool → Streamer P K U W → StreamEvent P K U × Streamer P K U W
  finish_event finishing cancelled s =
      let (canonical, failure) = classified finishing.classify_finish s.stop_reason s.message in
      let message = record s.message {
        finish_reason = canonical;
        provider_finish_reason = s.stop_reason;
        error_message = failure;
        cancelled = cancelled;
        usage = some (or_default finishing.no_usage s.usage);
      } in
      (finish message, record s { message = message; finish_reason = canonical; finished = true })

  unfoldable pub error_event : StreamFault → Streamer P K U W → StreamEvent P K U × Streamer P K U W
  error_event fault s = (
    error fault s.usage,
    record s {
      finished = true;
      message = record s.message { error_message = some (fault_text fault) };
    },
  )

  -- if not self.emitted_start: …
  abbrev pub gate :
      Bool → Bool → StreamEvent P K U → Streamer P K U W → StreamEvent P K U × Streamer P K U W
  gate true starts event s = (event, s)
  gate false true event s = (event, record s { emitted_start = true })
  gate false false event s = (start, record s { emitted_start = true; pending = event ∷ s.pending })

  -- The single exit gate.
  unfoldable pub emit : StreamEvent P K U → Streamer P K U W → StreamEvent P K U × Streamer P K U W
  emit event s =
      let s' = record s { finished = s.finished || is_terminal event } in
      gate s'.emitted_start (is_start event) event s'

  module _ {C R : Type 0} (wire : Wire P K U W C R) where
    -- for raw in self.parse(chunk): events += self.handle(raw)
    unfoldable pub handle_all :
        List R
        → List (StreamEvent P K U)
        → Streamer P K U W
        → (String ⊎ List (StreamEvent P K U)) × Streamer P K U W
    handle_all [] events s = (inr events, s)
    handle_all (raw ∷ rest) events s =
        let (out, s') = wire.handle raw s in
        elim out [ inl text ↦ (inl text, s') | inr more ↦ handle_all rest (events ++ more) s' ]

    unfoldable pub handle_chunk :
        C → Streamer P K U W → (String ⊎ List (StreamEvent P K U)) × Streamer P K U W
    handle_chunk c s = elim (wire.parse c) [
      | inl text ↦ (inl text, s)
      | inr raws ↦ handle_all raws [] s
    ]

    abbrev pub return_event : StreamEvent P K U × Streamer P K U W → List (Round C) → Next P K U W C
    return_event (event, s) rounds = let (out, s') = emit event s in returned out s' rounds

    -- `self.emit(self.finish_event(cancelled=True))`, if `cancel()` was called, or an error
    abbrev pub interrupted : Bool → StreamFault → Streamer P K U W → List (Round C) → Next P K U W C
    interrupted true fault s rounds = return_event (finish_event wire.finishing true s) rounds
    interrupted false fault s rounds = return_event (error_event fault s) rounds

    -- event, *rest = events
    abbrev pub first_of :
        StreamEvent P K U
        → List (StreamEvent P K U)
        → Streamer P K U W
        → List (Round C)
        → Next P K U W C
    first_of event rest s rounds =
        return_event (event, record s { pending = s.pending ++ rest }) rounds

    abbrev pub at_wire_end :
        List (StreamEvent P K U) × Streamer P K U W → List (Round C) → Next P K U W C
    at_wire_end ([], s) rounds = return_event (error_event premature_end s) rounds
    at_wire_end (event ∷ rest, s) rounds = first_of event rest s rounds

    abbrev pub at_task_cancelled : Round C → Streamer P K U W → List (Round C) → Next P K U W C
    at_task_cancelled round s rounds =
        if round.expired_after
        then return_event (error_event timeout s) rounds
        else if round.cancelled_after
        then return_event (finish_event wire.finishing true s) rounds
        else externally_cancelled s rounds

    -- What follows a read, `again` being the next pass of the loop.
    abbrev pub after_chunk :
        Round C
        → (Streamer P K U W → Next P K U W C)
        → (String ⊎ List (StreamEvent P K U)) × Streamer P K U W
        → List (Round C)
        → Next P K U W C
    after_chunk round again (inl text, s) rounds =
        interrupted round.cancelled_after (stream_error text) s rounds
    after_chunk round again (inr [], s) rounds = again s
    after_chunk round again (inr (event ∷ rest), s) rounds = first_of event rest s rounds

    abbrev pub after_read :
        Round C
        → (Streamer P K U W → Next P K U W C)
        → Read C
        → Streamer P K U W
        → List (Round C)
        → Next P K U W C
    after_read round again (chunk c) s rounds =
        if wire.leaks c then leaked s rounds else after_chunk round again (handle_chunk c s) rounds
    after_read round again wire_end s rounds = at_wire_end (wire.handle_wire_end s) rounds
    after_read round again task_cancelled s rounds = at_task_cancelled round s rounds
    after_read round again (raised_http text) s rounds =
        interrupted round.cancelled_after (http_error text) s rounds

    -- while True: …
    unfoldable pub read_loop : List (Round C) → Streamer P K U W → Next P K U W C
    read_loop [] s = waiting s
    read_loop (round ∷ rounds) s =
        let read_on = after_read round (λ s'. read_loop rounds s') round.read s rounds in
        if round.expired
        then return_event (error_event timeout s) (round ∷ rounds)
        else if round.cancelled
        then return_event (finish_event wire.finishing true s) (round ∷ rounds)
        else read_on

    -- `__next__` and `__anext__`
    abbrev pub from_pending :
        List (StreamEvent P K U) → Streamer P K U W → List (Round C) → Next P K U W C
    from_pending [] s rounds = if s.finished then stopped s else read_loop rounds s
    from_pending (event ∷ rest) s rounds = return_event (event, record s { pending = rest }) rounds

    unfoldable pub next : List (Round C) → Streamer P K U W → Next P K U W C
    next rounds s = if s.is_entered then from_pending s.pending s rounds else not_entered
