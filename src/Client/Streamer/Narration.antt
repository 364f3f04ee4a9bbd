-- ===== src/Client/Streamer/Narration.antt =====
-- What the iteration of client/transports/streamer.py narrates: a start, and at most one terminal
-- event, which comes last.
use luca_py.Base.{
  if-P, String, ◌≡◌, refl, sym, ap, ◌∙◌, ◌⊎◌, inl, inr, Bool, true, false, List, [], ◌∷◌, ◌++◌,
  if◌then◌else◌, Bool-cases, subst,
}
use luca_py.Client.Streamer.{
  StreamEvent, Streamer, Wire, Read, Round, Next, StreamFault, chunk, wire_end, task_cancelled,
  raised_http, not_entered, returned, stopped, waiting, externally_cancelled, leaked, is_terminal,
  emit, finish_event, error_event, handle_chunk, return_event, interrupted, first_of, at_wire_end,
  at_task_cancelled, after_chunk, after_read, read_loop, from_pending, next, timeout, premature_end,
  stream_error, http_error,
}
use luca_py.Client.Streamer.Lines.{
  Quiet, EndsTerminal, IsLine, Keeps, Batch, LastBatch, IsLive, IsClosed, Emitted, emit-Emitted,
}

module _ {P K U W : Type 0} where
  module _ {C R : Type 0} (wire : Wire P K U W C R) where
    -- The law of a wire class: each chunk, and the end of the wire.
    pub record IsNarrator : Type 0 where
      pub chunks :
          (c : C) (s : Streamer P K U W) → s.finished ≡ false → Batch s (handle_chunk wire c s)
      pub ends : (s : Streamer P K U W) → s.finished ≡ false → LastBatch s (wire.handle_wire_end s)

    -- What one call may give on a live stream.
    abbrev pub IsSound : Bool → Next P K U W C → Type 0
    IsSound started not_entered = ⊥
    IsSound started (returned e s rounds) = Emitted started (e, s)
    IsSound started (stopped s) = ⊥
    IsSound started (waiting s) = IsLive s × (s.emitted_start ≡ started)
    IsSound started (externally_cancelled s rounds) = IsLive s × (s.emitted_start ≡ started)
    IsSound started (leaked s rounds) = IsLive s × (s.emitted_start ≡ started)

    return_event-IsSound :
        (event : StreamEvent P K U) (s : Streamer P K U W) (rounds : List (Round C))
        (started : Bool)
        → s.emitted_start ≡ started
        → s.is_entered ≡ true
        → IsLine (event ∷ s.pending) s.finished
        → IsSound started (return_event wire (event, s) rounds)
    return_event-IsSound event s rounds started b h l =
        subst (λ x. Emitted x (emit event s)) b (emit-Emitted event s h l)

    -- A state inside the loop: nothing is left to return.
    pub record IsReading (started : Bool) (s : Streamer P K U W) : Type 0 where
      pub entered : s.is_entered ≡ true
      pub empty : s.pending ≡ []
      pub going : s.finished ≡ false
      pub begun : s.emitted_start ≡ started

    Keeps-IsReading :
        (started : Bool) (s s' : Streamer P K U W)
        → IsReading started s
        → Keeps s s'
        → s'.finished ≡ false
        → IsReading started s'
    Keeps-IsReading started s s' i k going = record {
      entered = k.2 ∙ i.entered;
      empty = k.0 ∙ i.empty;
      going = going;
      begun = k.1 ∙ i.begun;
    }

    IsReading-IsLive : (started : Bool) (s : Streamer P K U W) → IsReading started s → IsLive s
    IsReading-IsLive started s i = record {
      entered = i.entered;
      line = inl (subst Quiet (sym i.empty) tt, i.going);
    }

    -- A terminal event that the loop makes.
    terminal-IsSound :
        (event : StreamEvent P K U) (s : Streamer P K U W) (rounds : List (Round C))
        (started : Bool)
        → is_terminal event ≡ true
        → s.emitted_start ≡ started
        → s.is_entered ≡ true
        → s.pending ≡ []
        → IsSound started (return_event wire (event, s) rounds)
    terminal-IsSound event s rounds started t b h e =
        return_event-IsSound event s rounds started b h
          (inr (subst (λ p. EndsTerminal (event ∷ p)) (sym e) t))

    error_event-IsSound :
        (fault : StreamFault) (s : Streamer P K U W) (rounds : List (Round C)) (started : Bool)
        → s.emitted_start ≡ started
        → s.is_entered ≡ true
        → s.pending ≡ []
        → IsSound started (return_event wire (error_event fault s) rounds)
    unfolding error_event
    error_event-IsSound fault s rounds started b h e =
        terminal-IsSound (error_event fault s).0 (error_event fault s).1 rounds started refl b h e

    finish_event-IsSound :
        (cancelled : Bool) (s : Streamer P K U W) (rounds : List (Round C)) (started : Bool)
        → s.emitted_start ≡ started
        → s.is_entered ≡ true
        → s.pending ≡ []
        → IsSound started (return_event wire (finish_event wire.finishing cancelled s) rounds)
    unfolding finish_event
    finish_event-IsSound cancelled s rounds started b h e =
        terminal-IsSound (finish_event wire.finishing cancelled s).0
          (finish_event wire.finishing cancelled s).1 rounds started refl b h e

    interrupted-IsSound :
        (cancelled : Bool) (fault : StreamFault) (s : Streamer P K U W) (rounds : List (Round C))
        (started : Bool)
        → s.emitted_start ≡ started
        → s.is_entered ≡ true
        → s.pending ≡ []
        → IsSound started (interrupted wire cancelled fault s rounds)
    interrupted-IsSound true fault s rounds started = finish_event-IsSound true s rounds started
    interrupted-IsSound false fault s rounds started = error_event-IsSound fault s rounds started

    first_of-IsSound :
        (event : StreamEvent P K U) (rest : List (StreamEvent P K U)) (s : Streamer P K U W)
        (rounds : List (Round C)) (started : Bool)
        → s.emitted_start ≡ started
        → s.is_entered ≡ true
        → s.pending ≡ []
        → IsLine (event ∷ rest) s.finished
        → IsSound started (first_of wire event rest s rounds)
    first_of-IsSound event rest s rounds started b h e l =
        return_event-IsSound event (record s { pending = s.pending ++ rest }) rounds started b h
          (subst (λ p. IsLine (event ∷ (p ++ rest)) s.finished) (sym e) l)

    at_wire_end-IsSound :
        (out : List (StreamEvent P K U) × Streamer P K U W) (s : Streamer P K U W)
        (rounds : List (Round C)) (started : Bool)
        → IsReading started s
        → LastBatch s out
        → IsSound started (at_wire_end wire out rounds)
    at_wire_end-IsSound ([], s') s rounds started i k =
        error_event-IsSound premature_end s' rounds started (k.1 ∙ i.begun) (k.2 ∙ i.entered)
          (k.0 ∙ i.empty)
    at_wire_end-IsSound (event ∷ rest, s') s rounds started i (ends, k) =
        first_of-IsSound event rest s' rounds started (k.1 ∙ i.begun) (k.2 ∙ i.entered)
          (k.0 ∙ i.empty) (inr ends)

    at_task_cancelled-IsSound :
        (round : Round C) (s : Streamer P K U W) (rounds : List (Round C)) (started : Bool)
        → IsReading started s
        → IsSound started (at_task_cancelled wire round s rounds)
    at_task_cancelled-IsSound round s rounds started i = elim (Bool-cases round.expired_after) [
      | inl x ↦ rw x (error_event-IsSound timeout s rounds started i.begun i.entered i.empty)
      | inr x ↦ elim (Bool-cases round.cancelled_after) [
        | inl y ↦ rw (x, y) (finish_event-IsSound true s rounds started i.begun i.entered i.empty)
        | inr y ↦ rw (x, y) (IsReading-IsLive started s i, i.begun)
      ]
    ]

    after_chunk-IsSound :
        (round : Round C) (again : Streamer P K U W → Next P K U W C)
        (out : (String ⊎ List (StreamEvent P K U)) × Streamer P K U W) (s : Streamer P K U W)
        (rounds : List (Round C)) (started : Bool)
        → ((s' : Streamer P K U W) → IsReading started s' → IsSound started (again s'))
        → IsReading started s
        → Batch s out
        → IsSound started (after_chunk wire round again out rounds)
    after_chunk-IsSound round again (inl text, s') s rounds started f i k =
        interrupted-IsSound round.cancelled_after (stream_error text) s' rounds started
          (k.1 ∙ i.begun) (k.2 ∙ i.entered) (k.0 ∙ i.empty)
    after_chunk-IsSound round again (inr [], s') s rounds started f i (inl (quiet, going), k) =
        f s' (Keeps-IsReading started s s' i k going)
    after_chunk-IsSound round again (inr [], s') s rounds started f i (inr ends, k) = absurd ends
    after_chunk-IsSound round again (inr (event ∷ rest), s') s rounds started f i (l, k) =
        first_of-IsSound event rest s' rounds started (k.1 ∙ i.begun) (k.2 ∙ i.entered)
          (k.0 ∙ i.empty) l

    module _ (narrator : IsNarrator) where
      after_read-IsSound :
          (round : Round C) (again : Streamer P K U W → Next P K U W C) (read : Read C)
          (s : Streamer P K U W) (rounds : List (Round C)) (started : Bool)
          → ((s' : Streamer P K U W) → IsReading started s' → IsSound started (again s'))
          → IsReading started s
          → IsSound started (after_read wire round again read s rounds)
      after_read-IsSound round again (chunk c) s rounds started f i =
          if-P (IsSound started) (wire.leaks c) (IsReading-IsLive started s i, i.begun)
            (after_chunk-IsSound round again (handle_chunk wire c s) s rounds started f i
              (narrator.chunks c s i.going))
      after_read-IsSound round again wire_end s rounds started f i =
          at_wire_end-IsSound (wire.handle_wire_end s) s rounds started i (narrator.ends s i.going)
      after_read-IsSound round again task_cancelled s rounds started f i =
          at_task_cancelled-IsSound round s rounds started i
      after_read-IsSound round again (raised_http text) s rounds started f i =
          interrupted-IsSound round.cancelled_after (http_error text) s rounds started i.begun
            i.entered i.empty

      read_loop-IsSound :
          (rounds : List (Round C)) (s : Streamer P K U W) (started : Bool)
          → IsReading started s
          → IsSound started (read_loop wire rounds s)
      unfolding read_loop
      read_loop-IsSound [] s started i = (IsReading-IsLive started s i, i.begun)
      read_loop-IsSound (round ∷ rounds) s started i = elim (Bool-cases round.expired) [
        | inl x ↦
            rw x (error_event-IsSound timeout s (round ∷ rounds) started i.begun i.entered i.empty)
        | inr x ↦ elim (Bool-cases round.cancelled) [
          | inl y ↦
              rw (x, y)
                (finish_event-IsSound true s (round ∷ rounds) started i.begun i.entered i.empty)
          | inr y ↦
              rw (x, y)
                (after_read-IsSound round (λ s'. read_loop wire rounds s') round.read s rounds
                  started (λ s'. read_loop-IsSound rounds s' started) i)
        ]
      ]

      from_pending-IsSound :
          (pending : List (StreamEvent P K U)) (s : Streamer P K U W) (rounds : List (Round C))
          → s.pending ≡ pending
          → IsLive s
          → IsSound s.emitted_start (from_pending wire pending s rounds)
      from_pending-IsSound [] s rounds e live = elim live.line [
        | inl (quiet, going) ↦
            let i : IsReading s.emitted_start s = record {
              entered = live.entered;
              empty = e;
              going = going;
              begun = refl;
            } in
            subst (λ x. IsSound s.emitted_start x)
              (ap (λ b. if b then stopped s else read_loop wire rounds s) (sym going))
              (read_loop-IsSound rounds s s.emitted_start i)
        | inr ends ↦ absurd (subst EndsTerminal e ends)
      ]
      from_pending-IsSound (event ∷ rest) s rounds e live =
          return_event-IsSound event (record s { pending = rest }) rounds s.emitted_start refl
            live.entered (subst (λ p. IsLine p s.finished) e live.line)

      pub next-IsSound :
          (s : Streamer P K U W) (rounds : List (Round C))
          → IsLive s
          → IsSound s.emitted_start (next wire rounds s)
      unfolding next
      next-IsSound s rounds live =
          subst (λ x. IsSound s.emitted_start x)
            (ap (λ b. if b then from_pending wire s.pending s rounds else not_entered)
              (sym live.entered))
            (from_pending-IsSound s.pending s rounds refl live)

    pub next-IsClosed :
        (s : Streamer P K U W) (rounds : List (Round C))
        → IsClosed s
        → next wire rounds s ≡ stopped s
    unfolding next
    next-IsClosed s rounds closed =
        ap (λ b. if b then from_pending wire s.pending s rounds else not_entered) closed.entered
        ∙ ap (λ p. from_pending wire p s rounds) closed.empty
        ∙ ap (λ b. if b then stopped s else read_loop wire rounds s) closed.over
