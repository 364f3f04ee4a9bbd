-- ===== src/Client/Streamer/Lines.antt =====
-- Events in the order of a stream, and what the exit gate of client/transports/streamer.py keeps of it.
use luca_py.Base.{
  String, ◌≡◌, refl, sym, ◌⊎◌, inl, inr, Bool, true, false, ◌||◌, List, [], ◌∷◌, All, arith, subst,
}
use luca_py.Client.Streamer.{StreamEvent, Streamer, is_terminal, is_start, gate, emit}

-- How a run of calls ends.
pub data End : Type 0 where
  done unfinished interrupted_outside leaked_out never_entered : End

module _ {P K U : Type 0} where
  abbrev pub Quiet : List (StreamEvent P K U) → Type 0
  Quiet es = All (λ e. is_terminal e ≡ false) es

  -- One terminal event, the last.
  abbrev pub EndsTerminal : List (StreamEvent P K U) → Type 0
  EndsTerminal [] = ⊥
  EndsTerminal (e ∷ []) = is_terminal e ≡ true
  EndsTerminal (e ∷ f ∷ es) = (is_terminal e ≡ false) × EndsTerminal (f ∷ es)

  -- Events that are still to come, with the flag `finished`.
  abbrev pub IsLine : List (StreamEvent P K U) → Bool → Type 0
  IsLine es finished = (Quiet es × (finished ≡ false)) ⊎ EndsTerminal es

  start_quiet : (event : StreamEvent P K U) → is_start event ≡ true → is_terminal event ≡ false
  start_quiet event h = ground arith

  -- A line keeps its shape when its head has passed the gate and stays in front.
  IsLine-kept :
      (event : StreamEvent P K U) (rest : List (StreamEvent P K U)) (finished : Bool)
      → IsLine (event ∷ rest) finished
      → IsLine (event ∷ rest) (finished || is_terminal event)
  IsLine-kept event rest finished (inl (quiet, going)) = inl (quiet, ground (arith, quiet.0))
  IsLine-kept event rest finished (inr ends) = inr ends

module _ {P K U W : Type 0} where
  -- A handler may change all but what the iteration keeps for itself.
  abbrev pub Keeps : Streamer P K U W → Streamer P K U W → Type 0
  Keeps s s' =
      (s'.pending ≡ s.pending)
      × (s'.emitted_start ≡ s.emitted_start)
      × (s'.is_entered ≡ s.is_entered)

  -- What the iteration asks of the handlers of a wire class, on a stream that is not finished.
  abbrev pub Batch :
      Streamer P K U W → (String ⊎ List (StreamEvent P K U)) × Streamer P K U W → Type 0
  Batch s (inl text, s') = Keeps s s'
  Batch s (inr events, s') = IsLine events s'.finished × Keeps s s'

  abbrev pub LastBatch : Streamer P K U W → List (StreamEvent P K U) × Streamer P K U W → Type 0
  LastBatch s ([], s') = Keeps s s'
  LastBatch s (event ∷ rest, s') = EndsTerminal (event ∷ rest) × Keeps s s'

  -- A state in which the stream goes on, and one behind the terminal event.
  pub record IsLive (s : Streamer P K U W) : Type 0 where
    pub entered : s.is_entered ≡ true
    pub line : IsLine s.pending s.finished

  pub record IsClosed (s : Streamer P K U W) : Type 0 where
    pub entered : s.is_entered ≡ true
    pub empty : s.pending ≡ []
    pub over : s.finished ≡ true

  abbrev pub Emitted : Bool → StreamEvent P K U × Streamer P K U W → Type 0
  Emitted started (e, s) =
      (((is_terminal e ≡ false) × IsLive s) ⊎ ((is_terminal e ≡ true) × IsClosed s))
      × (s.emitted_start ≡ true)
      × (started ≡ false → is_start e ≡ true)

  emitted_event :
      (event : StreamEvent P K U) (rest : List (StreamEvent P K U)) (s : Streamer P K U W)
      (finished : Bool)
      → IsLine (event ∷ rest) finished
      → s.is_entered ≡ true
      → s.pending ≡ rest
      → s.finished ≡ (finished || is_terminal event)
      → ((is_terminal event ≡ false) × IsLive s) ⊎ ((is_terminal event ≡ true) × IsClosed s)
  emitted_event event rest s finished (inl (quiet, going)) h p f = inl (
    quiet.0,
    record { entered = h; line = inl (subst Quiet (sym p) quiet.1, ground (arith, quiet.0)) },
  )
  emitted_event event [] s finished (inr terminal) h p f =
      inr (terminal, record { entered = h; empty = p; over = ground arith })
  emitted_event event (e ∷ es) s finished (inr (quiet, ends)) h p f =
      inl (quiet, record { entered = h; line = inr (subst EndsTerminal (sym p) ends) })

  gate-Emitted :
      (started starts : Bool) (event : StreamEvent P K U) (s : Streamer P K U W)
      → s.emitted_start ≡ started
      → is_start event ≡ starts
      → s.is_entered ≡ true
      → IsLine (event ∷ s.pending) s.finished
      → Emitted started
          (gate started starts event (record s { finished = s.finished || is_terminal event }))
  gate-Emitted true starts event s e b h l = (
    emitted_event event s.pending (record s { finished = s.finished || is_terminal event })
        s.finished l h refl refl,
    e,
    λ f. absurd (ground arith),
  )
  gate-Emitted false true event s e b h l = (
    emitted_event event s.pending
        (record s { finished = s.finished || is_terminal event; emitted_start = true }) s.finished l
        h refl refl,
    refl,
    λ f. b,
  )
  gate-Emitted false false event s e b h l = (
    inl (refl, record { entered = h; line = IsLine-kept event s.pending s.finished l }),
    refl,
    λ f. refl,
  )

  pub emit-Emitted :
      (event : StreamEvent P K U) (s : Streamer P K U W)
      → s.is_entered ≡ true
      → IsLine (event ∷ s.pending) s.finished
      → Emitted s.emitted_start (emit event s)
  unfolding emit
  emit-Emitted event s h l = gate-Emitted s.emitted_start (is_start event) event s refl refl h l
