-- ===== src/Client/Streamer/Ending.antt =====
-- Whole iterations of client/transports/streamer.py: the events that a run of calls returns.
use luca_py.Base.{
  ℕ, zero, suc, ◌≡◌, ◌≢◌, refl, sym, ◌⊎◌, inl, inr, Bool, true, false, List, [], ◌∷◌, arith, subst,
}
use luca_py.Client.Streamer.{
  StreamEvent, Streamer, Wire, Round, Next, not_entered, returned, stopped, waiting, leaked,
  externally_cancelled, is_terminal, is_start, next,
}
use luca_py.Client.Streamer.Lines.{
  End, done, unfinished, interrupted_outside, leaked_out, never_entered, Quiet, EndsTerminal,
  IsLive, IsClosed,
}
use luca_py.Client.Streamer.Narration.{IsNarrator, IsSound, next-IsSound, next-IsClosed}

module _ {P K U W C R : Type 0} (wire : Wire P K U W C R) where
  abbrev pub after_next :
      (List (Round C) → Streamer P K U W → List (StreamEvent P K U) × End)
      → Next P K U W C
      → List (StreamEvent P K U) × End
  after_next go not_entered = ([], never_entered)
  after_next go (returned e s rounds) = let (es, last) = go rounds s in (e ∷ es, last)
  after_next go (stopped s) = ([], done)
  after_next go (waiting s) = ([], unfinished)
  after_next go (externally_cancelled s rounds) = ([], interrupted_outside)
  after_next go (leaked s rounds) = ([], leaked_out)

  -- What at most `n` calls return, one after the other.
  unfoldable pub pulls : ℕ → List (Round C) → Streamer P K U W → List (StreamEvent P K U) × End
  pulls zero rounds s = ([], unfinished)
  pulls (suc n) rounds s = after_next (λ r s'. pulls n r s') (next wire rounds s)

  -- Only the last event is terminal, and it is where the iteration stops.
  abbrev pub Tells : List (StreamEvent P K U) × End → Type 0
  Tells (es, last) = EndsTerminal es ⊎ (Quiet es × (last ≢ done))

  abbrev pub Begins : Bool → List (StreamEvent P K U) × End → Type 0
  Begins started ([], last) = Unit {0}
  Begins started (e ∷ es, last) = started ≡ false → is_start e ≡ true

  closed_silent :
      (n : ℕ) (rounds : List (Round C)) (s : Streamer P K U W)
      → IsClosed s
      → (pulls n rounds s).0 ≡ []
  unfolding pulls
  closed_silent zero rounds s closed = refl
  closed_silent (suc n) rounds s closed = rw (next-IsClosed wire s rounds closed) refl

  Tells-cons_quiet :
      (e : StreamEvent P K U) (out : List (StreamEvent P K U) × End)
      → is_terminal e ≡ false
      → Tells out
      → Tells (e ∷ out.0, out.1)
  Tells-cons_quiet e ([], last) h (inl ends) = absurd ends
  Tells-cons_quiet e (f ∷ es, last) h (inl ends) = inl (h, ends)
  Tells-cons_quiet e out h (inr (quiet, going)) = inr ((h, quiet), going)

  Tells-cons_terminal :
      (e : StreamEvent P K U) (out : List (StreamEvent P K U) × End)
      → is_terminal e ≡ true
      → out.0 ≡ []
      → Tells (e ∷ out.0, out.1)
  Tells-cons_terminal e (es, last) h empty = inl (subst (λ es. EndsTerminal (e ∷ es)) (sym empty) h)

  module _ (narrator : IsNarrator wire) where
    pulls-Tells :
        (n : ℕ) (rounds : List (Round C)) (s : Streamer P K U W)
        → IsLive s
        → Tells (pulls n rounds s)
    unfolding pulls
    pulls-Tells zero rounds s live = inr (tt, λ e. absurd (ground arith))
    pulls-Tells (suc n) rounds s live =
        after n (λ r s'. pulls-Tells n r s') s.emitted_start (next wire rounds s)
          (next-IsSound wire narrator s rounds live)
      where
        after :
            (n : ℕ)
            → ((r : List (Round C)) (s' : Streamer P K U W) → IsLive s' → Tells (pulls n r s'))
            → (started : Bool) (out : Next P K U W C) → IsSound wire started out
            → Tells (after_next (λ r s'. pulls n r s') out)
        after n go started not_entered h = absurd h
        after n go started (returned e s' r) (inl (quiet, live), begun, first) =
            Tells-cons_quiet e (pulls n r s') quiet (go r s' live)
        after n go started (returned e s' r) (inr (terminal, closed), begun, first) =
            Tells-cons_terminal e (pulls n r s') terminal (closed_silent n r s' closed)
        after n go started (stopped s') h = absurd h
        after n go started (waiting s') h = inr (tt, λ e. absurd (ground arith))
        after n go started (externally_cancelled s' r) h = inr (tt, λ e. absurd (ground arith))
        after n go started (leaked s' r) h = inr (tt, λ e. absurd (ground arith))

    begins :
        (n : ℕ) (started : Bool) (out : Next P K U W C)
        → IsSound wire started out
        → Begins started (after_next (λ r s'. pulls n r s') out)
    begins n started not_entered h = absurd h
    begins n started (returned e s' r) h = h.2
    begins n started (stopped s') h = absurd h
    begins n started (waiting s') h = tt
    begins n started (externally_cancelled s' r) h = tt
    begins n started (leaked s' r) h = tt

    pulls-Begins :
        (n : ℕ) (rounds : List (Round C)) (s : Streamer P K U W)
        → IsLive s
        → Begins s.emitted_start (pulls n rounds s)
    unfolding pulls
    pulls-Begins zero rounds s live = tt
    pulls-Begins (suc n) rounds s live =
        begins n s.emitted_start (next wire rounds s) (next-IsSound wire narrator s rounds live)

    -- For a wire class that keeps its law, on an entered stream that has returned nothing and has
    -- nothing pending: whatever the wire delivers and whenever the deadline or `cancel()` strikes,
    -- the events of any number of calls begin with a start, hold a terminal event at most once, as
    -- the last, and hold it where the iteration stops.
    pub pulls-Narrates :
        (s : Streamer P K U W)
        → s.is_entered ≡ true
        → s.pending ≡ []
        → s.finished ≡ false
        → s.emitted_start ≡ false
        → (n : ℕ) (rounds : List (Round C))
        → Begins false (pulls n rounds s) × Tells (pulls n rounds s)
    pulls-Narrates s entered empty going fresh n rounds =
        let live : IsLive s = record {
          entered = entered;
          line = inl (subst Quiet (sym empty) tt, going);
        } in
        (
          subst (λ b. Begins b (pulls n rounds s)) fresh (pulls-Begins n rounds s live),
          pulls-Tells n rounds s live,
        )
