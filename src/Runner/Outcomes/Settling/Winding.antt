-- ===== src/Runner/Outcomes/Settling/Winding.antt =====
-- How `_wind_down` of agent/core/runner.py ends a cancelled turn.
use luca_py.Base.{
  ℕ, String, ◌≡◌, refl, sym, ap, subst, ◌⊎◌, inl, inr, arith, true, Option, some, List, last?,
}
use luca_py.Base.Dict.{get, get-put_self}
use luca_py.Models.Tools.{ToolSpec}
use luca_py.Models.Entries.{Entry, ToolExecution, CancelRequested, TurnOutcome, is_turn_finish}
use luca_py.Models.Session.{AgentSession, Conversation}
use luca_py.Ledger.{Result, ok, err, Ledger, append, now, next_id, conversation}
use luca_py.Ledger.Append.{append_found}
use luca_py.Ledger.Invariant.{IsWellFormed}
use luca_py.Compaction.Step.Closing.{IsShut, KeepsFinish, append_finish-IsShut}
use luca_py.Runner.Outcomes.{
  hook, ledger, Work, on_ledger, note_outcome, Out, chain, append_hooked, append_to, counted_finish,
  close_turn, wind_down, close_behind,
}
use luca_py.Runner.Outcomes.Ended.{KeepsOutcome}
use luca_py.Runner.Outcomes.Settling.{Raised, Ran}
use luca_py.Runner.Outcomes.Settling.Closed.{Settled, settle_leaves_none_open}

module _ (digest : ToolSpec → String) (calculate_context : AgentSession → Entry → ℕ)
    (after : AgentSession → String → ToolExecution → String ⊎ ToolExecution)
    (before : AgentSession → String → Entry → String ⊎ Entry) (keeps : KeepsOutcome after before)
    (finishes : KeepsFinish before) (cid : String) where
  -- What a hook raises ends a run, and nothing else does; a run that returns has shut the turn and
  -- noted how.
  abbrev pub Closes : {A : Type 0} → TurnOutcome → Out A → Type 0
  Closes outcome (inl (hook text), w) = Raised digest calculate_context after before keeps cid text
  Closes outcome (inl (ledger e), w) = ⊥
  Closes outcome (inr a, w) = IsShut cid w.ledger × (get w.closed_outcomes cid ≡ some outcome)

  abbrev Shuts : {A : Type 0} → Out A → Type 0
  Shuts (inl (hook text), w) = Raised digest calculate_context after before keeps cid text
  Shuts (inl (ledger e), w) = ⊥
  Shuts (inr a, w) = IsShut cid w.ledger

  stored_Shuts :
      (out : Result Entry × Ledger) (stored : Entry) (w : Work)
      → out.0 ≡ ok stored
      → IsShut cid out.1
      → Shuts (on_ledger out w)
  stored_Shuts (err e, l) stored w h shut = absurd (ground (arith, h))
  stored_Shuts (ok a, l) stored w h shut = shut

  hooked_Shuts :
      (entry : Entry) (out : String ⊎ Entry) (w : Work) (c : Conversation)
      → get w.ledger.session.conversations cid ≡ some c
      → before w.ledger.session cid entry ≡ out
      → is_turn_finish (some entry) ≡ true
      → Shuts (append_hooked digest calculate_context after before cid out w)
  hooked_Shuts entry (inl text) w c found h finish = (w.ledger.session, inr (entry, h))
  hooked_Shuts entry (inr final) w c found h finish =
      let shut =
        append_finish-IsShut digest cid final w.ledger c found
          (finishes w.ledger.session cid entry final h finish) in
      stored_Shuts (append digest cid (λ id parent ts. final) w.ledger) _ w
        (ap (λ (x : Result Entry × Ledger). x.0)
          (append_found digest cid (λ id parent ts. final) w.ledger c found))
        shut

  chain-Closes :
      (outcome : TurnOutcome) (out : Out Entry)
      → Shuts out
      → Closes outcome (
          chain {B = Unit {0}} out
            (λ _ w'. (inr tt, note_outcome digest calculate_context after before cid outcome w')))
  chain-Closes outcome (inl (hook text), w) h = h
  chain-Closes outcome (inl (ledger e), w) h = h
  chain-Closes outcome (inr a, w) h = (h, get-put_self w.closed_outcomes cid outcome)

  close_turn-Closes :
      (outcome : TurnOutcome) (error : Option String) (w : Work) (c : Conversation)
      → get w.ledger.session.conversations cid ≡ some c
      → Closes outcome (close_turn digest calculate_context after before cid outcome error w)
  unfolding close_turn conversation
  close_turn-Closes outcome error w c found =
      let s = w.ledger.session in
      let build = counted_finish digest calculate_context after before s outcome error in
      chain-Closes outcome _ (
        subst (λ r. Shuts (append_to digest calculate_context after before cid build r w))
          {x = ok c} {y = conversation s cid} (sym (rw (found, conversation) refl))
          (hooked_Shuts (build (next_id w.ledger) (last? c.nodes) (now w.ledger)) _ w c found refl
            refl))

  behind_Closes :
      (outcome : TurnOutcome) (events : List Entry) (out : Out (Unit {0}))
      → Closes outcome out
      → Closes outcome (chain {B = List Entry} out (λ _ w'. (inr events, w')))
  behind_Closes outcome events (inl (hook text), w) h = h
  behind_Closes outcome events (inl (ledger e), w) h = h
  behind_Closes outcome events (inr a, w) h = h

  close_behind-Closes :
      (cancel : CancelRequested) (s : AgentSession) (c : Conversation)
      → get s.conversations cid ≡ some c
      → (out : Out (List Entry))
      → Ran digest calculate_context after before keeps cid (Settled cid s) out
      → Closes cancel.outcome
          (chain out (close_behind digest calculate_context after before cid cancel))
  close_behind-Closes cancel s c found (inl (hook text), w) h = h
  close_behind-Closes cancel s c found (inl (ledger e), w) h = h
  close_behind-Closes cancel s c found (inr events, w) (quiet, parked, tame, kept) =
      let (d, there, same) = kept c found in
      behind_Closes cancel.outcome events _
        (close_turn-Closes cancel.outcome cancel.error w d there)

  -- What `_wind_down` of a conversation that is there, in a well-formed session, does where the hooks
  -- keep the id and the status of an execution and the kind of a closing marker: it raises nothing
  -- but what a hook raised, and where it returns the conversation has no open turn, and the outcome
  -- of the request to cancel is the one that is noted for it.
  pub wind_down-Closes :
      (cancel : CancelRequested) (w : Work) (c : Conversation)
      → get w.ledger.session.conversations cid ≡ some c
      → IsWellFormed digest w.ledger.session
      → Closes cancel.outcome (wind_down digest calculate_context after before cid cancel w)
  unfolding wind_down
  wind_down-Closes cancel w c found wf =
      close_behind-Closes cancel w.ledger.session c found _
        (settle_leaves_none_open digest calculate_context after before keeps cid w c found wf)
