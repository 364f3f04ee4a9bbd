-- ===== src/Runner/Outcomes.antt =====
-- The ends of tool executions in agent/core/runner.py: `_close_attempt`, `_finalize_outcome`,
-- `_recover_orphans`, `_settle_open_executions`, and the closes of a turn that use them. The token
-- count and the two hooks are parameters; a hook may raise. An event is the execution that it tells
-- of; the text that it shows is derived from that by the projection, and left out.
pub mod Ended
pub mod Settling
use luca_py.Base.{
  ℕ, String, ◌⊎◌, inl, inr, Bool, true, false, Option, none, some, List, [], ◌∷◌, ◌++◌, last?,
}
use luca_py.Base.Dict.{Dict, put}
use luca_py.Models.Tools.{ToolSpec, ExecutionStatus, ExecutionAttempt, ExecutionAttemptOutcome}
use luca_py.Models.Entries.{Entry, ToolExecution, CancelRequested, TurnOutcome}
use luca_py.Models.Session.{AgentSession, Conversation}
use luca_py.Ledger.{
  LedgerError, Result, ok, err, Ledger, now, next_id, ticked, advanced, conversation, append,
  put_entry,
}
use luca_py.Ledger.Reads.{
  open_turn_undispatched_executions, open_turn_parked_executions, open_turn_running_executions,
}
use luca_py.Compaction.Commit.{finish_entry}

-- `hook` is what a hook raised.
pub data Fault : Type 0 where
  hook : String → Fault
  ledger : LedgerError → Fault

-- `closed_outcomes` is the runner's `_closed_outcomes`.
pub record Work : Type 0 where
  pub ledger : Ledger
  pub closed_outcomes : Dict TurnOutcome

abbrev pub Out : Type 0 → Type 0
Out A = (Fault ⊎ A) × Work

abbrev pub chain : {A B : Type 0} → Out A → (A → Work → Out B) → Out B
chain (inl fault, w) f = (inl fault, w)
chain (inr a, w) f = f a w

abbrev pub on_ledger : {A : Type 0} → Result A × Ledger → Work → Out A
on_ledger (err e, l) w = (inl (ledger e), record w { ledger = l })
on_ledger (ok a, l) w = (inr a, record w { ledger = l })

abbrev pub reads : {A : Type 0} → Result A → Work → Out A
reads (err e) w = (inl (ledger e), w)
reads (ok a) w = (inr a, w)

-- `_ATTEMPT_OUTCOMES.get(status)`
abbrev pub attempt_outcome_of : ExecutionStatus → Option ExecutionAttemptOutcome
attempt_outcome_of ExecutionStatus.completed = some ExecutionAttemptOutcome.completed
attempt_outcome_of ExecutionStatus.failed = some ExecutionAttemptOutcome.failed
attempt_outcome_of ExecutionStatus.timed_out = some ExecutionAttemptOutcome.timed_out
attempt_outcome_of ExecutionStatus.interrupted = some ExecutionAttemptOutcome.interrupted
attempt_outcome_of ExecutionStatus.awaiting_result = some ExecutionAttemptOutcome.deferred
attempt_outcome_of _ = none

-- outcome or …
abbrev pub or_outcome :
    Option ExecutionAttemptOutcome → Option ExecutionAttemptOutcome → Option ExecutionAttemptOutcome
or_outcome none other = other
or_outcome (some outcome) other = some outcome

-- [*attempts[:-1], closed]
abbrev with_last : ExecutionAttempt → List ExecutionAttempt → List ExecutionAttempt
with_last closed [] = []
with_last closed (attempt ∷ []) = closed ∷ []
with_last closed (attempt ∷ next ∷ rest) = attempt ∷ with_last closed (next ∷ rest)

abbrev pub close_last :
    ToolExecution
    → Option ExecutionAttempt
    → Option ExecutionAttemptOutcome
    → Ledger
    → ToolExecution × Ledger
close_last e none resolved l = (e, l)
close_last e (some attempt) none l = (e, l)
close_last e (some attempt) (some outcome) l = elim attempt.outcome [
  | some settled ↦ (e, l)
  | none ↦
      let closed = record attempt { outcome = some outcome; ended_at = some (now l) } in
      (record e { attempts = with_last closed e.attempts }, ticked l)
]

unfoldable pub close_attempt :
    ToolExecution → Option ExecutionAttemptOutcome → Ledger → ToolExecution × Ledger
close_attempt e outcome l =
    close_last e (last? e.attempts) (or_outcome outcome (attempt_outcome_of e.status)) l

abbrev pub counted : ℕ → ToolExecution → ToolExecution
counted tokens e = record e { base = record e.base { context_tokens = tokens } }

-- The stamps of an execution that a close settles.
abbrev pub settled_as : ExecutionStatus → ℕ → ToolExecution → ToolExecution
settled_as status ts e = record e {
  cancel_signalled_at = some ts;
  status = status;
  result = none;
  error = none;
  finished_at = some ts;
}

abbrev pub orphaned : ℕ → ToolExecution → ToolExecution
orphaned ts e = record e { status = ExecutionStatus.interrupted; finished_at = some ts }

module _ (digest : ToolSpec → String) (calculate_context : AgentSession → Entry → ℕ)
    (after_tool_execution : AgentSession → String → ToolExecution → String ⊎ ToolExecution)
    (before_entry_written : AgentSession → String → Entry → String ⊎ Entry) where
  abbrev pub store : String → String ⊎ Entry → Work → Out Entry
  store conversation_id (inl text) w = (inl (hook text), w)
  store conversation_id (inr entry) w =
      on_ledger (put_entry digest conversation_id entry w.ledger) w

  -- `_persist_execution(…, recalculate=False)`
  unfoldable pub persist_execution : String → ToolExecution → Work → Out Entry
  persist_execution conversation_id e w =
      let updated = record e { updated_at = some (now w.ledger) } in
      store conversation_id
        (before_entry_written w.ledger.session conversation_id (Entry.tool_execution updated))
        (record w { ledger = ticked w.ledger })

  abbrev pub persist_after : String → String ⊎ ToolExecution → Work → Out Entry
  persist_after conversation_id (inl text) w = (inl (hook text), w)
  persist_after conversation_id (inr e) w = persist_execution conversation_id e w

  unfoldable pub finalize_outcome :
      String → Option ExecutionAttemptOutcome → ToolExecution → Work → Out Entry
  finalize_outcome conversation_id outcome e w =
      let (e', l) = close_attempt e outcome w.ledger in
      let tokens = calculate_context l.session (Entry.tool_execution e') in
      persist_after conversation_id
        (after_tool_execution l.session conversation_id (counted tokens e'))
        (record w { ledger = l })

  -- The events of a loop, each in front of the later ones.
  abbrev pub told : Entry → Work → Out (List Entry) → Out (List Entry)
  told event w (inl fault, w') = (inl fault, w')
  told event w (inr events, w') = (inr (event ∷ events), w')

  -- for execution in executions: … `_finalize_outcome`, with the stamps that `stamp` puts on it.
  unfoldable pub finalize_all :
      String
      → Option ExecutionAttemptOutcome
      → (ℕ → ToolExecution → ToolExecution)
      → List ToolExecution
      → Work
      → Out (List Entry)
  finalize_all conversation_id outcome stamp [] w = (inr [], w)
  finalize_all conversation_id outcome stamp (e ∷ rest) w =
      chain
        (finalize_outcome conversation_id outcome (stamp (now w.ledger) e)
          (record w { ledger = ticked w.ledger }))
        (λ event w'. told event w' (finalize_all conversation_id outcome stamp rest w'))

  unfoldable pub recover_orphans : String → Work → Out (List Entry)
  recover_orphans conversation_id w =
      chain (reads (open_turn_running_executions w.ledger.session conversation_id) w)
        (finalize_all conversation_id (some ExecutionAttemptOutcome.discarded) orphaned)

  abbrev pub more : List Entry → Out (List Entry) → Out (List Entry)
  more events (inl fault, w) = (inl fault, w)
  more events (inr later, w) = (inr (events ++ later), w)

  abbrev pub settle_parked : String → List Entry → Work → Out (List Entry)
  settle_parked conversation_id events w = more events (
      chain (reads (open_turn_parked_executions w.ledger.session conversation_id) w)
        (finalize_all conversation_id none (settled_as ExecutionStatus.interrupted)))

  unfoldable pub settle_open_executions : String → Work → Out (List Entry)
  settle_open_executions conversation_id w =
      chain
        (chain (reads (open_turn_undispatched_executions w.ledger.session conversation_id) w)
          (finalize_all conversation_id none (settled_as ExecutionStatus.cancelled)))
        (settle_parked conversation_id)

  -- `_append` of the closing marker: the token count and the hooks run on the built entry.
  abbrev pub append_hooked : String → String ⊎ Entry → Work → Out Entry
  append_hooked conversation_id (inl text) w =
      (inl (hook text), record w { ledger = advanced (ticked w.ledger) })
  append_hooked conversation_id (inr entry) w =
      on_ledger (append digest conversation_id (λ id parent ts. entry) w.ledger) w

  abbrev pub append_to :
      String → (String → Option String → ℕ → Entry) → Result Conversation → Work → Out Entry
  append_to conversation_id build (err e) w =
      (inl (ledger e), record w { ledger = advanced (ticked w.ledger) })
  append_to conversation_id build (ok c) w =
      append_hooked conversation_id
        (before_entry_written w.ledger.session conversation_id
          (build (next_id w.ledger) (last? c.nodes) (now w.ledger)))
        w

  -- The marker with the tokens that are counted for it.
  abbrev pub counted_finish :
      AgentSession → TurnOutcome → Option String → String → Option String → ℕ → Entry
  counted_finish session outcome error id parent ts = Entry.turn_finish (record {
    base = record {
      id = some id;
      parent_id = parent;
      created_at = some ts;
      context_tokens = calculate_context session (finish_entry outcome error id parent ts);
    };
    outcome = outcome;
    error = error;
  })

  abbrev pub note_outcome : String → TurnOutcome → Work → Work
  note_outcome conversation_id outcome w = record w {
    closed_outcomes = put w.closed_outcomes conversation_id outcome;
  }

  unfoldable pub close_turn : String → TurnOutcome → Option String → Work → Out (Unit {0})
  close_turn conversation_id outcome error w =
      chain
        (append_to conversation_id (counted_finish w.ledger.session outcome error)
          (conversation w.ledger.session conversation_id) w)
        (λ _ w'. (inr tt, note_outcome conversation_id outcome w'))

  abbrev pub close_behind : String → CancelRequested → List Entry → Work → Out (List Entry)
  close_behind conversation_id cancel events w =
      chain (close_turn conversation_id cancel.outcome cancel.error w) (λ _ w'. (inr events, w'))

  unfoldable pub wind_down : String → CancelRequested → Work → Out (List Entry)
  wind_down conversation_id cancel w =
      chain (settle_open_executions conversation_id w) (close_behind conversation_id cancel)
