-- ===== src/Tests/SettlingCases.antt =====
-- A cancelled turn with one call to dispatch and one that is parked (agent/core/runner.py).
use text.Mathlib.TextEquality.{eq_iff}
use text.Mathlib.Text.{◌==◌}
use luca_py.Base.{
  ℕ, String, ◌≡◌, refl, sym, ap, ◌⊎◌, inl, inr, Option, List, none, some, [], ◌∷◌, arith, subst,
  Bool-cases,
}
use mathlib.Core.Sum.{inr-injective}
use luca_py.Base.Dict.{get, put, set_default}
use luca_py.Models.Tools.{ToolSpec, ExecutionStatus, spec_id}
use luca_py.Models.Entries.{Entry, ToolExecution, CancelRequested, TurnOutcome}
use luca_py.Models.Session.{AgentSession, Conversation}
use luca_py.Models.Path
use luca_py.Models.Path.{open_turn_before, entry_at, select}
use luca_py.Ledger.{
  conversation, put_entry, file_entry, write_entry, store_tool_spec, append, write_conversation,
}
use luca_py.Ledger.Reads.{is_undispatched_execution, is_parked_execution}
use luca_py.Ledger.Invariant.{IsWellFormed, IsFiled}
use luca_py.Compaction.Step.Closing.{KeepsFinish}
use luca_py.Runner.Outcomes.{
  Work, Out, settle_open_executions, wind_down, recover_orphans, finalize_all, finalize_outcome,
  persist_execution, close_attempt, close_turn,
}
use luca_py.Runner.Outcomes.Ended.{KeepsOutcome}
use luca_py.Runner.Outcomes.Settling.{Ran}
use luca_py.Runner.Outcomes.Settling.Closed.{
  Settled, Recovered, settle_leaves_none_open, recover_leaves_none_running,
}
use luca_py.Runner.Outcomes.Settling.Winding.{Closes, wind_down-Closes}
use luca_py.Samples.{start_entry, execution, echo, session, base}

abbrev digest : ToolSpec → String
digest spec = spec.name

abbrev filed : String → ExecutionStatus → ToolExecution
filed id status = record (execution id status none) {
  tool_spec = some echo;
  tool_spec_id = some "echo";
}

-- The first call has the given status.
abbrev saved : ExecutionStatus → AgentSession
saved status =
    record (session
      (("s", start_entry "s")
        ∷ ("x", Entry.tool_execution (filed "x" status))
        ∷ ("y", Entry.tool_execution (filed "y" ExecutionStatus.awaiting_result))
        ∷ [])
      ("s" ∷ "x" ∷ "y" ∷ [])) { tool_specs = ("echo", echo) ∷ [] }

saved-IsWellFormed : (status : ExecutionStatus) → IsWellFormed digest (saved status)
unfolding get spec_id
saved-IsWellFormed status = record {
  paths = λ id c h. ground (arith, eq_iff "main" id);
  named = λ id c h. ground (arith, eq_iff "main" id);
  keyed = λ id e h. ground (arith, eq_iff "s" id, eq_iff "x" id, eq_iff "y" id);
  filed = λ id e h. elim (Bool-cases ("s" == id)) [
    | inl p ↦
        let same : start_entry "s" ≡ e = ground arith in
        subst (IsFiled (saved status).tool_specs) same tt
    | inr p ↦ elim (Bool-cases ("x" == id)) [
      | inl q ↦
          let same : Entry.tool_execution (filed "x" status) ≡ e = ground arith in
          subst (IsFiled (saved status).tool_specs) same refl
      | inr q ↦ elim (Bool-cases ("y" == id)) [
        | inl r ↦
            let same : Entry.tool_execution (filed "y" ExecutionStatus.awaiting_result) ≡ e =
              ground arith in
            subst (IsFiled (saved status).tool_specs) same refl
        | inr r ↦ absurd (ground arith)
      ]
    ]
  ];
  hashed = λ id spec h. ground (arith, eq_iff "echo" id);
  main = refl;
  used = λ cid row id u h g. absurd (ground arith);
}

abbrev tokens : AgentSession → Entry → ℕ
tokens s e = 7

abbrev after : AgentSession → String → ToolExecution → String ⊎ ToolExecution
after s cid e = inr e

abbrev before : AgentSession → String → Entry → String ⊎ Entry
before s cid e = inr e

hooks-KeepsOutcome : KeepsOutcome after before
hooks-KeepsOutcome = (
  λ s cid e e' h.
      let same = inr-injective _ _ h in
      (
        ap (λ (x : ToolExecution). x.id) (sym same),
        ap (λ (x : ToolExecution). x.status) (sym same),
      ),
  λ s cid e entry h. (e, sym (inr-injective _ _ h), refl, refl),
)

before-KeepsFinish : KeepsFinish before
before-KeepsFinish s cid e e' h finish = ground (arith, h, finish)

abbrev work_on : ExecutionStatus → Work
work_on status = record {
  ledger = record {
    session = saved status;
    clock = λ n. n;
    gen_id = λ n. "new";
    ticks = 5;
    minted = 0;
  };
  closed_outcomes = [];
}

abbrev cancel : CancelRequested
cancel = record { base = base "c" none; outcome = TurnOutcome.cancelled; error = none }

settle_leaves_none_open_example :
    Ran digest tokens after before hooks-KeepsOutcome "main"
      (Settled "main" (saved ExecutionStatus.pending))
      (settle_open_executions digest tokens after before "main" (work_on ExecutionStatus.pending))
unfolding get
settle_leaves_none_open_example =
    settle_leaves_none_open digest tokens after before hooks-KeepsOutcome "main"
      (work_on ExecutionStatus.pending) _ refl (saved-IsWellFormed ExecutionStatus.pending)

wind_down-Closes_example :
    Closes digest tokens after before hooks-KeepsOutcome before-KeepsFinish "main"
      TurnOutcome.cancelled
      (wind_down digest tokens after before "main" cancel (work_on ExecutionStatus.pending))
unfolding get
wind_down-Closes_example =
    wind_down-Closes digest tokens after before hooks-KeepsOutcome before-KeepsFinish "main" cancel
      (work_on ExecutionStatus.pending) _ refl (saved-IsWellFormed ExecutionStatus.pending)

recover_leaves_none_running_example :
    Ran digest tokens after before hooks-KeepsOutcome "main"
      (Recovered "main" (saved ExecutionStatus.running))
      (recover_orphans digest tokens after before "main" (work_on ExecutionStatus.running))
unfolding get
recover_leaves_none_running_example =
    recover_leaves_none_running digest tokens after before hooks-KeepsOutcome "main"
      (work_on ExecutionStatus.running) _ refl (saved-IsWellFormed ExecutionStatus.running)

abbrev statuses : List Entry → List ExecutionStatus
statuses [] = []
statuses (Entry.tool_execution e ∷ rest) = e.status ∷ statuses rest
statuses (_ ∷ rest) = statuses rest

abbrev nodes_of : Option Conversation → List String
nodes_of none = []
nodes_of (some c) = c.nodes

abbrev seen : Out (List Entry) → List ExecutionStatus × List String
seen (inl fault, w) = ([], [])
seen (inr events, w) = (statuses events, nodes_of (get w.ledger.session.conversations "main"))

-- The two calls are settled, in this order, and the marker stands behind them.
wound_down :
    seen (wind_down digest tokens after before "main" cancel (work_on ExecutionStatus.pending))
    ≡ (ExecutionStatus.cancelled ∷ ExecutionStatus.interrupted ∷ [], "s" ∷ "x" ∷ "y" ∷ "new" ∷ [])
unfolding get wind_down settle_open_executions conversation finalize_all Path.open_turn_executions
    Path.open_turn_index open_turn_before entry_at select is_undispatched_execution finalize_outcome
    persist_execution put_entry close_attempt file_entry write_entry store_tool_spec put set_default
    is_parked_execution append write_conversation spec_id close_turn
wound_down = refl
