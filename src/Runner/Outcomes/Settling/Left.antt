-- ===== src/Runner/Outcomes/Settling/Left.antt =====
-- The executions of an open turn, over a store in which some of them have ended
-- (agent/core/ledger.py and models.py, as agent/core/runner.py uses them).
use luca_py.Base.{
  ℕ, zero, suc, String, ◌||◌, ◌≡◌, refl, sym, ap, ◌∙◌, inl, inr, Bool, true, none, some, List, [],
  filter, drop, length, get_elem?, arith, Option-cases, All, All-map,
}
use luca_py.Base.Dict.{get}
use luca_py.Models.Tools.{
  ExecutionStatus, is_nonterminal, is_received, is_pending, is_awaiting_result, is_running,
}
use luca_py.Models.Entries.{Entry, ToolExecution, as_tool_execution, is_turn_start, is_turn_finish}
use luca_py.Models.Path
use luca_py.Models.Path.{entry_at, open_turn_before, select}
use luca_py.Models.Session.{AgentSession, Conversation}
use luca_py.Ledger.{ok, conversation}
use luca_py.Ledger.Executions.{PathKept}
use luca_py.Ledger.Reads.{
  reading, is_undispatched_execution, is_parked_execution, is_running_execution, open_turn_filter,
}
use luca_py.Runner.Outcomes.Ended.{Tame}
use luca_py.Runner.Outcomes.Settling.Chosen.{
  Live, Keyed, Quiet, chosen, chosen_none, Terminal-Quiet,
}

-- The nodes from the start of the open turn on.
abbrev pub turn_nodes : List String → AgentSession → List String
turn_nodes nodes s = elim (Path.open_turn_index nodes s.entries) [
  | none ↦ []
  | some index ↦ drop index nodes
]

turn_executions :
    (nodes : List String) (s : AgentSession)
    → Path.open_turn_executions nodes s.entries
      ≡ select as_tool_execution s.entries (turn_nodes nodes s)
unfolding Path.open_turn_executions select
turn_executions nodes s = elim (Option-cases (Path.open_turn_index nodes s.entries)) [
  | inl h ↦ rw (h, Path.open_turn_executions, turn_nodes) refl
  | inr (i, h) ↦ rw (h, Path.open_turn_executions, turn_nodes) refl
]

turns_Tame :
    (s t : AgentSession) (nodes : List String)
    → Tame s t
    → (k : ℕ)
    → (is_turn_finish (entry_at nodes t.entries k) ≡ is_turn_finish (entry_at nodes s.entries k))
      × (is_turn_start (entry_at nodes t.entries k) ≡ is_turn_start (entry_at nodes s.entries k))
unfolding entry_at
turns_Tame s t nodes tame k = elim (Option-cases (get_elem? nodes k)) [
  | inl h ↦ rw (h, is_turn_finish, is_turn_start, entry_at) (refl, refl)
  | inr (id, h) ↦ elim (tame id) [
    | inl same ↦ rw (h, same, is_turn_finish, is_turn_start, entry_at) (refl, refl)
    | inr ((e, was), (d, is, over)) ↦
        rw (h, was, is, is_turn_finish, is_turn_start, entry_at) (refl, refl)
  ]
]

open_turn_before-Tame :
    (s t : AgentSession) (nodes : List String)
    → Tame s t
    → (n : ℕ) → open_turn_before nodes t.entries n ≡ open_turn_before nodes s.entries n
unfolding open_turn_before
open_turn_before-Tame s t nodes tame zero = refl
open_turn_before-Tame s t nodes tame (suc n) =
    let (finish, start) = turns_Tame s t nodes tame n in
    rw (finish, start, open_turn_before-Tame s t nodes tame n) refl

turn_nodes-Tame :
    (s t : AgentSession) (nodes : List String) → Tame s t → turn_nodes nodes t ≡ turn_nodes nodes s
unfolding Path.open_turn_index
turn_nodes-Tame s t nodes tame =
    ap (λ o. elim o [ none ↦ [] | some index ↦ drop index nodes ])
      (open_turn_before-Tame s t nodes tame (length nodes))

pub open_turn_filter_found :
    (test : ToolExecution → Bool) (s : AgentSession) (cid : String) (c : Conversation)
    → get s.conversations cid ≡ some c
    → open_turn_filter test s cid ≡ ok (chosen test s (turn_nodes c.nodes s))
unfolding conversation
open_turn_filter_found test s cid c found =
    rw (found, open_turn_filter, reading, conversation)
      (ap (λ es. ok (filter test es)) (turn_executions c.nodes s))

-- What one of the loops leaves behind it: none of the open turn that passes its test.
abbrev pub Cleared :
    (ToolExecution → Bool) → String → List String → AgentSession → AgentSession → Type 0
Cleared test cid nodes s t =
    Tame s t × PathKept cid s t × All (λ k. Quiet test (get t.entries k)) (turn_nodes nodes s)

pub undispatched-Live : Live is_undispatched_execution
unfolding is_undispatched_execution is_nonterminal
undispatched-Live e on = undispatched e.status on
  where
    undispatched :
        (x : ExecutionStatus) → is_received x || is_pending x ≡ true → is_nonterminal x ≡ true
    undispatched ExecutionStatus.received h = refl
    undispatched ExecutionStatus.pending h = refl
    undispatched _ h = absurd (ground (arith, h))

pub parked-Live : Live is_parked_execution
unfolding is_parked_execution is_nonterminal
parked-Live e on = parked e.status on
  where
    parked : (x : ExecutionStatus) → is_awaiting_result x ≡ true → is_nonterminal x ≡ true
    parked ExecutionStatus.awaiting_result h = refl
    parked _ h = absurd (ground (arith, h))

pub running-Live : Live is_running_execution
unfolding is_running_execution is_nonterminal
running-Live e on = running e.status on
  where
    running : (x : ExecutionStatus) → is_running x ≡ true → is_nonterminal x ≡ true
    running ExecutionStatus.running h = refl
    running _ h = absurd (ground (arith, h))

pub Keyed-Tame :
    (test : ToolExecution → Bool)
    → Live test
    → (s t : AgentSession)
    → ((k : String) (e : ToolExecution)
        → get s.entries k ≡ some (Entry.tool_execution e)
        → e.id ≡ some k)
    → Tame s t
    → Keyed test t
Keyed-Tame test live s t keyed tame k e at on = elim (tame k) [
  | inl same ↦ keyed k e (sym same ∙ at)
  | inr (_, over) ↦
      absurd (ground (arith, on, Terminal-Quiet test live (get t.entries k) over e at))
]

pub stays_cleared :
    (test : ToolExecution → Bool)
    → Live test
    → (s t : AgentSession) (nodes : List String) → Tame s t
    → All (λ k. Quiet test (get s.entries k)) nodes
    → All (λ k. Quiet test (get t.entries k)) nodes
stays_cleared test live s t nodes tame = All-map _ _ nodes (λ k quiet. elim (tame k) [
  | inl same ↦ λ e at. quiet e (sym same ∙ at)
  | inr (_, over) ↦ Terminal-Quiet test live (get t.entries k) over
])

-- An open turn without executions of a kind, over a store where the executions have ended.
pub reads_none :
    (test : ToolExecution → Bool) (s t : AgentSession) (cid : String) (c d : Conversation)
    → Tame s t
    → get t.conversations cid ≡ some d
    → d.nodes ≡ c.nodes
    → All (λ k. Quiet test (get t.entries k)) (turn_nodes c.nodes s)
    → open_turn_filter test t cid ≡ ok []
reads_none test s t cid c d tame found same quiet =
    let eq = ap (λ nodes. turn_nodes nodes t) same ∙ turn_nodes-Tame s t c.nodes tame in
    open_turn_filter_found test t cid d found
    ∙ ap ok (ap (chosen test t) eq ∙ chosen_none test t (turn_nodes c.nodes s) quiet)
