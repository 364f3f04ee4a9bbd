-- ===== src/Models/Path.antt =====
-- Path derivations (agent/core/models.py): pure functions of one path, a list of entry ids, and the
-- entry store. A node with no entry behind it contributes nothing. Loops from the leaf towards the
-- root recur on the number of nodes still in front.
pub mod OpenTurn
pub mod Locality
pub mod Brackets
use text.Mathlib.Text.{◌==◌}
use luca_py.Base.{
  ℕ, zero, suc, ◌+◌, String, Bool, true, false, not, ◌&&◌, ◌||◌, Option, none, some, List, [], ◌∷◌,
  ltb, leb, if◌then◌else◌, is_some, is_none, length, get_elem?, drop, any, filter,
}
use luca_py.Base.Dict.{Dict, get}
use luca_py.Models.Tools.{
  is_nonterminal, is_received, is_pending, is_running, is_awaiting_result, is_deferred, is_allowed,
  declares_spawn, ToolSpec,
}
use luca_py.Models.Entries.{
  Entry, ToolExecution, ChildConversation, CancelRequested, CompactionEntry, as_tool_execution,
  as_child, as_cancel, as_compaction, is_user, is_assistant, is_turn_start, is_turn_finish,
}

-- entries.get(node_id) for an index that may be past the end
unfoldable pub entry_at : List String → Dict Entry → ℕ → Option Entry
entry_at nodes entries i = elim (get_elem? nodes i) [ none ↦ none | some id ↦ get entries id ]

unfoldable pub is_compaction_bracket : List String → Dict Entry → ℕ → Bool
is_compaction_bracket nodes entries turn_start_index =
    let following = turn_start_index + 1 in
    if leb (length nodes) following
    then false
    else is_some (as_compaction (entry_at nodes entries following))

-- The loop that walks back over `nodes[:n]`: a `TurnFinish` ends it, a `TurnStart` is the answer.
unfoldable pub open_turn_before : List String → Dict Entry → ℕ → Option ℕ
open_turn_before nodes entries zero = none
open_turn_before nodes entries (suc i) =
    let earlier = open_turn_before nodes entries i in
    if is_turn_finish (entry_at nodes entries i)
    then none
    else if is_turn_start (entry_at nodes entries i)
    then some i
    else earlier

unfoldable pub open_turn_index : List String → Dict Entry → Option ℕ
open_turn_index nodes entries = open_turn_before nodes entries (length nodes)

-- [entry for node_id in nodes if isinstance(entry := entries.get(node_id), …)]
unfoldable pub select {ℓ} :
    {A : Type ℓ} → (Option Entry → Option A) → Dict Entry → List String → List A
select isa entries [] = []
select isa entries (node ∷ rest) =
    let found = select isa entries rest in
    elim (isa (get entries node)) [ none ↦ found | some e ↦ e ∷ found ]

unfoldable pub open_turn_executions : List String → Dict Entry → List ToolExecution
open_turn_executions nodes entries = elim (open_turn_index nodes entries) [
  | none ↦ []
  | some index ↦ select as_tool_execution entries (drop index nodes)
]

-- The first match of a loop that returns.
abbrev pub first {ℓ} : {A : Type ℓ} → List A → Option A
first [] = none
first (x ∷ xs) = some x

unfoldable pub open_turn_cancel_requested : List String → Dict Entry → Option CancelRequested
open_turn_cancel_requested nodes entries = elim (open_turn_index nodes entries) [
  | none ↦ none
  | some index ↦ first (select as_cancel entries (drop index nodes))
]

abbrev resumable : Option CompactionEntry → Option CompactionEntry
resumable none = none
resumable (some e) = if is_some e.parts then none else some e

unfoldable pub open_compaction_entry : List String → Dict Entry → Option CompactionEntry
open_compaction_entry nodes entries = elim (open_turn_index nodes entries) [
  | none ↦ none
  | some index ↦
      if is_compaction_bracket nodes entries index
      then resumable (as_compaction (entry_at nodes entries (index + 1)))
      else none
]

-- One round of the loop below: where the closed compaction bracket that ends at `end` starts.
unfoldable pub closed_bracket_start : List String → Dict Entry → ℕ → Option ℕ
closed_bracket_start nodes entries zero = none
closed_bracket_start nodes entries (suc i) =
    if is_turn_finish (entry_at nodes entries i)
    then elim (open_turn_before nodes entries i) [
      | none ↦ none
      | some start ↦ if is_compaction_bracket nodes entries start then some start else none
    ]
    else none

-- The first argument is fuel; each round shortens the path.
unfoldable pub skip_brackets : ℕ → List String → Dict Entry → ℕ → ℕ
skip_brackets zero nodes entries end = end
skip_brackets (suc fuel) nodes entries end = elim (closed_bracket_start nodes entries end) [
  | none ↦ end
  | some start ↦ skip_brackets fuel nodes entries start
]

unfoldable pub end_before_closed_compaction_brackets : List String → Dict Entry → ℕ
end_before_closed_compaction_brackets nodes entries =
    skip_brackets (length nodes) nodes entries (length nodes)

count_turns : List String → Dict Entry → ℕ → List String → ℕ
count_turns nodes entries index [] = 0
count_turns nodes entries index (node_id ∷ rest) =
    let later = count_turns nodes entries (index + 1) rest in
    if is_turn_start (get entries node_id) && not (is_compaction_bracket nodes entries index)
    then suc later
    else later

unfoldable pub conversational_turn_count : List String → Dict Entry → ℕ
unfolding count_turns
conversational_turn_count nodes entries = count_turns nodes entries 0 nodes

count_assistants : Dict Entry → List String → ℕ
count_assistants entries [] = 0
count_assistants entries (node_id ∷ rest) =
    let later = count_assistants entries rest in
    if is_assistant (get entries node_id) then suc later else later

unfoldable pub open_turn_step_count : List String → Dict Entry → ℕ
unfolding count_assistants
open_turn_step_count nodes entries = elim (open_turn_index nodes entries) [
  | none ↦ 0
  | some index ↦ count_assistants entries (drop index nodes)
]

unfoldable pub open_turn_unresolved_children : List String → Dict Entry → List ChildConversation
open_turn_unresolved_children nodes entries = elim (open_turn_index nodes entries) [
  | none ↦ []
  | some index ↦
      filter (λ child. is_none child.execution_result) (select as_child entries (drop index nodes))
]

-- The tests of one execution that the loops below make.
unfoldable pub is_advanceable : ToolExecution → Bool
is_advanceable e =
    if is_received e.status || is_running e.status
    then true
    else is_pending e.status && (is_none e.approval_status || is_allowed e.approval_status)

unfoldable pub is_gated : ToolExecution → Bool
is_gated e = is_pending e.status && is_deferred e.approval_status

unfoldable pub is_parked : ToolExecution → Bool
is_parked e = is_awaiting_result e.status

unfoldable pub open_turn_has_advanceable_executions : List String → Dict Entry → Bool
open_turn_has_advanceable_executions nodes entries =
    any is_advanceable (open_turn_executions nodes entries)

unfoldable pub open_turn_has_awaiting_executions : List String → Dict Entry → Bool
open_turn_has_awaiting_executions nodes entries = any is_gated (open_turn_executions nodes entries)

unfoldable pub open_turn_has_parked_executions : List String → Dict Entry → Bool
open_turn_has_parked_executions nodes entries = any is_parked (open_turn_executions nodes entries)

unfoldable pub open_turn_is_runnable : List String → Dict Entry → Bool
open_turn_is_runnable nodes entries =
    if open_turn_has_advanceable_executions nodes entries
    then true
    else not (
        any (λ e. is_pending e.status || is_awaiting_result e.status)
          (open_turn_executions nodes entries))

-- The loop over `range(len(nodes) - 1, start - 1, -1)`, with `n` the index after the next one.
unfoldable pub last_assistant_before : List String → Dict Entry → ℕ → ℕ → Option ℕ
last_assistant_before nodes entries start zero = none
last_assistant_before nodes entries start (suc i) =
    let earlier = last_assistant_before nodes entries start i in
    if ltb i start
    then none
    else if is_assistant (entry_at nodes entries i)
    then some i
    else earlier

unfoldable pub last_assistant_index : List String → Dict Entry → ℕ → Option ℕ
last_assistant_index nodes entries start = last_assistant_before nodes entries start (length nodes)

-- `entry_id in excluded`, for an id that may be None
abbrev is_excluded : Option String → List String → Bool
is_excluded none ids = false
is_excluded (some id) ids = any (λ x. x == id) ids

result_ids : List ChildConversation → List String
result_ids [] = []
result_ids (child ∷ rest) =
    let ids = result_ids rest in elim child.result_execution_id [ none ↦ ids | some id ↦ id ∷ ids ]

-- A spec that is missing neither declares spawning nor is synthetic.
abbrev is_record_of_seen_work : Option ToolSpec → Bool
is_record_of_seen_work none = false
is_record_of_seen_work (some spec) = declares_spawn spec || spec.is_synthetic

unfoldable pub is_material_execution : List String → ToolExecution → Bool
is_material_execution excluded e =
    not (is_nonterminal e.status)
    && not (is_excluded e.id excluded)
    && not (is_record_of_seen_work e.tool_spec)

unfoldable pub is_material : List String → Option Entry → Bool
is_material excluded (some (Entry.user m)) = true
is_material excluded (some (Entry.tool_execution e)) = is_material_execution excluded e
is_material excluded _ = false

unfoldable pub open_turn_unseen_material : List String → Dict Entry → Bool → Bool
unfolding result_ids is_material
open_turn_unseen_material nodes entries include_child_results =
    elim (open_turn_index nodes entries) [
      | none ↦ false
      | some index ↦ elim (last_assistant_index nodes entries index) [
        | none ↦ false
        | some last_assistant ↦
            let excluded =
              if include_child_results
              then []
              else result_ids (select as_child entries (drop index nodes)) in
            any (λ node_id. is_material excluded (get entries node_id))
              (drop (last_assistant + 1) nodes)
      ]
    ]

unfoldable pub open_turn_unseen_post : List String → Dict Entry → Bool
open_turn_unseen_post nodes entries = elim (open_turn_index nodes entries) [
  | none ↦ false
  | some index ↦ elim (last_assistant_index nodes entries index) [
    | none ↦ false
    | some last_assistant ↦
        any (λ node_id. is_user (get entries node_id)) (drop (last_assistant + 1) nodes)
  ]
]
