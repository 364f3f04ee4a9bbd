-- ===== src/Projection/Entries.antt =====
-- The projection of one entry (agent/core/projection.py): `project_entry` and the methods behind it.
use luca_py.Base.{
  ℕ, String, Bool, true, false, ◌&&◌, Option, none, some, List, [], ◌∷◌, map, ◌⊎◌, inl, inr,
  if◌then◌else◌,
}
use luca_py.Base.Dict.{Dict, get}
use luca_py.Models.Json.{Json, Fields, get_field}
use luca_py.Models.Content.{ContentPart, ExecutionResult}
use luca_py.Models.Tools.{
  ToolSpec, is_nonterminal, is_pending, is_awaiting_result, is_completed, is_deferred,
}
use luca_py.Models.Entries.{
  Entry, EntryType-discrete, entry_type, UserMessage, AssistantMessage, ToolExecution,
  CompactionEntry, ChildConversation, PrunedEntry, TurnFinish, TurnOutcome, as_tool_execution,
}
use luca_py.Models.Session.{spawn_payload}
use luca_py.Projection.{Block, Message, ProjectionError, Texts, content_blocks, assistant_block}
use luca_py.Projection.Wording.{
  awaiting_approval_output, awaiting_result_output, cancelled_turn_marker, joined_text,
  derived_failure_text, task_text,
}

-- A method returns a message or `None`, or raises.
abbrev pub Projected : Type 0
Projected = ProjectionError ⊎ Option Message

abbrev pub sends : Message → Projected
sends message = inr (some message)

abbrev pub is_private : Option ToolSpec → Bool
is_private none = false
is_private (some spec) = spec.is_private

abbrev pub plain : String → List Block
plain text = Block.text text [] ∷ []

unfoldable pub project_user_message : UserMessage → Message
project_user_message entry = Message.user (content_blocks entry.parts)

unfoldable pub project_assistant_message : AssistantMessage → Message
project_assistant_message entry =
    Message.assistant (map assistant_block entry.parts) entry.llm_config.provider
      entry.llm_config.model

abbrev pub completed_output : String → Option ExecutionResult → ProjectionError ⊎ Message
completed_output tool_call_id none = inl ProjectionError.no_result
completed_output tool_call_id (some result) =
    inr (Message.tool tool_call_id (content_blocks result.content) result.is_error)

abbrev pub summary_message : Option (List ContentPart) → Option Message
summary_message none = none
summary_message (some []) = none
summary_message (some (part ∷ parts)) = some (Message.user (content_blocks (part ∷ parts)))

unfoldable pub project_compaction : CompactionEntry → Option Message
project_compaction entry = summary_message entry.parts

unfoldable pub project_turn_finish : TurnFinish → Option Message
project_turn_finish entry = elim entry.outcome [
  | TurnOutcome.cancelled ↦ some (Message.user (plain cancelled_turn_marker))
  | TurnOutcome.completed ↦ none
  | TurnOutcome.timed_out ↦ none
  | TurnOutcome.errored ↦ none
]

-- [block for block in blocks if not isinstance(block, TextBlock)]
abbrev pub without_text : List Block → List Block
without_text [] = []
without_text (Block.text t annotations ∷ rest) = without_text rest
without_text (block ∷ rest) = block ∷ without_text rest

-- The replacement, under the role of the entry that it replaces.
abbrev pub pruned_message : Entry → List Block → Projected
pruned_message (Entry.tool_execution original) content =
    if is_private original.tool_spec
    then inr none
    else sends (Message.tool original.tool_call_id content false)
pruned_message (Entry.user original) content = sends (Message.user content)
pruned_message (Entry.assistant original) content =
    sends (Message.assistant content original.llm_config.provider original.llm_config.model)
pruned_message _ content = inl ProjectionError.no_pruned_projection

abbrev pub pruned_under {ℓ} : {A : Type ℓ} → Dec A → Entry → List Block → Projected
pruned_under (yes same) original content = pruned_message original content
pruned_under (no other) original content = inl ProjectionError.wrong_type

abbrev pub pruned_from : PrunedEntry → Option Entry → Projected
pruned_from entry none = inl ProjectionError.missing_referent
pruned_from entry (some original) =
    pruned_under (EntryType-discrete (entry_type original) entry.pruned_entry_type) original
      (content_blocks entry.content)

unfoldable pub project_pruned : PrunedEntry → Dict Entry → Projected
project_pruned entry entries = pruned_from entry (get entries entry.pruned_entry_id)

abbrev pub some_message : ProjectionError ⊎ Message → Projected
some_message (inl e) = inl e
some_message (inr message) = sends message

module _ (texts : Texts) where
  unfoldable pub project_tool_execution : ToolExecution → ProjectionError ⊎ Message
  project_tool_execution entry =
      let placeholder : String → ProjectionError ⊎ Message =
        λ text. inr (Message.tool entry.tool_call_id (plain text) false) in
      if is_pending entry.status && is_deferred entry.approval_status
      then placeholder awaiting_approval_output
      else if is_awaiting_result entry.status
      then placeholder awaiting_result_output
      else if is_nonterminal entry.status
      then inl ProjectionError.nonterminal
      else if is_completed entry.status
      then completed_output entry.tool_call_id entry.result
      else inr (Message.tool entry.tool_call_id (plain (derived_failure_text texts entry)) true)

  abbrev pub task_message : ExecutionResult → Option ℕ → Option Json → Projected
  task_message result completed_at_ms none = inl ProjectionError.no_task_id
  task_message result completed_at_ms (some task_id) =
      let blocks = content_blocks result.content in
      sends (
        Message.user (
          Block.text (task_text texts task_id result.is_error completed_at_ms (joined_text blocks))
            []
          ∷ without_text blocks))

  abbrev pub task_payload : ExecutionResult → Option ℕ → Option Fields → Projected
  task_payload result completed_at_ms none = inl ProjectionError.no_payload
  task_payload result completed_at_ms (some payload) =
      task_message result completed_at_ms (get_field payload "task_id")

  abbrev pub task_of : ExecutionResult → Option ℕ → Option ToolExecution → Projected
  task_of result completed_at_ms none = inl ProjectionError.no_spawn
  task_of result completed_at_ms (some spawn) =
      task_payload result completed_at_ms (spawn_payload spawn)

  unfoldable pub child_task_message :
      ChildConversation → Dict Entry → ExecutionResult → Option ℕ → Projected
  child_task_message link entries result completed_at_ms =
      task_of result completed_at_ms (as_tool_execution (get entries link.tool_execution_id))

  abbrev pub resolved_link :
      ChildConversation → Dict Entry → Option ExecutionResult → Option String → Projected
  resolved_link entry entries none result_id = inr none
  resolved_link entry entries (some result) (some result_id) = inr none
  resolved_link entry entries (some result) none = child_task_message entry entries result none

  unfoldable pub project_child_conversation : ChildConversation → Dict Entry → Projected
  project_child_conversation entry entries =
      resolved_link entry entries entry.execution_result entry.result_execution_id

  abbrev pub updated_link :
      ChildConversation → ToolExecution → Dict Entry → Option ExecutionResult → Projected
  updated_link link execution entries none = inr none
  updated_link link execution entries (some result) =
      child_task_message link entries result execution.finished_at

  unfoldable pub project_child_update : ChildConversation → ToolExecution → Dict Entry → Projected
  project_child_update link execution entries =
      updated_link link execution entries link.execution_result

  -- A private execution projects as nothing.
  abbrev pub execution_message : Bool → ToolExecution → Projected
  execution_message true entry = inr none
  execution_message false entry = some_message (project_tool_execution entry)

  unfoldable pub project_entry : Entry → Dict Entry → Projected
  project_entry (Entry.user entry) entries = sends (project_user_message entry)
  project_entry (Entry.assistant entry) entries = sends (project_assistant_message entry)
  project_entry (Entry.tool_execution entry) entries =
      execution_message (is_private entry.tool_spec) entry
  project_entry (Entry.compaction entry) entries = inr (project_compaction entry)
  project_entry (Entry.child_conversation entry) entries = project_child_conversation entry entries
  project_entry (Entry.pruned entry) entries = project_pruned entry entries
  project_entry (Entry.turn_finish entry) entries = inr (project_turn_finish entry)
  project_entry (Entry.turn_start entry) entries = inr none
  project_entry (Entry.cancel_requested entry) entries = inr none
