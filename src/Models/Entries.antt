-- ===== src/Models/Entries.antt =====
-- The entries of a session (agent/core/models.py): one base record, a record for each class, and
-- the `AnyEntry` union. `isinstance` tests are the `as_…` functions.
use luca_py.Base.{ℕ, String, Bool, true, false, Option, none, some, List}
use luca_py.Models.Json.{Fields}
use luca_py.Models.Content.{ContentPart, AssistantContentPart, ToolCall, LlmConfig, ExecutionResult}
use luca_py.Models.Tools.{
  ToolSpec, ApprovalDecision, ApprovalStatus, ExecutionStatus, ToolExecutionError, ExecutionAttempt,
}

pub record EntryBase : Type 0 where
  pub id : Option String
  pub parent_id : Option String
  pub created_at : Option ℕ
  pub context_tokens : ℕ

pub record UserMessage : Type 0 where
  pub base : EntryBase
  pub open base use *
  pub parts : List ContentPart

pub record AssistantMessage : Type 0 where
  pub base : EntryBase
  pub open base use *
  pub parts : List AssistantContentPart
  pub llm_config : LlmConfig
  pub stop_reason : String

pub record ToolExecution : Type 0 where
  pub base : EntryBase
  pub open base use *
  pub tool_call_id : String
  pub conversation_id : Option String
  pub raw_tool_call : ToolCall
  pub tool_spec : Option ToolSpec
  pub tool_spec_id : Option String
  pub extras : Fields
  pub approval_status : Option ApprovalStatus
  pub approval_decisions : List ApprovalDecision
  pub status : ExecutionStatus
  pub result : Option ExecutionResult
  pub error : Option ToolExecutionError
  pub attempts : List ExecutionAttempt
  pub finished_at : Option ℕ
  pub cancel_signalled_at : Option ℕ
  pub updated_at : Option ℕ
  pub is_doom_loop_flagged : Bool

pub data TurnOutcome : Type 0 where
  completed cancelled timed_out errored : TurnOutcome

pub record TurnStart : Type 0 where
  pub base : EntryBase
  pub open base use *

pub record TurnFinish : Type 0 where
  pub base : EntryBase
  pub open base use *
  pub outcome : TurnOutcome
  pub error : Option String

pub record CancelRequested : Type 0 where
  pub base : EntryBase
  pub open base use *
  pub outcome : TurnOutcome
  pub error : Option String

pub data CompactionSource : Type 0 where
  user policy : CompactionSource

pub record CompactionEntry : Type 0 where
  pub base : EntryBase
  pub open base use *
  pub source : CompactionSource
  pub parts : Option (List ContentPart)
  pub compacted_nodes : Option (List String)
  pub llm_config : Option LlmConfig
  pub started_at : Option ℕ
  pub ended_at : Option ℕ
  pub metadata : Fields

pub record ChildConversation : Type 0 where
  pub base : EntryBase
  pub open base use *
  pub conversation_id : String
  pub tool_execution_id : String
  pub execution_result : Option ExecutionResult
  pub result_execution_id : Option String

-- The `type` discriminator of an entry.
pub data EntryType : Type 0 where
  user assistant tool_execution turn_start turn_finish cancel_requested compaction
        child_conversation pruned :
      EntryType

unfoldable pub EntryType-discrete : Discrete EntryType
EntryType-discrete = hlevel

pub record PrunedEntry : Type 0 where
  pub base : EntryBase
  pub open base use *
  pub pruned_entry_type : EntryType
  pub pruned_entry_id : String
  pub content : List ContentPart

pub data Entry : Type 0 where
  user : UserMessage → Entry
  assistant : AssistantMessage → Entry
  tool_execution : ToolExecution → Entry
  turn_start : TurnStart → Entry
  turn_finish : TurnFinish → Entry
  cancel_requested : CancelRequested → Entry
  compaction : CompactionEntry → Entry
  child_conversation : ChildConversation → Entry
  pruned : PrunedEntry → Entry

-- The fields that every class inherits.
abbrev pub base_of : Entry → EntryBase
base_of (user e) = e.base
base_of (assistant e) = e.base
base_of (tool_execution e) = e.base
base_of (turn_start e) = e.base
base_of (turn_finish e) = e.base
base_of (cancel_requested e) = e.base
base_of (compaction e) = e.base
base_of (child_conversation e) = e.base
base_of (pruned e) = e.base

abbrev pub entry_id : Entry → Option String
entry_id e = (base_of e).id

abbrev pub entry_type : Entry → EntryType
entry_type (user e) = EntryType.user
entry_type (assistant e) = EntryType.assistant
entry_type (tool_execution e) = EntryType.tool_execution
entry_type (turn_start e) = EntryType.turn_start
entry_type (turn_finish e) = EntryType.turn_finish
entry_type (cancel_requested e) = EntryType.cancel_requested
entry_type (compaction e) = EntryType.compaction
entry_type (child_conversation e) = EntryType.child_conversation
entry_type (pruned e) = EntryType.pruned

-- isinstance(entry, ToolExecution), for an entry that `entries.get` may not find
abbrev pub as_tool_execution : Option Entry → Option ToolExecution
as_tool_execution (some (tool_execution e)) = some e
as_tool_execution _ = none

abbrev pub as_child : Option Entry → Option ChildConversation
as_child (some (child_conversation e)) = some e
as_child _ = none

abbrev pub as_cancel : Option Entry → Option CancelRequested
as_cancel (some (cancel_requested e)) = some e
as_cancel _ = none

abbrev pub as_compaction : Option Entry → Option CompactionEntry
as_compaction (some (compaction e)) = some e
as_compaction _ = none

abbrev pub is_user : Option Entry → Bool
is_user (some (user e)) = true
is_user _ = false

abbrev pub is_assistant : Option Entry → Bool
is_assistant (some (assistant e)) = true
is_assistant _ = false

abbrev pub is_turn_start : Option Entry → Bool
is_turn_start (some (turn_start e)) = true
is_turn_start _ = false

abbrev pub is_turn_finish : Option Entry → Bool
is_turn_finish (some (turn_finish e)) = true
is_turn_finish _ = false
