-- ===== src/Samples.antt =====
-- Small entries, sessions and ledgers for the tests: no code of the repository.
use luca_py.Base.{◌+◌, String, true, false, Option, none, some, List, [], ◌∷◌}
use luca_py.Base.Dict.{Dict}
use luca_py.Models.Json.{end}
use luca_py.Models.Content.{LlmConfig, ToolCall}
use luca_py.Models.Tools.{ToolSpec, ToolKind, ApprovalStatus, ExecutionStatus}
use luca_py.Models.Entries.{
  EntryBase, Entry, ToolExecution, TurnOutcome, CompactionSource, EntryType, PrunedEntry,
}
use luca_py.Models.Session.{Limit, RuntimeConfig, Conversation, AgentSession}
use luca_py.Ledger.{Ledger}

abbrev pub base : String → Option String → EntryBase
base id parent = record {
  id = some id;
  parent_id = parent;
  created_at = some 1;
  context_tokens = 0;
}

abbrev pub start_entry : String → Entry
start_entry id = Entry.turn_start (record { base = base id none })

abbrev pub finish_entry : String → Entry
finish_entry id =
    Entry.turn_finish
      (record { base = base id none; outcome = TurnOutcome.completed; error = none })

abbrev pub user_entry : String → Entry
user_entry id = Entry.user (record { base = base id none; parts = [] })

abbrev pub llm : LlmConfig
llm = record {
  extras = end;
  model = "m";
  provider = "p";
  model_options = end;
  provider_options = end;
}

abbrev pub assistant_entry : String → Entry
assistant_entry id =
    Entry.assistant
      (record { base = base id none; parts = []; llm_config = llm; stop_reason = "stop" })

abbrev pub compaction_entry : String → Entry
compaction_entry id = Entry.compaction (record {
  base = base id none;
  source = CompactionSource.policy;
  parts = none;
  compacted_nodes = none;
  llm_config = none;
  started_at = none;
  ended_at = none;
  metadata = end;
})

abbrev pub echo : ToolSpec
echo = record {
  name = "echo";
  title = some "Echo";
  description = "";
  input_schema = end;
  output_schema = none;
  is_private = false;
  is_synthetic = false;
  metadata = none;
  tool_kind = ToolKind.other;
  namespace = none;
  version = none;
  timeout_in_ms = none;
}

abbrev pub call : ToolCall
call = record { id = "call"; name = "echo"; arguments = end; extras = end }

abbrev pub execution : String → ExecutionStatus → Option ApprovalStatus → ToolExecution
execution id status approval = record {
  base = base id none;
  tool_call_id = "call";
  conversation_id = none;
  raw_tool_call = call;
  tool_spec = some echo;
  tool_spec_id = none;
  extras = end;
  approval_status = approval;
  approval_decisions = [];
  status = status;
  result = none;
  error = none;
  attempts = [];
  finished_at = none;
  cancel_signalled_at = none;
  updated_at = none;
  is_doom_loop_flagged = false;
}

abbrev pub gated_entry : String → Entry
gated_entry id =
    Entry.tool_execution (execution id ExecutionStatus.pending (some ApprovalStatus.pending))

abbrev pub pruned_entry : String → String → PrunedEntry
pruned_entry original id = record {
  base = base id none;
  pruned_entry_type = EntryType.user;
  pruned_entry_id = original;
  content = [];
}

abbrev pub runtime : RuntimeConfig
runtime = record {
  extras = end;
  client_completion_timeout_in_ms = Limit.inf;
  tool_execution_timeout_in_ms = Limit.inf;
  llm_completion_cancellation_grace_period = Limit.at 0;
  tool_cancellation_grace_period = Limit.at 0;
  soft_max_steps = Limit.inf;
  hard_max_steps = Limit.inf;
  doom_loop_threshold = Limit.inf;
  resume_finish_reasons = "pause" ∷ [];
  subagents_enabled = false;
  subagents_max_depth = Limit.at 1;
  subagents_max_per_turn = Limit.inf;
  subagents_max_workers = Limit.inf;
  subagent_soft_max_steps = none;
  subagent_hard_max_steps = none;
  wake_parent_on_subagent_completion = true;
  limit_tool_choice_on_soft_max_steps_reached = true;
  limit_tool_choice_on_doom_loop_flagged = true;
}

abbrev pub conversation : String → List String → Conversation
conversation id nodes = record {
  id = id;
  nodes = nodes;
  created_at = 1;
  updated_at = 1;
  previous_conversation_id = none;
  depth = 0;
}

-- A session with one conversation, `main`, over the given entries.
abbrev pub session : Dict Entry → List String → AgentSession
session entries nodes = record {
  id = "session";
  spec_version = "0.0.1";
  entries = entries;
  tool_specs = [];
  usages = [];
  conversations = ("main", conversation "main" nodes) ∷ [];
  main_conversation_id = "main";
  session_config = record {
    extras = end;
    llm_config = llm;
    runtime_config = runtime;
    use_native_tools = false;
  };
  llm_config = llm;
  use_native_tools = false;
  extras = end;
}

abbrev pub ledger : AgentSession → Ledger
ledger s = record { session = s; clock = λ n. n + 10; gen_id = λ n. "new"; ticks = 0; minted = 0 }
