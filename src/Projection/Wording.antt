-- ===== src/Projection/Wording.antt =====
-- The texts that agent/core/projection.py derives: for an execution that gave no result, and for the
-- outcome of a subagent's task.
use luca_py.Base.{ℕ, String, Bool, Option, none, some, List, [], ◌∷◌, if◌then◌else◌}
use Prim.Native.String.{◌++◌}
use luca_py.Models.Json.{Json, get_field}
use luca_py.Models.Tools.{ToolExecutionError, ExecutionStatus}
use luca_py.Models.Entries.{ToolExecution}
use luca_py.Projection.{Block, Texts}

abbrev pub awaiting_approval_output : String
awaiting_approval_output =
    "[tool execution is awaiting approval — it has not run, and this is not its result]"

abbrev pub awaiting_result_output : String
awaiting_result_output =
    "[tool execution has not finished — this is not its result; do not call it again, the result will follow when it completes]"

abbrev pub cancelled_turn_marker : String
cancelled_turn_marker = "[Request interrupted by user]"

-- STATUS_ONLY_OUTPUTS; it has no other row, and is not read at another status.
abbrev pub status_only_output : ExecutionStatus → String
status_only_output ExecutionStatus.rejected = "[tool execution rejected]"
status_only_output ExecutionStatus.refused = "[tool execution refused]"
status_only_output ExecutionStatus.cancelled = "[tool execution cancelled]"
status_only_output ExecutionStatus.interrupted = "[tool execution interrupted]"
status_only_output ExecutionStatus.timed_out = "[tool execution timed_out]"
status_only_output _ = ""

-- "".join(block.text for block in blocks if isinstance(block, TextBlock))
unfoldable pub joined_text : List Block → String
joined_text [] = ""
joined_text (Block.text t annotations ∷ rest) = t ++ joined_text rest
joined_text (_ ∷ rest) = joined_text rest

module _ (texts : Texts) where
  abbrev with_errors : String → Option Json → String
  with_errors message none = message
  with_errors message (some errors) =
      if texts.truth errors then message ++ "\n" ++ texts.dumps errors else message

  abbrev pub not_found_text : String → Option ToolExecutionError → String
  not_found_text name none = "Unknown tool: " ++ texts.repr name ++ "."
  not_found_text name (some error) = error.error_message

  abbrev pub invalid_text : String → Option ToolExecutionError → String
  invalid_text name none = "Arguments for tool " ++ texts.repr name ++ " are invalid."
  invalid_text name (some error) =
      with_errors error.error_message (get_field error.details "errors")

  abbrev pub failed_text : Option ToolExecutionError → String
  failed_text none = "[tool execution failed]"
  failed_text (some error) =
      "Tool execution failed: " ++ error.error_type ++ ": " ++ error.error_message

  abbrev pub refused_text : Option ToolExecutionError → String
  refused_text none = status_only_output ExecutionStatus.refused
  refused_text (some error) = error.error_message

  abbrev failure_text : ExecutionStatus → ToolExecution → String
  failure_text ExecutionStatus.not_found entry = not_found_text entry.raw_tool_call.name entry.error
  failure_text ExecutionStatus.invalid entry = invalid_text entry.raw_tool_call.name entry.error
  failure_text ExecutionStatus.failed entry = failed_text entry.error
  failure_text ExecutionStatus.refused entry = refused_text entry.error
  failure_text status entry = status_only_output status

  unfoldable pub derived_failure_text : ToolExecution → String
  derived_failure_text entry = failure_text entry.status entry

  abbrev completed_at : Option ℕ → String
  completed_at none = ""
  completed_at (some ms) = " completed_at=\"" ++ texts.iso_utc ms ++ "\""

  -- CHILD_UPDATE_PREAMBLE and CHILD_UPDATE_TEMPLATE, filled in.
  unfoldable pub task_text : Json → Bool → Option ℕ → String → String
  task_text task_id is_error ms content =
      "Subagent task update:\n"
      ++ "<task id="
      ++ texts.str task_id
      ++ " status="
      ++ (if is_error then "failed" else "completed")
      ++ completed_at ms
      ++ ">\n"
      ++ content
      ++ "\n</task>"
