-- ===== src/Models/Tools.antt =====
-- Tool specs and the lifecycle of one tool execution (agent/core/models.py).
use luca_py.Base.{ℕ, String, Bool, true, false, Option, none, some, is_some}
use luca_py.Models.Json.{Fields, get_field}

pub data ToolKind : Type 0 where
  read search web_fetch web edit move delete execute switch_mode other : ToolKind

pub data ApprovalOption : Type 0 where
  allow deny pending : ApprovalOption

-- An output schema with its `properties` keyword apart; JSON Schema has an object there. `none` is
-- a keyword that is absent or null.
pub record OutputSchema : Type 0 where
  pub properties : Option Fields
  pub keywords : Fields

pub record ToolSpec : Type 0 where
  pub name : String
  pub title : Option String
  pub description : String
  pub input_schema : Fields
  pub output_schema : Option OutputSchema
  pub is_private : Bool
  pub is_synthetic : Bool
  pub metadata : Option Fields
  pub tool_kind : ToolKind
  pub namespace : Option String
  pub version : Option String
  pub timeout_in_ms : Option ℕ

-- The hash of a spec's JSON text is the standard library's; `title` is left out of the payload.
unfoldable pub spec_id : (ToolSpec → String) → ToolSpec → String
spec_id digest spec = digest (record spec { title = none })

pub record ApprovalDecision : Type 0 where
  pub decision : ApprovalOption
  pub metadata : Option Fields
  pub created_at : ℕ

pub data ExecutionStatus : Type 0 where
  received pending running awaiting_result completed failed not_found invalid rejected refused
        cancelled interrupted timed_out :
      ExecutionStatus

-- `status in NONTERMINAL_STATUSES`
unfoldable pub is_nonterminal : ExecutionStatus → Bool
is_nonterminal received = true
is_nonterminal pending = true
is_nonterminal running = true
is_nonterminal awaiting_result = true
is_nonterminal _ = false

-- Tests `status == ExecutionStatus.X` that the derivations make.
abbrev pub is_received : ExecutionStatus → Bool
is_received received = true
is_received _ = false

abbrev pub is_pending : ExecutionStatus → Bool
is_pending pending = true
is_pending _ = false

abbrev pub is_running : ExecutionStatus → Bool
is_running running = true
is_running _ = false

abbrev pub is_awaiting_result : ExecutionStatus → Bool
is_awaiting_result awaiting_result = true
is_awaiting_result _ = false

abbrev pub is_completed : ExecutionStatus → Bool
is_completed completed = true
is_completed _ = false

pub data ApprovalStatus : Type 0 where
  pending allowed rejected : ApprovalStatus

-- `approval_status == ApprovalStatus.PENDING`
abbrev pub is_deferred : Option ApprovalStatus → Bool
is_deferred (some ApprovalStatus.pending) = true
is_deferred (some ApprovalStatus.allowed) = false
is_deferred (some ApprovalStatus.rejected) = false
is_deferred none = false

-- `approval_status == ApprovalStatus.ALLOWED`
abbrev pub is_allowed : Option ApprovalStatus → Bool
is_allowed (some ApprovalStatus.allowed) = true
is_allowed (some ApprovalStatus.pending) = false
is_allowed (some ApprovalStatus.rejected) = false
is_allowed none = false

pub record ToolExecutionError : Type 0 where
  pub error_type : String
  pub error_message : String
  pub details : Fields

pub data ExecutionAttemptOutcome : Type 0 where
  deferred completed failed interrupted timed_out discarded : ExecutionAttemptOutcome

pub record ExecutionAttempt : Type 0 where
  pub outcome : Option ExecutionAttemptOutcome
  pub started_at : ℕ
  pub ended_at : Option ℕ

abbrev pub spawn_marker : String
spawn_marker = "is_subagent_spawn"

abbrev pub stop_marker : String
stop_marker = "is_subagent_stop"

-- `SPAWN_MARKER in (schema.get("properties") or {})`, for a schema that is there.
abbrev marker_in : Option Fields → Bool
marker_in none = false
marker_in (some properties) = is_some (get_field properties spawn_marker)

abbrev schema_declares : Option OutputSchema → Bool
schema_declares none = false
schema_declares (some schema) = marker_in schema.properties

unfoldable pub declares_spawn : ToolSpec → Bool
declares_spawn spec = schema_declares spec.output_schema
