-- ===== src/Models/Session.antt =====
-- The session, its conversations and configuration, and the reads over them that need no path
-- (agent/core/models.py). A duration or limit that a validator admits is -1 (`Inf`) or a natural
-- number.
use text.Mathlib.Text.{◌==◌}
use luca_py.Base.{
  ℕ, suc, String, Bool, true, false, Option, none, some, List, [], ◌∷◌, ◌||◌, is_some,
  if◌then◌else◌,
}
use luca_py.Base.Dict.{Dict, get, values}
use luca_py.Models.Json.{Fields, get_field, is_true}
use luca_py.Models.Content.{LlmConfig, Usage, ExecutionResult}
use luca_py.Models.Tools.{
  ToolSpec, is_completed, is_pending, is_running, declares_spawn, spawn_marker, stop_marker,
}
use luca_py.Models.Entries.{Entry, ToolExecution, as_tool_execution}
use luca_py.Models.Path.{open_turn_executions}

pub data Limit : Type 0 where
  inf : Limit
  at : ℕ → Limit

pub record RuntimeConfig : Type 0 where
  pub extras : Fields
  pub client_completion_timeout_in_ms : Limit
  pub tool_execution_timeout_in_ms : Limit
  pub llm_completion_cancellation_grace_period : Limit
  pub tool_cancellation_grace_period : Limit
  pub soft_max_steps : Limit
  pub hard_max_steps : Limit
  pub doom_loop_threshold : Limit
  pub resume_finish_reasons : List String
  pub subagents_enabled : Bool
  pub subagents_max_depth : Limit
  pub subagents_max_per_turn : Limit
  pub subagents_max_workers : Limit
  pub subagent_soft_max_steps : Option Limit
  pub subagent_hard_max_steps : Option Limit
  pub wake_parent_on_subagent_completion : Bool
  pub limit_tool_choice_on_soft_max_steps_reached : Bool
  pub limit_tool_choice_on_doom_loop_flagged : Bool

pub record SessionConfig : Type 0 where
  pub extras : Fields
  pub llm_config : LlmConfig
  pub runtime_config : RuntimeConfig
  pub use_native_tools : Bool

pub record Conversation : Type 0 where
  pub id : String
  pub nodes : List String
  pub created_at : ℕ
  pub updated_at : ℕ
  pub previous_conversation_id : Option String
  pub depth : ℕ

-- The active pair `llm_config` and `use_native_tools` is filled in at construction, so it is there.
pub record AgentSession : Type 0 where
  pub id : String
  pub spec_version : String
  pub entries : Dict Entry
  pub tool_specs : Dict ToolSpec
  pub usages : Dict (Dict Usage)
  pub conversations : Dict Conversation
  pub main_conversation_id : String
  pub session_config : SessionConfig
  pub llm_config : LlmConfig
  pub use_native_tools : Bool
  pub extras : Fields

-- The payload of a completed execution whose marker field is `True`.
abbrev marked : String → Option Fields → Option Fields
marked marker none = none
marked marker (some payload) = if is_true (get_field payload marker) then some payload else none

abbrev payload_of : String → Option ExecutionResult → Option Fields
payload_of marker none = none
payload_of marker (some result) = marked marker result.structured_content

unfoldable pub spawn_payload : ToolExecution → Option Fields
spawn_payload e = if is_completed e.status then payload_of spawn_marker e.result else none

unfoldable pub stop_payload : ToolExecution → Option Fields
stop_payload e = if is_completed e.status then payload_of stop_marker e.result else none

-- execution.id == exclude
abbrev same_id : Option String → Option String → Bool
same_id none none = true
same_id none (some b) = false
same_id (some a) none = false
same_id (some a) (some b) = a == b

abbrev is_spawn_call : Option ToolSpec → Bool
is_spawn_call none = false
is_spawn_call (some spec) = declares_spawn spec

-- Whether the loop of `spawns_committed` counts one execution.
unfoldable pub is_committed_spawn : Option String → ToolExecution → Bool
is_committed_spawn exclude e =
    if same_id e.id exclude
    then false
    else if is_spawn_call e.tool_spec
    then (if is_pending e.status || is_running e.status then true else is_some (spawn_payload e))
    else false

count_if {ℓ} : {A : Type ℓ} → (A → Bool) → List A → ℕ
count_if p [] = 0
count_if p (x ∷ xs) = let later = count_if p xs in if p x then suc later else later

-- `none` is the KeyError of an unknown conversation.
unfoldable pub spawns_committed : AgentSession → String → Option String → Option ℕ
unfolding count_if
spawns_committed session conversation_id exclude =
    elim (get session.conversations conversation_id) [
      | none ↦ none
      | some conversation ↦ some (
          count_if (is_committed_spawn exclude)
            (open_turn_executions conversation.nodes session.entries))
    ]

find_call : String → List Entry → Option ToolExecution
find_call tool_call_id [] = none
find_call tool_call_id (entry ∷ rest) =
    let later = find_call tool_call_id rest in
    elim (as_tool_execution (some entry)) [
      | none ↦ later
      | some e ↦ if e.tool_call_id == tool_call_id then some e else later
    ]

unfoldable pub get_tool_execution : AgentSession → String → Option ToolExecution
unfolding find_call
get_tool_execution session tool_call_id = find_call tool_call_id (values session.entries)
