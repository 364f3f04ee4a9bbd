-- ===== src/Permissions.antt =====
-- agent/contrib/resource_permissions: the requests of mixin.py and the rules, modes and answers of
-- the strategy in strategy.py. `fnmatchcase` is the standard library's and `validate` pydantic's
-- `PermissionRequest.model_validate`, where `none` is its ValidationError: both are parameters. A
-- call that raises gives `none`.
pub mod Rules
pub mod Decide
pub mod Answers
pub mod Verdicts
pub mod Precedence
pub mod Coverage
pub mod Prompts
pub mod LastRule
use text.Mathlib.Text.{◌==◌}
use luca_py.Base.{
  String, ◌≡◌, refl, Bool, true, false, not, ◌&&◌, ◌||◌, Option, none, some, List, [], ◌∷◌, ◌++◌,
  if◌then◌else◌, map, any, filter,
}
use luca_py.Models.Json.{
  Json, Items, Fields, get_field, null, bool, number, string, array, object, end, field, nil, cons,
}
use luca_py.Models.Tools.{ToolKind, ToolSpec, ApprovalOption, ApprovalDecision}
use luca_py.Models.Entries.{ToolExecution}
use mathlib.Core.Logic.{ite}

pub record ResourcePermission : Type 0 where
  pub permission : String
  pub resource : Option String

pub record AnswerOption : Type 0 where
  pub resource_permissions : List ResourcePermission
  pub metadata : Fields

pub record PermissionRequest : Type 0 where
  pub resources : List ResourcePermission
  pub answer_options : List AnswerOption
  pub metadata : Fields

pub data PermissionMode : Type 0 where
  ask yolo auto : PermissionMode

pub data PermissionMatchMode : Type 0 where
  relaxed strict : PermissionMatchMode

pub record ToolKindRule : Type 0 where
  pub tool_kind : ToolKind
  pub decision : ApprovalOption

pub record ToolRule : Type 0 where
  pub tool_name : Option String
  pub resource_permission : ResourcePermission
  pub decision : ApprovalOption

pub data Rule : Type 0 where
  of_kind : ToolKindRule → Rule
  of_tool : ToolRule → Rule

pub data AnswerDecision : Type 0 where
  approve deny : AnswerDecision

pub data AnswerScope : Type 0 where
  once always : AnswerScope

pub record ApprovalAnswer : Type 0 where
  pub answer_option : AnswerOption
  pub decision : AnswerDecision
  pub scope : AnswerScope

-- The `via` that goes with a decision.
pub data Via : Type 0 where
  user rule kind_default mode : Via

unfoldable pub ToolKind-discrete : Discrete ToolKind
ToolKind-discrete = hlevel

-- The tests `==` on the fields of a rule, and on a rule.
abbrev pub same_text : Option String → Option String → Bool
same_text none none = true
same_text none (some b) = false
same_text (some a) none = false
same_text (some a) (some b) = a == b

abbrev pub same_decision : ApprovalOption → ApprovalOption → Bool
same_decision ApprovalOption.allow ApprovalOption.allow = true
same_decision ApprovalOption.deny ApprovalOption.deny = true
same_decision ApprovalOption.pending ApprovalOption.pending = true
same_decision _ _ = false

unfoldable pub same_kind : ToolKind → ToolKind → Bool
unfolding ToolKind-discrete
same_kind k l = ite (ToolKind-discrete k l) true false

abbrev pub same_pair : ResourcePermission → ResourcePermission → Bool
same_pair p q = p.permission == q.permission && same_text p.resource q.resource

unfoldable pub same_rule : Rule → Rule → Bool
same_rule (of_kind r) (of_kind q) =
    same_kind r.tool_kind q.tool_kind && same_decision r.decision q.decision
same_rule (of_tool r) (of_tool q) =
    same_text r.tool_name q.tool_name
    && same_pair r.resource_permission q.resource_permission
    && same_decision r.decision q.decision
same_rule _ _ = false

-- The verdicts of an execution are found under its id, which may be None.
pub record Strategy : Type 0 where
  pub mode : PermissionMode
  pub permission_mode : PermissionMatchMode
  pub rules : List Rule
  pub verdicts : Option String → List (ResourcePermission × ApprovalOption)

-- The pair that a call without resources needs.
abbrev pub implicit : ToolExecution → ResourcePermission
implicit e = record { permission = e.raw_tool_call.name; resource = none }
