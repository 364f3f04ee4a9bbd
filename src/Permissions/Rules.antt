-- ===== src/Permissions/Rules.antt =====
-- How one (permission, resource) pair is resolved (agent/contrib/resource_permissions/strategy.py):
-- the verdicts of the execution first, then the rules with the mode's promotion.
use text.Mathlib.Text.{◌==◌}
use luca_py.Base.{
  String, Bool, true, false, ◌&&◌, Option, none, some, List, [], ◌∷◌, if◌then◌else◌, is_none,
}
use luca_py.Models.Tools.{ToolKind, ToolSpec, ApprovalOption}
use luca_py.Models.Entries.{ToolExecution}
use luca_py.Permissions.{
  ResourcePermission, PermissionMode, PermissionMatchMode, ToolKindRule, ToolRule, Rule, of_kind,
  of_tool, Via, user, rule, kind_default, mode, Strategy, same_text, same_decision, same_kind,
}

abbrev kind_of : Option ToolSpec → Option ToolKind
kind_of none = none
kind_of (some spec) = some spec.tool_kind

-- rule.tool_kind == tool_kind
abbrev kind_matches : ToolKindRule → Option ToolKind → Bool
kind_matches r none = false
kind_matches r (some kind) = same_kind r.tool_kind kind

unfoldable pub tool_matches : PermissionMatchMode → ToolRule → String → Bool
tool_matches PermissionMatchMode.relaxed r name = true
tool_matches PermissionMatchMode.strict r name =
    if is_none r.tool_name then true else same_text r.tool_name (some name)

unfoldable pub apply_mode : PermissionMode → ApprovalOption × Via → ApprovalOption × Via
apply_mode PermissionMode.ask resolved = resolved
apply_mode m (ApprovalOption.deny, via) = (ApprovalOption.deny, via)
apply_mode m (ApprovalOption.allow, via) = (ApprovalOption.allow, via)
apply_mode m (ApprovalOption.pending, via) = (ApprovalOption.allow, mode)

-- The decision of a rule that matches replaces the one so far.
abbrev pub or_else :
    Option (ApprovalOption × Via) → Option (ApprovalOption × Via) → Option (ApprovalOption × Via)
or_else none matched = matched
or_else (some d) matched = some d

module _ (fnmatchcase : String → String → Bool) where
  unfoldable pub resource_matches : Option String → Option String → Bool
  resource_matches none none = true
  resource_matches none (some pattern) = false
  resource_matches (some resource) none = false
  resource_matches (some resource) (some pattern) =
      if resource == pattern then true else fnmatchcase resource pattern

  -- The two tests that a verdict's or a rule's pair makes of a required pair.
  unfoldable pub pair_covers : ResourcePermission → ResourcePermission → Bool
  pair_covers granted pair =
      granted.permission == pair.permission && resource_matches pair.resource granted.resource

  -- The loop, with `matched` so far: a matching DENY returns at once.
  unfoldable pub scan_verdicts :
      Option ApprovalOption
      → List (ResourcePermission × ApprovalOption)
      → ResourcePermission
      → Option ApprovalOption
  scan_verdicts matched [] pair = matched
  scan_verdicts matched ((granted, decision) ∷ rest) pair =
      let next = if pair_covers granted pair then some decision else matched in
      let later = scan_verdicts next rest pair in
      if pair_covers granted pair && same_decision decision ApprovalOption.deny
      then some ApprovalOption.deny
      else later

  abbrev by_user : Option ApprovalOption → Option (ApprovalOption × Via)
  by_user none = none
  by_user (some decision) = some (decision, user)

  unfoldable pub match_verdicts :
      Strategy → Option String → ResourcePermission → Option (ApprovalOption × Via)
  match_verdicts s execution_id pair = by_user (scan_verdicts none (s.verdicts execution_id) pair)

  -- What one rule says of the pair, where it matches.
  unfoldable pub match_rule :
      PermissionMatchMode
      → Rule
      → ToolExecution
      → ResourcePermission
      → Option (ApprovalOption × Via)
  match_rule m (of_kind r) e pair =
      if kind_matches r (kind_of e.tool_spec) then some (r.decision, kind_default) else none
  match_rule m (of_tool r) e pair =
      if tool_matches m r e.raw_tool_call.name && pair_covers r.resource_permission pair
      then some (r.decision, rule)
      else none

  unfoldable pub scan_rules :
      PermissionMatchMode
      → Option (ApprovalOption × Via)
      → List Rule
      → ToolExecution
      → ResourcePermission
      → Option (ApprovalOption × Via)
  scan_rules m matched [] e pair = matched
  scan_rules m matched (r ∷ rest) e pair =
      scan_rules m (or_else (match_rule m r e pair) matched) rest e pair

  unfoldable pub match_rules : Strategy → ToolExecution → ResourcePermission → ApprovalOption × Via
  match_rules s e pair = elim (scan_rules s.permission_mode none s.rules e pair) [
    | none ↦ (ApprovalOption.pending, mode)
    | some matched ↦ matched
  ]

  unfoldable pub resolve_pair : Strategy → ToolExecution → ResourcePermission → ApprovalOption × Via
  resolve_pair s e pair = elim (match_verdicts s e.id pair) [
    | some verdict ↦ verdict
    | none ↦ apply_mode s.mode (match_rules s e pair)
  ]
