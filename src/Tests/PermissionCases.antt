-- ===== src/Tests/PermissionCases.antt =====
-- The permission strategy of agent/contrib/resource_permissions on one call with two requests.
use text.Mathlib.Text.{◌==◌}
use luca_py.Base.{
  String, ◌≡◌, ◌↔◌, refl, Bool, true, false, Option, none, some, List, [], ◌∷◌, any, All, arith,
}
use luca_py.Models.Json.{
  Json, end, field, string, array, object, nil, cons, get_field, null, bool, number,
}
use luca_py.Models.Tools.{ApprovalOption, ApprovalDecision, ExecutionStatus, allow, deny}
use luca_py.Models.Entries.{ToolExecution}
use luca_py.Permissions.{
  ResourcePermission, PermissionRequest, PermissionMode, PermissionMatchMode, Rule, of_tool,
  AnswerDecision, AnswerScope, ApprovalAnswer, Strategy, implicit, rule, same_rule,
}
use luca_py.Permissions.Rules.{
  resolve_pair, match_verdicts, scan_verdicts, match_rules, scan_rules, match_rule, tool_matches,
  pair_covers, resource_matches, apply_mode,
}
use luca_py.Permissions.Decide.{
  permission_requests, context_requests, stored_requests, validate_all, pairs_of, flatten_pairs,
  decide, pending_requests, narrow_all, narrowed, is_unresolved,
}
use luca_py.Permissions.Answers.{apply_answer, add_rule}
use luca_py.Permissions.Precedence.{worst, pair_decisions, decide-worst}
use luca_py.Permissions.Coverage.{approve_once_allows, approve_once_exact, deny_once_denies}
use luca_py.Permissions.Prompts.{promoted, Settled, decide-promoted, pending_requests_empty_iff}
use luca_py.Permissions.LastRule.{add_rule_shadowed}
use luca_py.Samples

abbrev bash : String → ResourcePermission
bash command = record { permission = "bash"; resource = some command }

abbrev request : String → PermissionRequest
request command = record { resources = bash command ∷ []; answer_options = []; metadata = end }

-- A stored request is the text of its one resource.
abbrev validate : Json → Option PermissionRequest
validate (string command) = some (request command)
validate null = none
validate (bool b) = none
validate (number n) = none
validate (array xs) = none
validate (object fs) = none

-- Only a star is a pattern.
abbrev star : String → String → Bool
star resource pattern = pattern == "*"

abbrev requests : List PermissionRequest
requests = request "x[0]" ∷ request "ls" ∷ []

abbrev call : ToolExecution
call = record (Samples.execution "e" ExecutionStatus.pending none) {
  extras =
      field "approval_context"
        (object (field "requests" (array (cons (string "x[0]") (cons (string "ls") nil))) end)) end;
}

abbrev strategy : PermissionMode → List Rule → Strategy
strategy mode rules = record {
  mode = mode;
  permission_mode = PermissionMatchMode.relaxed;
  rules = rules;
  verdicts = λ id. [];
}

abbrev asking : Strategy
asking = strategy PermissionMode.ask []

abbrev once : AnswerDecision → List ResourcePermission → ApprovalAnswer
once decision pairs = record {
  answer_option = record { resource_permissions = pairs; metadata = end };
  decision = decision;
  scope = AnswerScope.once;
}

requests_stored : permission_requests validate call ≡ some requests
unfolding permission_requests context_requests stored_requests validate_all get_field
requests_stored = refl

decide-worst_example :
    (d : ApprovalDecision) × (decide validate star asking call 5 ≡ some d)
    × (d.decision ≡ worst (pair_decisions validate star asking call requests))
decide-worst_example = decide-worst validate star asking call 5 requests requests_stored

star_covers :
    All
      (λ pair. any (λ granted. pair_covers star granted pair) (bash "*" ∷ []) ≡ true)
      (pairs_of (implicit call) requests)
unfolding pair_covers resource_matches pairs_of flatten_pairs
star_covers = (refl, (refl, tt))

approve_once_allows_example :
    (s' : Strategy) × (d : ApprovalDecision) × (apply_answer call
        (once AnswerDecision.approve (bash "*" ∷ []) ∷ [])
        asking
      ≡ some s')
    × (decide validate star s' call 5 ≡ some d)
    × (d.decision ≡ allow)
approve_once_allows_example =
    approve_once_allows validate star asking call (once AnswerDecision.approve (bash "*" ∷ []))
      requests requests_stored refl refl tt star_covers 5

pairs_required : bash "x[0]" ∷ bash "ls" ∷ [] ≡ pairs_of (implicit call) requests
unfolding pairs_of flatten_pairs
pairs_required = refl

approve_once_exact_example :
    (s' : Strategy) × (d : ApprovalDecision) × (apply_answer call
        (once AnswerDecision.approve (bash "x[0]" ∷ bash "ls" ∷ []) ∷ [])
        asking
      ≡ some s')
    × (decide validate star s' call 5 ≡ some d)
    × (d.decision ≡ allow)
approve_once_exact_example =
    approve_once_exact validate star asking call
      (once AnswerDecision.approve (bash "x[0]" ∷ bash "ls" ∷ [])) requests requests_stored refl
      refl tt pairs_required 5

one_denied :
    any
      (λ pair. any (λ granted. pair_covers star granted pair) (bash "ls" ∷ []))
      (pairs_of (implicit call) requests)
    ≡ true
unfolding pair_covers resource_matches pairs_of flatten_pairs
one_denied = refl

deny_once_denies_example :
    (s' : Strategy) × (d : ApprovalDecision) × (apply_answer call
        (once AnswerDecision.deny (bash "ls" ∷ []) ∷ [])
        (strategy PermissionMode.yolo [])
      ≡ some s')
    × (decide validate star s' call 5 ≡ some d)
    × (d.decision ≡ deny)
deny_once_denies_example =
    deny_once_denies validate star (strategy PermissionMode.yolo []) call
      (once AnswerDecision.deny (bash "ls" ∷ [])) requests requests_stored refl refl one_denied 5

decide-promoted_example :
    (d asked : ApprovalDecision) × (decide validate star (strategy PermissionMode.yolo []) call 5
      ≡ some d)
    × (decide validate star asking call 5 ≡ some asked)
    × (d.decision ≡ promoted asked.decision)
decide-promoted_example =
    decide-promoted validate star (strategy PermissionMode.yolo []) call requests requests_stored tt
      (λ h. absurd (ground arith)) 5

pending_requests_empty_iff_example :
    (shown : List PermissionRequest) × (pending_requests validate star asking call ≡ some shown)
    × ((shown ≡ []) ↔ All (Settled star asking call) (pairs_of (implicit call) requests))
pending_requests_empty_iff_example =
    pending_requests_empty_iff validate star asking call requests requests_stored
      (λ h. absurd (ground arith))

abbrev bash_rule : ApprovalOption → Rule
bash_rule decision =
    of_tool
      (record { tool_name = some "bash"; resource_permission = bash "*"; decision = decision })

rule_matches :
    (d : ApprovalOption)
    → match_rule star PermissionMatchMode.relaxed (bash_rule d) call (bash "ls") ≡ some (d, rule)
unfolding match_rule tool_matches pair_covers resource_matches
rule_matches d = refl

abbrev ruled : Strategy
ruled = strategy PermissionMode.ask (bash_rule deny ∷ [])

deny_is_fresh : any (λ r. same_rule r (bash_rule allow)) ruled.rules ≡ false
unfolding same_rule
deny_is_fresh = refl

abbrev overruled : Strategy
overruled = strategy PermissionMode.ask (bash_rule allow ∷ bash_rule deny ∷ [])

allow_is_there : any (λ r. same_rule r (bash_rule allow)) (bash_rule allow ∷ []) ≡ true
unfolding same_rule
allow_is_there = refl

add_rule_shadowed_example :
    (s' : Strategy) × (add_rule (some "bash") (bash "*") allow overruled ≡ some s')
    × (match_rules star s' call (bash "ls") ≡ (deny, rule))
add_rule_shadowed_example =
    add_rule_shadowed star call (bash "ls") overruled (some "bash") (bash "*") allow
      (bash_rule allow ∷ []) (bash_rule deny) rule (λ h. absurd (ground arith)) refl allow_is_there
      (rule_matches deny)

-- After `ls` is approved once, only the other resource is asked for.
ls_approved :
    narrow_all star (record asking { verdicts = λ id. (bash "ls", allow) ∷ [] }) call requests
    ≡ request "x[0]" ∷ []
unfolding resolve_pair match_verdicts scan_verdicts match_rules scan_rules apply_mode pair_covers
    resource_matches narrow_all narrowed is_unresolved
ls_approved = refl

-- A literal resource with a character class is covered by itself though no pattern matches it.
literal_covered : resource_matches star (some "x[0]") (some "x[0]") ≡ true
unfolding resource_matches
literal_covered = refl

-- STRICT holds a rule to its tool.
strict_rule :
    match_rule star PermissionMatchMode.strict
      (of_tool
        (record { tool_name = some "other"; resource_permission = bash "*"; decision = allow }))
      call
      (bash "ls")
    ≡ none
unfolding match_rule tool_matches pair_covers resource_matches
strict_rule = refl
