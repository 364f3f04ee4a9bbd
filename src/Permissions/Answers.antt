-- ===== src/Permissions/Answers.antt =====
-- `apply_answer` and `add_rule` (agent/contrib/resource_permissions/strategy.py): the calls that
-- change the strategy. `none` is the ValidationError of a rule that is to decide PENDING.
use luca_py.Base.{String, Option, none, some, List, [], ◌∷◌, ◌++◌, if◌then◌else◌, any}
use luca_py.Models.Tools.{ApprovalOption}
use luca_py.Models.Entries.{ToolExecution}
use luca_py.Permissions.{
  ResourcePermission, ToolRule, Rule, of_tool, AnswerDecision, AnswerScope, ApprovalAnswer,
  Strategy, same_text, same_decision, same_rule,
}

-- ToolRule(…), with its validator `_no_pending`
unfoldable pub tool_rule : Option String → ResourcePermission → ApprovalOption → Option ToolRule
tool_rule name pair decision =
    if same_decision decision ApprovalOption.pending
    then none
    else some (record { tool_name = name; resource_permission = pair; decision = decision })

-- if rule not in self.rules: self.rules.append(rule)
unfoldable pub push_rule : Rule → List Rule → List Rule
push_rule rule rules = if any (λ r. same_rule r rule) rules then rules else rules ++ rule ∷ []

unfoldable pub add_rule :
    Option String → ResourcePermission → ApprovalOption → Strategy → Option Strategy
add_rule name pair decision s = elim (tool_rule name pair decision) [
  | none ↦ none
  | some rule ↦ some (record s { rules = push_rule (of_tool rule) s.rules })
]

-- self._verdicts.setdefault(execution.id, []).append((pair, decision))
unfoldable pub add_verdict :
    Option String → ResourcePermission × ApprovalOption → Strategy → Strategy
add_verdict id verdict s = record s {
  verdicts = λ k. if same_text id k then s.verdicts k ++ verdict ∷ [] else s.verdicts k;
}

unfoldable pub answer_decision : AnswerDecision → ApprovalOption
answer_decision AnswerDecision.approve = ApprovalOption.allow
answer_decision AnswerDecision.deny = ApprovalOption.deny

-- The body of the inner loop.
unfoldable pub record_pair :
    ToolExecution → ApprovalAnswer → ResourcePermission → Strategy → Option Strategy
record_pair e answer pair s =
    let decision = answer_decision answer.decision in
    elim answer.scope [
      | AnswerScope.always ↦ add_rule (some e.raw_tool_call.name) pair decision s
      | AnswerScope.once ↦ some (add_verdict e.id (pair, decision) s)
    ]

unfoldable pub record_pairs :
    ToolExecution → ApprovalAnswer → List ResourcePermission → Strategy → Option Strategy
record_pairs e answer [] s = some s
record_pairs e answer (pair ∷ rest) s = elim (record_pair e answer pair s) [
  | none ↦ none
  | some s' ↦ record_pairs e answer rest s'
]

unfoldable pub apply_answer : ToolExecution → List ApprovalAnswer → Strategy → Option Strategy
apply_answer e [] s = some s
apply_answer e (answer ∷ rest) s =
    elim (record_pairs e answer answer.answer_option.resource_permissions s) [
      | none ↦ none
      | some s' ↦ apply_answer e rest s'
    ]
