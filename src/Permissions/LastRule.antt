-- ===== src/Permissions/LastRule.antt =====
-- `add_rule` and the order of the rules (agent/contrib/resource_permissions/strategy.py).
use luca_py.Base.{
  String, ◌≡◌, ◌≢◌, refl, inl, inr, Bool, true, false, Option, none, some, List, [], ◌∷◌, ◌++◌, any,
  arith, Bool-cases,
}
use luca_py.Models.Tools.{ApprovalOption, deny, pending}
use luca_py.Models.Entries.{ToolExecution}
use luca_py.Permissions.{
  ResourcePermission, PermissionMatchMode, Rule, of_tool, Strategy, Via, rule, same_rule,
}
use luca_py.Permissions.Rules.{match_rule, or_else, scan_rules, match_rules}
use luca_py.Permissions.Answers.{tool_rule, push_rule, add_rule}

any-append_left {ℓ} :
    {A : Type ℓ} (p : A → Bool) (xs ys : List A) → any p xs ≡ true → any p (xs ++ ys) ≡ true
any-append_left p [] ys h = absurd (ground arith)
any-append_left p (x ∷ xs) ys h = elim (Bool-cases (p x)) [
  | inl e ↦ rw e refl
  | inr e ↦ rw e (any-append_left p xs ys (rw e at h))
]

module _ (fnmatchcase : String → String → Bool) (e : ToolExecution)
    (pair : ResourcePermission) where
  -- The last rule speaks first.
  scan_rules-append :
      (m : PermissionMatchMode) (rules : List Rule) (r : Rule)
      (matched : Option (ApprovalOption × Via))
      → scan_rules fnmatchcase m matched (rules ++ r ∷ []) e pair
        ≡ or_else
            (match_rule fnmatchcase m r e pair)
            (scan_rules fnmatchcase m matched rules e pair)
  unfolding scan_rules
  scan_rules-append m [] r matched = refl
  scan_rules-append m (q ∷ rules) r matched =
      scan_rules-append m rules r (or_else (match_rule fnmatchcase m q e pair) matched)

  match_rules_last :
      (s : Strategy) (rules : List Rule) (r : Rule) (d : ApprovalOption × Via)
      → s.rules ≡ rules ++ r ∷ []
      → match_rule fnmatchcase s.permission_mode r e pair ≡ some d
      → match_rules fnmatchcase s e pair ≡ d
  unfolding match_rules
  match_rules_last s rules r d split found =
      rw (split, match_rules)
        (rw (scan_rules-append s.permission_mode rules r none, match_rules)
          (rw (found, match_rules) refl))

  module _ (s : Strategy) (name : Option String) (granted : ResourcePermission)
      (decision : ApprovalOption) where
    abbrev new_rule : Rule
    new_rule =
        of_tool (record { tool_name = name; resource_permission = granted; decision = decision })

    add_rule_pushes :
        decision ≢ pending
        → add_rule name granted decision s ≡ some (record s { rules = push_rule new_rule s.rules })
    unfolding add_rule tool_rule
    add_rule_pushes h = ground arith

    -- A new rule that allows or denies, and that matches the call and `pair`:
    -- `add_rule` returns, and the rules then give its decision for `pair`, whatever the
    -- rules in front of it.
    add_rule_wins :
        decision ≢ pending
        → any (λ r. same_rule r new_rule) s.rules ≡ false
        → match_rule fnmatchcase s.permission_mode new_rule e pair ≡ some (decision, rule)
        → (s' : Strategy) × (add_rule name granted decision s ≡ some s')
          × (match_rules fnmatchcase s' e pair ≡ (decision, rule))
    unfolding push_rule
    add_rule_wins h fresh found =
        let s' : Strategy = record s { rules = push_rule new_rule s.rules } in
        let split : s'.rules ≡ s.rules ++ new_rule ∷ [] = rw (fresh, push_rule) refl in
        (s', add_rule_pushes h, match_rules_last s' s.rules new_rule (decision, rule) split found)

    -- A rule that is there already, in front of a last rule that denies `pair`: adding it again
    -- returns, and `pair` is still denied.
    pub add_rule_shadowed :
        (before : List Rule) (last : Rule) (via : Via)
        → decision ≢ pending
        → s.rules ≡ before ++ last ∷ []
        → any (λ r. same_rule r new_rule) before ≡ true
        → match_rule fnmatchcase s.permission_mode last e pair ≡ some (deny, via)
        → (s' : Strategy) × (add_rule name granted decision s ≡ some s')
          × (match_rules fnmatchcase s' e pair ≡ (deny, via))
    unfolding push_rule
    add_rule_shadowed before last via h split there found =
        let s' : Strategy = record s { rules = push_rule new_rule s.rules } in
        let same : any (λ r. same_rule r new_rule) s.rules ≡ true =
          rw split (any-append_left (λ r. same_rule r new_rule) before (last ∷ []) there) in
        let kept : s'.rules ≡ before ++ last ∷ [] = rw (same, push_rule) split in
        (s', add_rule_pushes h, match_rules_last s' before last (deny, via) kept found)
