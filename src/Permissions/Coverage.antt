-- ===== src/Permissions/Coverage.antt =====
-- What an answer does to the next `decide` (agent/contrib/resource_permissions/strategy.py).
use luca_py.Base.{
  ℕ, String, ◌≡◌, refl, sym, ap, ◌∙◌, inl, inr, Bool, true, ◌&&◌, Option, some, List, [], ◌∷◌, ◌++◌,
  map, any, All, All-map, All-append, subst, arith, Bool-cases,
}
use mathlib.Core.List.{append_assoc}
use luca_py.Models.Json.{Json}
use luca_py.Models.Tools.{ApprovalOption, ApprovalDecision, allow, deny, pending}
use luca_py.Models.Entries.{ToolExecution}
use luca_py.Permissions.{
  ResourcePermission, PermissionRequest, AnswerDecision, AnswerScope, ApprovalAnswer, Strategy,
  user, implicit, same_decision,
}
use luca_py.Permissions.Rules.{pair_covers, resolve_pair}
use luca_py.Permissions.Decide.{pairs_of, permission_requests, decide}
use luca_py.Permissions.Answers.{apply_answer, answer_decision}
use luca_py.Permissions.Verdicts.{
  IsRecorded, verdicts_of, record_pairs-once, pair_covers_itself, resolve_pair_allow,
  resolve_pair_deny, any-append,
}
use luca_py.Permissions.Precedence.{worst, pair_decisions, decide-worst}

apply_answer-once :
    (e : ToolExecution) (answer : ApprovalAnswer) (s : Strategy)
    → answer.scope ≡ AnswerScope.once
    → (s' : Strategy) × (apply_answer e (answer ∷ []) s ≡ some s')
      × IsRecorded e.id (verdicts_of e answer answer.answer_option.resource_permissions) s s'
unfolding apply_answer
apply_answer-once e answer s h =
    let (s', eq, r) = record_pairs-once e answer h answer.answer_option.resource_permissions s in
    (s', rw (eq, apply_answer) refl, r)

worst-allow-All : (xs : List ApprovalOption) → All (λ x. x ≡ allow) xs → worst xs ≡ allow
worst-allow-All [] h = refl
worst-allow-All (x ∷ xs) h = rw h.0 (worst-allow-All xs h.1)

worst-deny :
    (xs : List ApprovalOption) → any (λ x. same_decision x deny) xs ≡ true → worst xs ≡ deny
worst-deny [] h = absurd (ground arith)
worst-deny (allow ∷ xs) h = worst-deny xs h
worst-deny (deny ∷ xs) h = refl
worst-deny (pending ∷ xs) h = rw (worst-deny xs h) refl

All-map_of {ℓ κ ρ} :
    {A : Type ℓ} {B : Type κ} (P : B → Type ρ) (f : A → B) (xs : List A)
    → All (λ x. P (f x)) xs
    → All P (map f xs)
All-map_of P f [] h = tt
All-map_of P f (x ∷ xs) h = (h.0, All-map_of P f xs h.1)

any-map_of {ℓ κ} :
    {A : Type ℓ} {B : Type κ} (p : B → Bool) (f : A → B) (xs : List A)
    → any (λ x. p (f x)) xs ≡ true
    → any p (map f xs) ≡ true
any-map_of p f [] h = h
any-map_of p f (x ∷ xs) h = elim (Bool-cases (p (f x))) [
  | inl e ↦ rw e refl
  | inr e ↦ rw e (any-map_of p f xs (rw e at h))
]

All-always {ℓ κ} : {A : Type ℓ} (P : Type κ) → P → (xs : List A) → All (λ x. P) xs
All-always P h [] = tt
All-always P h (x ∷ xs) = (h, All-always P h xs)

module _ {ℓ} {A : Type ℓ} (p q : A → Bool) (f : (x : A) → p x ≡ true → q x ≡ true) where
  any_mono : (xs : List A) → any p xs ≡ true → any q xs ≡ true
  any_mono [] h = h
  any_mono (x ∷ xs) h = elim (Bool-cases (p x)) [
    | inl e ↦ rw (f x e) refl
    | inr e ↦ elim (Bool-cases (q x)) [ inl t ↦ rw t refl | inr t ↦ rw t (any_mono xs (rw e at h)) ]
  ]

-- Every pair of a list is covered by one of the list.
covered_by_itself :
    (fnmatchcase : String → String → Bool) (pairs before : List ResourcePermission)
    → All
        (λ pair. any (λ granted. pair_covers fnmatchcase granted pair) (before ++ pairs) ≡ true)
        pairs
covered_by_itself fnmatchcase [] before = tt
covered_by_itself fnmatchcase (pair ∷ pairs) before = (
  any-append _ before (pair ∷ pairs) (rw (pair_covers_itself fnmatchcase pair) refl),
  rw (append_assoc before (pair ∷ []) pairs) at
      (covered_by_itself fnmatchcase pairs (before ++ pair ∷ [])),
)

module _ (fnmatchcase : String → String → Bool) (s s' : Strategy) (e : ToolExecution)
    (answer : ApprovalAnswer) (granted : List ResourcePermission)
    (r : IsRecorded e.id (verdicts_of e answer granted) s s') (pair : ResourcePermission) where
  approved_pair :
      answer_decision answer.decision ≡ allow
      → All (λ v. v.1 ≡ allow) (s.verdicts e.id)
      → any (λ g. pair_covers fnmatchcase g pair) granted ≡ true
      → resolve_pair fnmatchcase s' e pair ≡ (allow, user)
  approved_pair approved before covered =
      let same : All (λ v. v.1 ≡ allow) (verdicts_of e answer granted) =
        All-map_of (λ v. v.1 ≡ allow) (λ g. (g, answer_decision answer.decision)) granted
          (All-always (answer_decision answer.decision ≡ allow) approved granted) in
      resolve_pair_allow fnmatchcase s' e pair
        (subst (All (λ v. v.1 ≡ allow)) (sym r.here) (
          All-append (λ v. v.1 ≡ allow) (s.verdicts e.id) (verdicts_of e answer granted) before
            same))
        (subst (λ vs. any (λ v. pair_covers fnmatchcase v.0 pair) vs ≡ true) (sym r.here)
          (any-append _ (s.verdicts e.id) (verdicts_of e answer granted)
            (any-map_of _ (λ g. (g, answer_decision answer.decision)) granted covered)))

  denied_pair :
      answer_decision answer.decision ≡ deny
      → any (λ g. pair_covers fnmatchcase g pair) granted ≡ true
      → resolve_pair fnmatchcase s' e pair ≡ (deny, user)
  denied_pair denied covered =
      let test : ResourcePermission × ApprovalOption → Bool =
        λ v. pair_covers fnmatchcase v.0 pair && same_decision v.1 deny in
      let both : (g : ResourcePermission)
          → pair_covers fnmatchcase g pair ≡ true
          → test (g, answer_decision answer.decision) ≡ true =
        λ g c. rw (c, denied) refl in
      resolve_pair_deny fnmatchcase s' e pair (
        subst (λ vs. any test vs ≡ true) (sym r.here)
          (any-append test (s.verdicts e.id) (verdicts_of e answer granted) (
            any-map_of test (λ g. (g, answer_decision answer.decision)) granted
              (any_mono _ _ both granted covered))))

module _ (validate : Json → Option PermissionRequest) (fnmatchcase : String → String → Bool)
    (s : Strategy) (e : ToolExecution) (answer : ApprovalAnswer) (requests : List PermissionRequest)
    (stored : permission_requests validate e ≡ some requests)
    (once : answer.scope ≡ AnswerScope.once) where
  -- For requests that validate and a once-scoped approval: where the verdicts already recorded for
  -- the call all allow, and each pair that the call needs is covered by a pair of the answer,
  -- `apply_answer` returns, and the next `decide` allows the call under any rules and mode.
  pub approve_once_allows :
      answer.decision ≡ AnswerDecision.approve
      → All (λ v. v.1 ≡ allow) (s.verdicts e.id)
      → All
          (λ pair.
            any
              (λ granted. pair_covers fnmatchcase granted pair)
              answer.answer_option.resource_permissions
            ≡ true)
          (pairs_of (implicit e) requests)
      → (ts : ℕ)
      → (s' : Strategy) × (d : ApprovalDecision) × (apply_answer e (answer ∷ []) s ≡ some s')
        × (decide validate fnmatchcase s' e ts ≡ some d)
        × (d.decision ≡ allow)
  unfolding answer_decision
  approve_once_allows approved before covered ts =
      let (s', eq, r) = apply_answer-once e answer s once in
      let (d, decided, worst_d) = decide-worst validate fnmatchcase s' e ts requests stored in
      let granted = answer.answer_option.resource_permissions in
      let pairs = pairs_of (implicit e) requests in
      let all : All (λ pair. (resolve_pair fnmatchcase s' e pair).0 ≡ allow) pairs =
        All-map _ _ pairs
          (λ pair c.
            ap (λ t. t.0)
              (approved_pair fnmatchcase s s' e answer granted r pair (ap answer_decision approved)
                before c))
          covered in
      (s', d, eq, decided, worst_d ∙ worst-allow-All _ (All-map_of (λ x. x ≡ allow) _ pairs all))

  -- For requests that validate and a once-scoped denial with a pair that covers one of those that
  -- the call needs: `apply_answer` returns, and the next `decide` denies the call, whatever the
  -- verdicts, the rules and the mode.
  pub deny_once_denies :
      answer.decision ≡ AnswerDecision.deny
      → any
          (λ pair.
            any
              (λ granted. pair_covers fnmatchcase granted pair)
              answer.answer_option.resource_permissions)
          (pairs_of (implicit e) requests)
        ≡ true
      → (ts : ℕ)
      → (s' : Strategy) × (d : ApprovalDecision) × (apply_answer e (answer ∷ []) s ≡ some s')
        × (decide validate fnmatchcase s' e ts ≡ some d)
        × (d.decision ≡ deny)
  unfolding answer_decision
  deny_once_denies denied covered ts =
      let (s', eq, r) = apply_answer-once e answer s once in
      let (d, decided, worst_d) = decide-worst validate fnmatchcase s' e ts requests stored in
      let granted = answer.answer_option.resource_permissions in
      let pairs = pairs_of (implicit e) requests in
      let is_denied : ApprovalOption → Bool = λ x. same_decision x deny in
      let some_denied =
        any_mono _ (λ pair. is_denied (resolve_pair fnmatchcase s' e pair).0)
          (λ pair c.
            ap (λ t. is_denied t.0)
              (denied_pair fnmatchcase s s' e answer granted r pair (ap answer_decision denied) c))
          pairs covered in
      (
        s',
        d,
        eq,
        decided,
        worst_d
            ∙ worst-deny (pair_decisions validate fnmatchcase s' e requests)
                (any-map_of is_denied _ pairs some_denied),
      )

  -- For requests that validate, a once-scoped approval of the very pairs that the call needs, and
  -- recorded verdicts that all allow: `apply_answer` returns and the next `decide` allows the call,
  -- whatever `fnmatchcase` says of a resource and itself.
  pub approve_once_exact :
      answer.decision ≡ AnswerDecision.approve
      → All (λ v. v.1 ≡ allow) (s.verdicts e.id)
      → answer.answer_option.resource_permissions ≡ pairs_of (implicit e) requests
      → (ts : ℕ)
      → (s' : Strategy) × (d : ApprovalDecision) × (apply_answer e (answer ∷ []) s ≡ some s')
        × (decide validate fnmatchcase s' e ts ≡ some d)
        × (d.decision ≡ allow)
  approve_once_exact approved before exact ts =
      approve_once_allows approved before
        (subst
          (λ granted.
            All (λ pair. any (λ g. pair_covers fnmatchcase g pair) granted ≡ true)
              (pairs_of (implicit e) requests))
          (sym exact) (covered_by_itself fnmatchcase (pairs_of (implicit e) requests) []))
        ts
