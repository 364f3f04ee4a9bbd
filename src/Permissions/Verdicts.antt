-- ===== src/Permissions/Verdicts.antt =====
-- The verdicts that once-scoped answers record (agent/contrib/resource_permissions/strategy.py), and
-- how they resolve a pair.
use text.Mathlib.TextPositions.{eq_refl}
use luca_py.Base.{
  String, ◌≡◌, refl, sym, ap, ◌∙◌, ◌⊎◌, inl, inr, Bool, true, false, ◌&&◌, Option, none, some, List,
  [], ◌∷◌, ◌++◌, if◌then◌else◌, map, any, All, arith, Bool-cases,
}
use mathlib.Core.List.{append_assoc}
use luca_py.Models.Tools.{ApprovalOption}
use luca_py.Models.Entries.{ToolExecution}
use luca_py.Permissions.{
  ResourcePermission, AnswerScope, ApprovalAnswer, Strategy, user, same_text, same_decision,
}
use luca_py.Permissions.Rules.{
  resource_matches, pair_covers, scan_verdicts, match_verdicts, resolve_pair,
}
use luca_py.Permissions.Answers.{add_verdict, answer_decision, record_pair, record_pairs}

same_text_refl : (a : Option String) → same_text a a ≡ true
same_text_refl none = refl
same_text_refl (some a) = eq_refl a

pub any-append {ℓ} :
    {A : Type ℓ} (p : A → Bool) (xs ys : List A) → any p ys ≡ true → any p (xs ++ ys) ≡ true
any-append p [] ys h = h
any-append p (x ∷ xs) ys h = elim (Bool-cases (p x)) [
  | inl e ↦ rw e refl
  | inr e ↦ rw e (any-append p xs ys h)
]

-- A strategy after once-scoped verdicts `vs` on execution `id`, and nothing else.
pub record IsRecorded (id : Option String) (vs : List (ResourcePermission × ApprovalOption))
    (s s' : Strategy) : Type 0 where
  pub mode : s'.mode ≡ s.mode
  pub permission_mode : s'.permission_mode ≡ s.permission_mode
  pub rules : s'.rules ≡ s.rules
  pub here : s'.verdicts id ≡ s.verdicts id ++ vs
  pub elsewhere : (k : Option String) → same_text id k ≡ false → s'.verdicts k ≡ s.verdicts k

append-nil {ℓ} : {A : Type ℓ} (xs : List A) → xs ++ [] ≡ xs
append-nil [] = refl
append-nil (x ∷ xs) = ap (λ t. x ∷ t) (append-nil xs)

module _ (e : ToolExecution) (answer : ApprovalAnswer) where
  abbrev pub verdicts_of : List ResourcePermission → List (ResourcePermission × ApprovalOption)
  verdicts_of pairs = map (λ pair. (pair, answer_decision answer.decision)) pairs

  record_pair-once :
      answer.scope ≡ AnswerScope.once
      → (pair : ResourcePermission) (s : Strategy)
      → record_pair e answer pair s
        ≡ some (add_verdict e.id (pair, answer_decision answer.decision) s)
  unfolding record_pair
  record_pair-once h pair s = ground (arith, h)

  pub record_pairs-once :
      answer.scope ≡ AnswerScope.once
      → (pairs : List ResourcePermission) (s : Strategy)
      → (s' : Strategy) × (record_pairs e answer pairs s ≡ some s')
        × IsRecorded e.id (verdicts_of pairs) s s'
  unfolding record_pairs add_verdict
  record_pairs-once h [] s = (
    s,
    refl,
    record {
      mode = refl;
      permission_mode = refl;
      rules = refl;
      here = sym (append-nil (s.verdicts e.id));
      elsewhere = λ k n. refl;
    },
  )
  record_pairs-once h (pair ∷ rest) s =
      let verdict : ResourcePermission × ApprovalOption = (pair, answer_decision answer.decision) in
      let s₁ = add_verdict e.id verdict s in
      let (s', eq, r) = record_pairs-once h rest s₁ in
      let here₁ : s₁.verdicts e.id ≡ s.verdicts e.id ++ verdict ∷ [] =
        rw (same_text_refl e.id) refl in
      (
        s',
        rw (record_pair-once h pair s, record_pairs) eq,
        record {
          mode = r.mode;
          permission_mode = r.permission_mode;
          rules = r.rules;
          here =
              r.here
              ∙ ap (λ t. t ++ verdicts_of rest) here₁
              ∙ append_assoc (s.verdicts e.id) (verdict ∷ []) (verdicts_of rest);
          elsewhere = λ k n. r.elsewhere k n ∙ rw n refl;
        },
      )

module _ (fnmatchcase : String → String → Bool) where
  resource_matches_itself : (r : Option String) → resource_matches fnmatchcase r r ≡ true
  unfolding resource_matches
  resource_matches_itself none = refl
  resource_matches_itself (some r) = rw (eq_refl r) refl

  pub pair_covers_itself : (pair : ResourcePermission) → pair_covers fnmatchcase pair pair ≡ true
  unfolding pair_covers
  pair_covers_itself pair = rw (eq_refl pair.permission) (resource_matches_itself pair.resource)

  scan_verdicts_allow :
      (pair : ResourcePermission) (matched : Option ApprovalOption)
      (vs : List (ResourcePermission × ApprovalOption))
      → All (λ v. v.1 ≡ ApprovalOption.allow) vs
      → (matched ≡ some ApprovalOption.allow)
        ⊎ (any (λ v. pair_covers fnmatchcase v.0 pair) vs ≡ true)
      → scan_verdicts fnmatchcase matched vs pair ≡ some ApprovalOption.allow
  unfolding scan_verdicts
  scan_verdicts_allow pair matched [] h (inl e) = e
  scan_verdicts_allow pair matched [] h (inr e) = absurd (ground arith)
  scan_verdicts_allow pair matched ((g, d) ∷ vs) (same, h) found =
      elim (Bool-cases (pair_covers fnmatchcase g pair)) [
        | inl c ↦
            rw c (rw same (scan_verdicts_allow pair (some ApprovalOption.allow) vs h (inl refl)))
        | inr c ↦ rw c (
            scan_verdicts_allow pair matched vs h
              (elim found [ inl e ↦ inl e | inr e ↦ inr (rw c at e) ]))
      ]

  scan_verdicts_deny :
      (pair : ResourcePermission) (vs : List (ResourcePermission × ApprovalOption))
      (matched : Option ApprovalOption)
      → any (λ v. pair_covers fnmatchcase v.0 pair && same_decision v.1 ApprovalOption.deny) vs
        ≡ true
      → scan_verdicts fnmatchcase matched vs pair ≡ some ApprovalOption.deny
  unfolding scan_verdicts
  scan_verdicts_deny pair [] matched h = absurd (ground arith)
  scan_verdicts_deny pair ((g, d) ∷ vs) matched h =
      let next = if pair_covers fnmatchcase g pair then some d else matched in
      elim (Bool-cases (pair_covers fnmatchcase g pair && same_decision d ApprovalOption.deny)) [
        | inl c ↦ rw c refl
        | inr c ↦ rw c (scan_verdicts_deny pair vs next (rw c at h))
      ]

  -- Verdicts that allow all, one of which covers the pair.
  pub resolve_pair_allow :
      (s : Strategy) (e : ToolExecution) (pair : ResourcePermission)
      → All (λ v. v.1 ≡ ApprovalOption.allow) (s.verdicts e.id)
      → any (λ v. pair_covers fnmatchcase v.0 pair) (s.verdicts e.id) ≡ true
      → resolve_pair fnmatchcase s e pair ≡ (ApprovalOption.allow, user)
  unfolding resolve_pair match_verdicts
  resolve_pair_allow s e pair h covered =
      rw (scan_verdicts_allow pair none (s.verdicts e.id) h (inr covered), resolve_pair) refl

  -- A verdict that denies the pair.
  pub resolve_pair_deny :
      (s : Strategy) (e : ToolExecution) (pair : ResourcePermission)
      → any
          (λ v. pair_covers fnmatchcase v.0 pair && same_decision v.1 ApprovalOption.deny)
          (s.verdicts e.id)
        ≡ true
      → resolve_pair fnmatchcase s e pair ≡ (ApprovalOption.deny, user)
  unfolding resolve_pair match_verdicts
  resolve_pair_deny s e pair h =
      rw (scan_verdicts_deny pair (s.verdicts e.id) none h, resolve_pair) refl
