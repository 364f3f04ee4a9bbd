-- ===== src/Permissions/Prompts.antt =====
-- The promotion of a mode, and the prompt feed `pending_requests`, against `decide`
-- (agent/contrib/resource_permissions/strategy.py).
use luca_py.Base.{
  ℕ, String, ◌≡◌, ◌≢◌, ◌↔◌, refl, sym, ap, ◌∙◌, inl, inr, Bool, false, Option, none, some, List, [],
  ◌∷◌, ◌++◌, map, All, All-map, arith, Bool-cases, Option-cases, filter, ◌&&◌, if◌then◌else◌,
}
use mathlib.Core.Option.{some-injective}
use luca_py.Models.Json.{Json}
use luca_py.Models.Tools.{ApprovalOption, ApprovalDecision, allow, deny, pending}
use luca_py.Models.Entries.{ToolExecution}
use luca_py.Permissions.{
  ResourcePermission, PermissionRequest, PermissionMode, Strategy, Via, implicit, same_decision,
  ask,
}
use luca_py.Permissions.Rules.{
  pair_covers, apply_mode, scan_verdicts, match_verdicts, match_rules, scan_rules, resolve_pair,
}
use luca_py.Permissions.Decide.{
  pairs_of, flatten_pairs, permission_requests, decide, is_unresolved, narrowed, narrow_all,
  pending_requests, request_pairs, shown_request,
}
use luca_py.Permissions.Precedence.{worse, worst, pair_decisions, decide-worst}

abbrev pub promoted : ApprovalOption → ApprovalOption
promoted pending = allow
promoted allow = allow
promoted deny = deny

worst-promoted : (xs : List ApprovalOption) → worst (map promoted xs) ≡ promoted (worst xs)
worst-promoted [] = refl
worst-promoted (allow ∷ xs) = worst-promoted xs
worst-promoted (deny ∷ xs) = refl
worst-promoted (pending ∷ xs) =
    elim (worst xs)
        as (λ w.
          worst (map promoted xs) ≡ promoted w
          → worst (map promoted xs) ≡ promoted (worse pending w)) [
            | allow ↦ λ e. e
            | deny ↦ λ e. e
            | pending ↦ λ e. e
          ]
      (worst-promoted xs)

promoted_settled : (d : ApprovalOption) → d ≢ pending → promoted d ≡ d
promoted_settled allow h = refl
promoted_settled deny h = refl
promoted_settled pending h = absurd (h refl)

apply_mode-promoted :
    (m : PermissionMode) (d : ApprovalOption × Via) → m ≢ ask → (apply_mode m d).0 ≡ promoted d.0
unfolding apply_mode
apply_mode-promoted m d h = ground arith

module _ (fnmatchcase : String → String → Bool) where
  scan_verdicts_settled :
      (pair : ResourcePermission) (vs : List (ResourcePermission × ApprovalOption))
      (matched : Option ApprovalOption)
      → All (λ v. v.1 ≢ pending) vs
      → matched ≢ some pending
      → scan_verdicts fnmatchcase matched vs pair ≢ some pending
  unfolding scan_verdicts
  scan_verdicts_settled pair [] matched h m = m
  scan_verdicts_settled pair ((g, d) ∷ vs) matched h m =
      elim (Bool-cases (pair_covers fnmatchcase g pair && same_decision d deny)) [
        | inl c ↦ rw c (λ e. absurd (ground arith))
        | inr c ↦ rw c (
            scan_verdicts_settled pair vs
              (if pair_covers fnmatchcase g pair then some d else matched) h.1
              (elim (Bool-cases (pair_covers fnmatchcase g pair)) [
                | inl t ↦ rw t (λ e. h.0 (some-injective _ _ e))
                | inr t ↦ rw t m
              ]))
      ]

  resolve_pair-promoted :
      (s : Strategy) (e : ToolExecution) (pair : ResourcePermission)
      → All (λ v. v.1 ≢ pending) (s.verdicts e.id)
      → s.mode ≢ ask
      → (resolve_pair fnmatchcase s e pair).0
        ≡ promoted (resolve_pair fnmatchcase (record s { mode = ask }) e pair).0
  unfolding resolve_pair match_verdicts match_rules apply_mode scan_rules
  resolve_pair-promoted s e pair h m =
      elim (Option-cases (scan_verdicts fnmatchcase none (s.verdicts e.id) pair)) [
        | inl none_found ↦
            rw (none_found, resolve_pair)
              (apply_mode-promoted s.mode (match_rules fnmatchcase s e pair) m)
        | inr (d, found) ↦
            let settled : d ≢ pending = λ p.
              scan_verdicts_settled pair (s.verdicts e.id) none h (λ q. absurd (ground arith))
                (found ∙ ap some p) in
            rw (found, resolve_pair) (sym (promoted_settled d settled))
      ]

map-resolved {ℓ} :
    {A : Type ℓ} (f g : A → ApprovalOption)
    → ((x : A) → f x ≡ promoted (g x))
    → (xs : List A) → map f xs ≡ map promoted (map g xs)
map-resolved f g h [] = refl
map-resolved f g h (x ∷ xs) = rw (h x, map-resolved f g h xs) refl

none-some {ℓ} : {A : Type ℓ} {a : A} → none ≢ some a
none-some h = ground arith

filter-nil {ℓ} :
    {A : Type ℓ} (p : A → Bool) (xs : List A) → (filter p xs ≡ []) ↔ All (λ x. p x ≡ false) xs
filter-nil p [] = (λ h. tt, λ h. refl)
filter-nil p (x ∷ xs) = elim (Bool-cases (p x)) [
  | inl e ↦ (λ h. absurd (ground (arith, e, h)), λ h. absurd (ground (arith, e, h.0)))
  | inr e ↦ rw (e, filter) (λ h. (refl, (filter-nil p xs).0 h), λ h. (filter-nil p xs).1 h.1)
]

shown_request-none :
    (request : PermissionRequest) (unresolved : List ResourcePermission)
    → (shown_request request unresolved ≡ none) ↔ (unresolved ≡ [])
shown_request-none request [] = (λ h. refl, λ h. refl)
shown_request-none request (pair ∷ pairs) = (λ h. absurd (ground arith), λ h. absurd (ground arith))

All-append_iff {ℓ κ} :
    {A : Type ℓ} (P : A → Type κ) (xs ys : List A) → All P (xs ++ ys) ↔ (All P xs × All P ys)
All-append_iff P [] ys = (λ h. (tt, h), λ h. h.1)
All-append_iff P (x ∷ xs) ys = (
  λ h. ((h.0, ((All-append_iff P xs ys).0 h.1).0), ((All-append_iff P xs ys).0 h.1).1),
  λ h. (h.0.0, (All-append_iff P xs ys).1 (h.0.1, h.1)),
)

-- The pairs that `decide` leaves PENDING.
module _ (fnmatchcase : String → String → Bool) (s : Strategy) (e : ToolExecution) where
  abbrev pub Settled : ResourcePermission → Type 0
  Settled pair = (resolve_pair fnmatchcase s e pair).0 ≢ pending

  settled_test : (d : ApprovalOption) → (same_decision d pending ≡ false) ↔ (d ≢ pending)
  settled_test d = ground arith

  narrowed-none :
      (request : PermissionRequest)
      → (narrowed fnmatchcase s e request ≡ none) ↔ All Settled (request_pairs (implicit e) request)
  unfolding narrowed is_unresolved
  narrowed-none request =
      let pairs = request_pairs (implicit e) request in
      let empty = filter-nil (is_unresolved fnmatchcase s e) pairs in
      let shown = shown_request-none request (filter (is_unresolved fnmatchcase s e) pairs) in
      (
        λ h. All-map _ _ pairs (λ pair t. (settled_test _).0 t) (empty.0 (shown.0 h)),
        λ h. shown.1 (empty.1 (All-map _ _ pairs (λ pair t. (settled_test _).1 t) h)),
      )

  narrow_all-nil :
      (requests : List PermissionRequest)
      → (narrow_all fnmatchcase s e requests ≡ [])
        ↔ All Settled (flatten_pairs (implicit e) requests)
  unfolding narrow_all flatten_pairs
  narrow_all-nil [] = (λ h. tt, λ h. refl)
  narrow_all-nil (request ∷ rest) =
      let split =
        All-append_iff Settled (request_pairs (implicit e) request)
          (flatten_pairs (implicit e) rest) in
      elim (Option-cases (narrowed fnmatchcase s e request)) [
        | inl n ↦
            rw (n, narrow_all)
              (
                λ h. split.1 ((narrowed-none request).0 n, (narrow_all-nil rest).0 h),
                λ h. (narrow_all-nil rest).1 (split.0 h).1,
              )
        | inr (shown, n) ↦
            rw (n, narrow_all)
              (
                λ h. absurd (ground arith),
                λ h. absurd (none-some (sym ((narrowed-none request).1 (split.0 h).0) ∙ n)),
              )
      ]

module _ (validate : Json → Option PermissionRequest) (fnmatchcase : String → String → Bool)
    (s : Strategy) (e : ToolExecution) (requests : List PermissionRequest)
    (stored : permission_requests validate e ≡ some requests) where
  -- For requests that validate and no verdict PENDING: outside of the mode ASK, `decide` returns
  -- what it returns under ASK with the same rules and verdicts, a PENDING turned into ALLOW.
  pub decide-promoted :
      All (λ v. v.1 ≢ pending) (s.verdicts e.id)
      → s.mode ≢ ask
      → (ts : ℕ)
      → (d asked : ApprovalDecision) × (decide validate fnmatchcase s e ts ≡ some d)
        × (decide validate fnmatchcase (record s { mode = ask }) e ts ≡ some asked)
        × (d.decision ≡ promoted asked.decision)
  decide-promoted settled m ts =
      let s_ask : Strategy = record s { mode = ask } in
      let (d, decided, eq) = decide-worst validate fnmatchcase s e ts requests stored in
      let (asked, decided', eq') = decide-worst validate fnmatchcase s_ask e ts requests stored in
      let same : pair_decisions validate fnmatchcase s e requests
          ≡ map promoted (pair_decisions validate fnmatchcase s_ask e requests) =
        map-resolved _ _ (λ pair. resolve_pair-promoted fnmatchcase s e pair settled m)
          (pairs_of (implicit e) requests) in
      (
        d,
        asked,
        decided,
        decided',
        eq
            ∙ ap worst same
            ∙ worst-promoted (pair_decisions validate fnmatchcase s_ask e requests)
            ∙ ap promoted (sym eq'),
      )

  -- For requests that validate, and at least one: `pending_requests` returns, and it has nothing to
  -- show exactly when no pair that the call needs resolves to PENDING.
  pub pending_requests_empty_iff :
      requests ≢ []
      → (shown : List PermissionRequest) × (pending_requests validate fnmatchcase s e ≡ some shown)
        × ((shown ≡ []) ↔ All (Settled fnmatchcase s e) (pairs_of (implicit e) requests))
  unfolding pending_requests pairs_of
  pending_requests_empty_iff some_request = (
    narrow_all fnmatchcase s e requests,
    rw (stored, pending_requests) refl,
    elim requests
          as (λ rs.
            rs ≢ []
            → (narrow_all fnmatchcase s e rs ≡ [])
              ↔ All (Settled fnmatchcase s e) (pairs_of (implicit e) rs)) [
                | [] ↦ λ h. absurd (h refl)
                | request ∷ rest ↦ λ h. narrow_all-nil fnmatchcase s e (request ∷ rest)
              ]
        some_request,
  )
