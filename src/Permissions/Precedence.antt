-- ===== src/Permissions/Precedence.antt =====
-- `_aggregate` and `decide` (agent/contrib/resource_permissions/strategy.py) against an order of the
-- options: ALLOW, then PENDING, then DENY.
use luca_py.Base.{
  ℕ, String, ◌≡◌, refl, ap, ◌∙◌, Bool, Option, none, some, List, [], ◌∷◌, ◌++◌, map, arith,
}
use luca_py.Models.Json.{Json}
use luca_py.Models.Tools.{ApprovalOption, ApprovalDecision, allow, deny, pending}
use luca_py.Models.Entries.{ToolExecution}
use luca_py.Permissions.{ResourcePermission, PermissionRequest, Strategy, Via, implicit}
use luca_py.Permissions.Rules.{resolve_pair}
use luca_py.Permissions.Decide.{
  find_decision, aggregate, flatten_pairs, pairs_of, permission_requests, required_pairs, decide,
  or_fallback, approval,
}

-- The option that stands higher.
abbrev pub worse : ApprovalOption → ApprovalOption → ApprovalOption
worse allow y = y
worse deny y = deny
worse pending allow = pending
worse pending deny = deny
worse pending pending = pending

abbrev pub worst : List ApprovalOption → ApprovalOption
worst [] = allow
worst (x ∷ xs) = worse x (worst xs)

abbrev decisions : List (ApprovalOption × Via) → List ApprovalOption
decisions rs = map (λ r. r.0) rs

-- What the two searches of `_aggregate` find.
data Standing (rs : List (ApprovalOption × Via)) : Type 0 where
  denied :
      (v : Via) → find_decision deny rs ≡ some (deny, v) → worst (decisions rs) ≡ deny → Standing rs
  unresolved :
      (v : Via)
      → find_decision deny rs ≡ none
      → find_decision pending rs ≡ some (pending, v)
      → worst (decisions rs) ≡ pending
      → Standing rs
  allowed :
      find_decision deny rs ≡ none
      → find_decision pending rs ≡ none
      → worst (decisions rs) ≡ allow
      → Standing rs

standing : (rs : List (ApprovalOption × Via)) → Standing rs
unfolding find_decision
standing [] = allowed refl refl refl
standing ((allow, v) ∷ rs) = elim (standing rs) [
  | denied w f e ↦ denied w f e
  | unresolved w n f e ↦ unresolved w n f e
  | allowed n m e ↦ allowed n m e
]
standing ((deny, v) ∷ rs) = denied v refl refl
standing ((pending, v) ∷ rs) = elim (standing rs) [
  | denied w f e ↦ denied w f (rw e refl)
  | unresolved w n f e ↦ unresolved v n refl (rw e refl)
  | allowed n m e ↦ unresolved v n refl (rw e refl)
]

worst-allow : (x : ApprovalOption) (xs : List ApprovalOption) → worst (x ∷ xs) ≡ allow → x ≡ allow
worst-allow allow xs h = refl
worst-allow deny xs h = absurd (ground arith)
worst-allow pending xs h =
    elim (worst xs) as (λ y. worse pending y ≡ allow → pending ≡ allow) [
      | allow ↦ λ h. absurd (ground arith)
      | deny ↦ λ h. absurd (ground arith)
      | pending ↦ λ h. absurd (ground arith)
    ]
      h

aggregate-worst :
    (r : ApprovalOption × Via) (rs : List (ApprovalOption × Via))
    → (v : Via) × (aggregate (r ∷ rs) ≡ some (worst (decisions (r ∷ rs)), v))
unfolding aggregate
aggregate-worst r rs = elim (standing (r ∷ rs)) [
  | denied v f e ↦ (v, rw (f, e, aggregate) refl)
  | unresolved v n f e ↦ (v, rw (n, f, e, aggregate) refl)
  | allowed n m e ↦
      (r.1, rw (n, m, e, aggregate) (ap (λ o. some (o, r.1)) (worst-allow r.0 (decisions rs) e)))
]

or_fallback_nonempty :
    (fallback : ResourcePermission) (pairs others : List ResourcePermission)
    → (pair : ResourcePermission) × (rest : List ResourcePermission) × (or_fallback fallback pairs
          ++ others
        ≡ pair ∷ rest)
or_fallback_nonempty fallback [] others = (fallback, others, refl)
or_fallback_nonempty fallback (pair ∷ pairs) others = (pair, pairs ++ others, refl)

-- Some pair is always required.
pub pairs_of_nonempty :
    (fallback : ResourcePermission) (requests : List PermissionRequest)
    → (pair : ResourcePermission) × (rest : List ResourcePermission) × (pairs_of fallback requests
        ≡ pair ∷ rest)
unfolding pairs_of flatten_pairs
pairs_of_nonempty fallback [] = (fallback, [], refl)
pairs_of_nonempty fallback (request ∷ rest) =
    or_fallback_nonempty fallback request.resources (flatten_pairs fallback rest)

module _ {ℓ} {A : Type ℓ} (f : A → ApprovalOption × Via) where
  decisions-map : (xs : List A) → decisions (map f xs) ≡ map (λ x. (f x).0) xs
  decisions-map [] = refl
  decisions-map (x ∷ xs) = ap (λ t. (f x).0 ∷ t) (decisions-map xs)

  aggregate-map :
      (xs : List A) (x : A) (rest : List A)
      → xs ≡ x ∷ rest
      → (v : Via) × (aggregate (map f xs) ≡ some (worst (map (λ x. (f x).0) xs), v))
  aggregate-map xs x rest h =
      let (v, eq) = aggregate-worst (f x) (map f rest) in
      (v, rw h (eq ∙ ap (λ t. some (worst ((f x).0 ∷ t), v)) (decisions-map rest)))

module _ (validate : Json → Option PermissionRequest) (fnmatchcase : String → String → Bool) where
  -- What the strategy says of each required pair.
  abbrev pub pair_decisions :
      Strategy → ToolExecution → List PermissionRequest → List ApprovalOption
  pair_decisions s e requests =
      map (λ pair. (resolve_pair fnmatchcase s e pair).0) (pairs_of (implicit e) requests)

  -- Where the stored requests validate, `decide` returns, and its decision is the highest, in the
  -- order ALLOW, PENDING, DENY, of the decisions on the pairs that the call needs.
  pub decide-worst :
      (s : Strategy) (e : ToolExecution) (ts : ℕ) (requests : List PermissionRequest)
      → permission_requests validate e ≡ some requests
      → (d : ApprovalDecision) × (decide validate fnmatchcase s e ts ≡ some d)
        × (d.decision ≡ worst (pair_decisions s e requests))
  unfolding decide required_pairs
  decide-worst s e ts requests h =
      let (pair, rest, split) = pairs_of_nonempty (implicit e) requests in
      let (v, eq) =
        aggregate-map (resolve_pair fnmatchcase s e) (pairs_of (implicit e) requests) pair rest
          split in
      (
        approval ts (worst (pair_decisions s e requests), v),
        rw (h, decide, required_pairs) (rw eq refl),
        refl,
      )
