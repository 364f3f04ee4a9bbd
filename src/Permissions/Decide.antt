-- ===== src/Permissions/Decide.antt =====
-- `permission_requests`, `decide` and `pending_requests` (agent/contrib/resource_permissions/
-- strategy.py). `decide` does not read the session that it is handed; the time of its answer is an
-- argument.
use text.Mathlib.Text.{◌==◌}
use luca_py.Base.{
  ℕ, String, Bool, true, false, not, ◌||◌, Option, none, some, List, [], ◌∷◌, ◌++◌, if◌then◌else◌,
  map, filter,
}
use luca_py.Models.Json.{
  Json, Items, get_field, null, bool, number, string, array, object, end, field, nil, cons,
}
use luca_py.Models.Tools.{ApprovalOption, ApprovalDecision}
use luca_py.Models.Entries.{ToolExecution}
use luca_py.Permissions.{
  ResourcePermission, PermissionRequest, Via, user, rule, kind_default, mode, Strategy,
  same_decision, implicit,
}
use luca_py.Permissions.Rules.{resolve_pair}

-- The decision that comes first with this option, in the loop of `_aggregate`.
unfoldable pub find_decision :
    ApprovalOption → List (ApprovalOption × Via) → Option (ApprovalOption × Via)
find_decision option [] = none
find_decision option ((decision, via) ∷ rest) =
    let later = find_decision option rest in
    if same_decision decision option then some (decision, via) else later

-- resolved[0], or an IndexError
abbrev head : List (ApprovalOption × Via) → Option (ApprovalOption × Via)
head [] = none
head (d ∷ rest) = some d

unfoldable pub aggregate : List (ApprovalOption × Via) → Option (ApprovalOption × Via)
aggregate resolved = elim (find_decision ApprovalOption.deny resolved) [
  | some d ↦ some d
  | none ↦ elim (find_decision ApprovalOption.pending resolved) [
    | some d ↦ some d
    | none ↦ head resolved
  ]
]

-- `value or …`: the values that count as false.
unfoldable pub is_falsy : Json → Bool
is_falsy null = true
is_falsy (bool b) = not b
is_falsy (number n) = n == "0" || n == "0.0" || n == "-0.0"
is_falsy (string s) = s == ""
is_falsy (array nil) = true
is_falsy (array (cons x xs)) = false
is_falsy (object end) = true
is_falsy (object (field k v fs)) = false

-- (extras.get("approval_context") or {}).get("requests"): `none` is the AttributeError.
unfoldable pub context_requests : Option Json → Option (Option Json)
unfolding is_falsy
context_requests none = some none
context_requests (some (object fields)) = some (get_field fields "requests")
context_requests (some value) = if is_falsy value then some none else none

-- `resources or [implicit]`
abbrev pub or_fallback : ResourcePermission → List ResourcePermission → List ResourcePermission
or_fallback fallback [] = fallback ∷ []
or_fallback fallback (pair ∷ pairs) = pair ∷ pairs

-- The pairs that a request needs, or the implicit one.
abbrev pub request_pairs : ResourcePermission → PermissionRequest → List ResourcePermission
request_pairs fallback request = or_fallback fallback request.resources

unfoldable pub flatten_pairs : ResourcePermission → List PermissionRequest → List ResourcePermission
flatten_pairs fallback [] = []
flatten_pairs fallback (request ∷ rest) =
    request_pairs fallback request ++ flatten_pairs fallback rest

unfoldable pub pairs_of : ResourcePermission → List PermissionRequest → List ResourcePermission
pairs_of fallback [] = fallback ∷ []
pairs_of fallback (request ∷ rest) = flatten_pairs fallback (request ∷ rest)

-- metadata={"via": via}
abbrev via_text : Via → String
via_text user = "user"
via_text rule = "rule"
via_text kind_default = "kind_default"
via_text mode = "mode"

abbrev pub approval : ℕ → ApprovalOption × Via → ApprovalDecision
approval ts (decision, via) = record {
  decision = decision;
  metadata = some (field "via" (string (via_text via)) end);
  created_at = ts;
}

-- if request.resources: …
abbrev keep_pairs :
    PermissionRequest → List ResourcePermission → List ResourcePermission → PermissionRequest
keep_pairs request [] unresolved = request
keep_pairs request (pair ∷ pairs) unresolved = record request { resources = unresolved }

-- if not unresolved: continue
abbrev pub shown_request : PermissionRequest → List ResourcePermission → Option PermissionRequest
shown_request request [] = none
shown_request request (pair ∷ pairs) = some (keep_pairs request request.resources (pair ∷ pairs))

module _ (fnmatchcase : String → String → Bool) where
  -- `_resolve_pair(execution, pair)[0] == ApprovalOption.PENDING`
  unfoldable pub is_unresolved : Strategy → ToolExecution → ResourcePermission → Bool
  is_unresolved s e pair =
      same_decision (resolve_pair fnmatchcase s e pair).0 ApprovalOption.pending

  -- One round of the loop: what is shown of a request, if anything.
  unfoldable pub narrowed : Strategy → ToolExecution → PermissionRequest → Option PermissionRequest
  narrowed s e request =
      shown_request request (filter (is_unresolved s e) (request_pairs (implicit e) request))

  unfoldable pub narrow_all :
      Strategy → ToolExecution → List PermissionRequest → List PermissionRequest
  narrow_all s e [] = []
  narrow_all s e (request ∷ rest) =
      let later = narrow_all s e rest in
      elim (narrowed s e request) [ none ↦ later | some shown ↦ shown ∷ later ]

module _ (validate : Json → Option PermissionRequest) where
  unfoldable pub validate_all : Items → Option (List PermissionRequest)
  validate_all nil = some []
  validate_all (cons raw rest) =
      let later = validate_all rest in
      elim (validate raw) [
        | none ↦ none
        | some request ↦ elim later [ none ↦ none | some requests ↦ some (request ∷ requests) ]
      ]

  -- The loop over what is stored: no request validates from a character or from a key.
  unfoldable pub stored_requests : Option Json → Option (List PermissionRequest)
  unfolding is_falsy validate_all
  stored_requests none = some []
  stored_requests (some (array items)) = validate_all items
  stored_requests (some value) = if is_falsy value then some [] else none

  unfoldable pub permission_requests : ToolExecution → Option (List PermissionRequest)
  unfolding context_requests stored_requests
  permission_requests e = elim (context_requests (get_field e.extras "approval_context")) [
    | none ↦ none
    | some stored ↦ stored_requests stored
  ]

  unfoldable pub required_pairs : ToolExecution → Option (List ResourcePermission)
  required_pairs e = elim (permission_requests e) [
    | none ↦ none
    | some requests ↦ some (pairs_of (implicit e) requests)
  ]

  module _ (fnmatchcase : String → String → Bool) where
    unfoldable pub decide : Strategy → ToolExecution → ℕ → Option ApprovalDecision
    decide s e ts = elim (required_pairs e) [
      | none ↦ none
      | some pairs ↦ elim (aggregate (map (resolve_pair fnmatchcase s e) pairs)) [
        | none ↦ none
        | some resolved ↦ some (approval ts resolved)
      ]
    ]

    unfoldable pub pending_requests : Strategy → ToolExecution → Option (List PermissionRequest)
    pending_requests s e = elim (permission_requests e) [
      | none ↦ none
      | some requests ↦ some (narrow_all fnmatchcase s e requests)
    ]
