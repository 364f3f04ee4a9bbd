-- ===== src/Models/Status/Termination.antt =====
-- `get_conversation_status` (agent/core/models.py) ends on a session whose subagent links go down,
-- and more fuel never changes its answer.
use mathlib.Core.Option.{some-injective}
use luca_py.Base.{
  sym, ap, ◌∙◌, ℕ, zero, suc, ◌+◌, ◌<◌, ◌≤◌, String, ◌≡◌, refl, Bool, true, false, Option, some,
  List, [], ◌∷◌, arith, Option-cases, Bool-cases, inl, inr, All, is_some,
}
use luca_py.Base.Dict.{Dict, get}
use luca_py.Models.Entries.{ChildConversation}
use luca_py.Models.Path.{
  open_turn_index, open_turn_cancel_requested, open_turn_unresolved_children,
  open_turn_has_advanceable_executions, conversational_turn_count, open_turn_step_count,
}
use luca_py.Models.Session.{AgentSession, Conversation}
use luca_py.Models.Status.{
  closed_status, parent_waits, ConversationStatus, ConversationRuntimeStatus, any_child_advances,
  open_status, derive_step, derive_status, get_conversation_status, lets_parent_advance,
}

-- Every unresolved child of an open turn has a lower rank than the conversation that spawned it.
pub record IsRanked (session : AgentSession) (rank : String → ℕ) : Type 0 where
  pub below :
      (id : String) (c : Conversation)
      → get session.conversations id ≡ some c
      → All
          (λ child. rank child.conversation_id < rank id)
          (open_turn_unresolved_children c.nodes session.entries)

abbrev Derives :
    (List String → Option ConversationStatus) → Dict Conversation → ChildConversation → Type 0
Derives derive conversations child =
    (c : Conversation)
    → get conversations child.conversation_id ≡ some c
    → (s : ConversationStatus) × (derive c.nodes ≡ some s)

module _ (derive : List String → Option ConversationStatus) (session : AgentSession) where
  any_child_total :
      (children : List ChildConversation)
      → All (Derives derive session.conversations) children
      → (b : Bool) × (any_child_advances derive session.conversations children ≡ some b)
  unfolding any_child_advances
  any_child_total [] h = (false, refl)
  any_child_total (child ∷ rest) h =
      let (b, e) = any_child_total rest h.1 in
      elim (Option-cases (get session.conversations child.conversation_id)) [
        | inl missing ↦ (b, ground arith)
        | inr (c, found) ↦
            let (s, d) = h.0 c found in
            elim (Bool-cases (lets_parent_advance s)) [
              | inl y ↦ (true, ground arith)
              | inr n ↦ (b, ground arith)
            ]
      ]

  open_status_total :
      (nodes : List String) (children : List ChildConversation)
      → All (Derives derive session.conversations) children
      → (s : ConversationStatus) × (open_status derive session nodes children ≡ some s)
  unfolding open_status
  open_status_total nodes [] h = (_, refl)
  open_status_total nodes (child ∷ rest) h =
      let (b, e) = any_child_total (child ∷ rest) h in
      elim (Bool-cases (open_turn_has_advanceable_executions nodes session.entries)) [
        | inl y ↦ (ConversationStatus.busy, ground arith)
        | inr n ↦ elim (Bool-cases b) [
          | inl y ↦ (ConversationStatus.busy, ground arith)
          | inr w ↦ (parent_waits session nodes, ground arith)
        ]
      ]

  derive_step_total :
      (nodes : List String)
      → All
          (Derives derive session.conversations)
          (open_turn_unresolved_children nodes session.entries)
      → (s : ConversationStatus) × (derive_step derive session nodes ≡ some s)
  unfolding derive_step
  derive_step_total nodes h =
      let (s, e) = open_status_total nodes _ h in
      elim (Option-cases (open_turn_index nodes session.entries)) [
        | inl closed ↦ (closed_status session.entries nodes, rw (closed, derive_step))
        | inr (i, opened) ↦
            elim (Bool-cases (is_some (open_turn_cancel_requested nodes session.entries))) [
              | inl y ↦ (ConversationStatus.cancelling, ground arith)
              | inr n ↦ (s, ground arith)
            ]
      ]

module _ (session : AgentSession) (rank : String → ℕ) (ranked : IsRanked session rank) where
  children_derive :
      (derive : List String → Option ConversationStatus) (bound : ℕ)
      → ((id : String) (c : Conversation)
          → rank id < bound
          → get session.conversations id ≡ some c
          → (s : ConversationStatus) × (derive c.nodes ≡ some s))
      → (children : List ChildConversation)
      → All (λ child. rank child.conversation_id < bound) children
      → All (Derives derive session.conversations) children
  children_derive derive bound h [] low = tt
  children_derive derive bound h (child ∷ rest) low = (
    (λ c found. h child.conversation_id c low.0 found),
    children_derive derive bound h rest low.1,
  )

  All-trans :
      (a b : ℕ) (children : List ChildConversation)
      → a ≤ b
      → All (λ child. rank child.conversation_id < a) children
      → All (λ child. rank child.conversation_id < b) children
  All-trans a b [] le h = tt
  All-trans a b (child ∷ rest) le h = (omega (arith, h.0), All-trans a b rest le h.1)

  pub derive_status_total :
      (fuel : ℕ) (id : String) (c : Conversation)
      → rank id < fuel
      → get session.conversations id ≡ some c
      → (s : ConversationStatus) × (derive_status fuel session c.nodes ≡ some s)
  unfolding derive_status
  derive_status_total zero id c low found = absurd (omega arith)
  derive_status_total (suc fuel) id c low found =
      derive_step_total (λ child. derive_status fuel session child) session c.nodes
        (children_derive (λ child. derive_status fuel session child) fuel
          (λ i d. derive_status_total fuel i d)
          (open_turn_unresolved_children c.nodes session.entries)
          (All-trans (rank id) fuel _ (omega arith) (ranked.below id c found)))

  -- Where every unresolved child ranks below its parent, a conversation of the session has a status
  -- as soon as the fuel passes its rank.
  pub get_conversation_status_total :
      (fuel : ℕ) (id : String) (c : Conversation)
      → rank id < fuel
      → get session.conversations id ≡ some c
      → (s : ConversationRuntimeStatus) × (get_conversation_status fuel session id ≡ some (some s))
  unfolding get_conversation_status
  get_conversation_status_total fuel id c low found =
      let (s, e) = derive_status_total fuel id c low found in
      (
        record {
          status = s;
          turn_count = conversational_turn_count c.nodes session.entries;
          step_count = open_turn_step_count c.nodes session.entries;
        },
        ground arith,
      )

-- `derive'` answers all that `derive` answers, the same way.
abbrev Extends :
    (List String → Option ConversationStatus) → (List String → Option ConversationStatus) → Type 0
Extends derive derive' =
    (nodes : List String) (s : ConversationStatus) → derive nodes ≡ some s → derive' nodes ≡ some s

module _ (derive derive' : List String → Option ConversationStatus) (ext : Extends derive derive')
    (session : AgentSession) where
  any_child_mono :
      (children : List ChildConversation) (b : Bool)
      → any_child_advances derive session.conversations children ≡ some b
      → any_child_advances derive' session.conversations children ≡ some b
  unfolding any_child_advances
  any_child_mono [] b h = h
  any_child_mono (child ∷ rest) b h =
      elim (Option-cases (get session.conversations child.conversation_id)) [
        | inl missing ↦ ground (arith, any_child_mono rest b)
        | inr (c, found) ↦ elim (Option-cases (derive c.nodes)) [
          | inl out ↦ absurd (ground arith)
          | inr (s, d) ↦ ground (arith, ext c.nodes s d, any_child_mono rest b)
        ]
      ]

  open_status_mono :
      (nodes : List String) (children : List ChildConversation) (s : ConversationStatus)
      → open_status derive session nodes children ≡ some s
      → open_status derive' session nodes children ≡ some s
  unfolding open_status
  open_status_mono nodes [] s h = h
  open_status_mono nodes (child ∷ rest) s h =
      elim (Option-cases (any_child_advances derive session.conversations (child ∷ rest))) [
        | inl out ↦ ground arith
        | inr (b, e) ↦ ground (arith, any_child_mono (child ∷ rest) b e)
      ]

  derive_step_mono :
      (nodes : List String) (s : ConversationStatus)
      → derive_step derive session nodes ≡ some s
      → derive_step derive' session nodes ≡ some s
  unfolding derive_step
  derive_step_mono nodes s h =
      ground (arith, open_status_mono nodes (open_turn_unresolved_children nodes session.entries) s)

derive_status-suc :
    (session : AgentSession) (fuel : ℕ) (nodes : List String) (s : ConversationStatus)
    → derive_status fuel session nodes ≡ some s
    → derive_status (suc fuel) session nodes ≡ some s
unfolding derive_status
derive_status-suc session zero nodes s h = absurd (ground arith)
derive_status-suc session (suc fuel) nodes s h =
    derive_step_mono (λ child. derive_status fuel session child)
      (λ child. derive_status (suc fuel) session child) (derive_status-suc session fuel) session
      nodes s h

-- More fuel keeps a status that has been found.
derive_status_mono :
    (session : AgentSession) (more fuel : ℕ) (nodes : List String) (s : ConversationStatus)
    → derive_status fuel session nodes ≡ some s
    → derive_status (more + fuel) session nodes ≡ some s
derive_status_mono session zero fuel nodes s h = let e : zero + fuel ≡ fuel = omega arith in rw e h
derive_status_mono session (suc more) fuel nodes s h =
    let e : suc more + fuel ≡ suc (more + fuel) = omega arith in
    rw e (
      derive_status-suc session (more + fuel) nodes s
        (derive_status_mono session more fuel nodes s h))

derive_status_agrees :
    (session : AgentSession) (f g : ℕ) (nodes : List String) (s t : ConversationStatus)
    → derive_status f session nodes ≡ some s
    → derive_status g session nodes ≡ some t
    → s ≡ t
derive_status_agrees session f g nodes s t h k =
    let swap : g + f ≡ f + g = omega arith in
    let left = derive_status_mono session g f nodes s h in
    let right = derive_status_mono session f g nodes t k in
    some-injective _ _ (sym left ∙ (ap (λ n. derive_status n session nodes) swap ∙ right))

-- Two fuels that find a status find the same.
pub get_conversation_status_agrees :
    (session : AgentSession) (f g : ℕ) (id : String) (s t : ConversationRuntimeStatus)
    → get_conversation_status f session id ≡ some (some s)
    → get_conversation_status g session id ≡ some (some t)
    → s ≡ t
unfolding get_conversation_status
get_conversation_status_agrees session f g id s t h k =
    elim (Option-cases (get session.conversations id)) [
      | inl missing ↦ absurd (ground (arith, h))
      | inr (c, found) ↦ elim (Option-cases (derive_status f session c.nodes)) [
        | inl out ↦ absurd (ground (arith, h, found))
        | inr (a, left) ↦ elim (Option-cases (derive_status g session c.nodes)) [
          | inl out ↦ absurd (ground (arith, k, found))
          | inr (b, right) ↦
              let same = derive_status_agrees session f g c.nodes a b left right in
              ground (arith, h, k, found, same)
        ]
      ]
    ]
