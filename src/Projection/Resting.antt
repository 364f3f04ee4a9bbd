-- ===== src/Projection/Resting.antt =====
-- The executions on a path that agent/core/projection.py projects.
use luca_py.Base.{
  ℕ, suc, String, ◌≡◌, subst, ◌⊎◌, inl, inr, Bool, true, false, ◌&&◌, ◌||◌, Option, none, some,
  List, [], ◌∷◌, if◌then◌else◌, All, arith, Bool-cases,
}
use luca_py.Base.Dict.{Dict, get}
use luca_py.Models.Tools.{is_nonterminal, is_pending, is_awaiting_result, is_deferred}
use luca_py.Models.Entries.{Entry, ToolExecution, ChildConversation, is_turn_start}
use luca_py.Models.Path.{open_turn_index, is_compaction_bracket}
use luca_py.Projection.{Message, ProjectionError, Texts}
use luca_py.Projection.Entries.{
  Projected, is_private, project_tool_execution, some_message, execution_message, project_entry,
}
use luca_py.Projection.Walk.{link_of, consed, execution_at, project_node, project_from, project}

-- Waiting for an approval, or for a deferred result: only the application can move it.
abbrev pub is_gated : ToolExecution → Bool
is_gated e = is_pending e.status && is_deferred e.approval_status

abbrev pub AtRest : ToolExecution → Type 0
AtRest e = (is_nonterminal e.status ≡ false) ⊎ ((is_gated e || is_awaiting_result e.status) ≡ true)

abbrev pub Rests : Dict Entry → Option Entry → Type 0
Rests entries (some (Entry.tool_execution e)) =
    is_private e.tool_spec ≡ false → link_of entries e.id ≡ none → AtRest e
Rests entries _ = Unit {0}

abbrev Unless {ℓ} : {A : Type ℓ} → ProjectionError ⊎ A → Type 0 → Type 0
Unless (inl e) P = Unit {0}
Unless (inr a) P = P

always {ℓ} : {A : Type ℓ} (out : ProjectionError ⊎ A) {P : Type 0} → P → Unless out P
always (inl e) p = tt
always (inr a) p = p

Unless-map {ℓ} :
    {A : Type ℓ} (P Q : Type 0) (out : ProjectionError ⊎ A) → Unless out P → (P → Q) → Unless out Q
Unless-map P Q (inl e) h f = tt
Unless-map P Q (inr a) h f = f h

module _ (texts : Texts) where
  tool_execution-AtRest : (e : ToolExecution) → Unless (project_tool_execution texts e) (AtRest e)
  unfolding project_tool_execution
  tool_execution-AtRest e = elim (Bool-cases (is_gated e)) [
    | inl h ↦ always (project_tool_execution texts e) (inr (ground (arith, h)))
    | inr h ↦ elim (Bool-cases (is_awaiting_result e.status)) [
      | inl k ↦ always (project_tool_execution texts e) (inr (ground (arith, h, k)))
      | inr k ↦ elim (Bool-cases (is_nonterminal e.status)) [
        | inl n ↦ rw (h, k, n) tt
        | inr n ↦ always (project_tool_execution texts e) (inl n)
      ]
    ]
  ]

  some_message-Unless :
      (P : Type 0) (out : ProjectionError ⊎ Message) → Unless out P → Unless (some_message out) P
  some_message-Unless P (inl e) h = tt
  some_message-Unless P (inr m) h = h

  module _ (entries : Dict Entry) where
    node-Rests :
        (open_turn : Option ℕ) (index : ℕ) (entry : Entry)
        → Unless (project_node texts entries open_turn index entry) (Rests entries (some entry))
    unfolding project_node project_entry
    node-Rests open_turn index (Entry.tool_execution e) =
        linked (link_of entries e.id) (λ h. h) (is_private e.tool_spec) (λ h. h)
      where
        linked :
            (link : Option ChildConversation)
            → (link_of entries e.id ≡ none → link ≡ none)
            → (private : Bool) → (is_private e.tool_spec ≡ false → private ≡ false)
            → Unless
                (elim link [
                  | some l ↦ execution_at texts e entries (some l)
                  | none ↦ execution_message texts private e
                ])
                (Rests entries (some (Entry.tool_execution e)))
        linked (some l) f private g =
            always (execution_at texts e entries (some l))
              (λ p none_linked. absurd (ground (arith, f none_linked)))
        linked none f true g = λ p none_linked. absurd (ground (arith, g p))
        linked none f false g = some_message-Unless _ (project_tool_execution texts e) (
            Unless-map (AtRest e) _ (project_tool_execution texts e) (tool_execution-AtRest e)
              (λ h p none_linked. h))
    node-Rests open_turn index entry = always (project_node texts entries open_turn index entry) tt

    consed-Unless :
        (P Q : Type 0) (out : Projected) (rest : ProjectionError ⊎ List Message)
        → Unless out P
        → Unless rest Q
        → Unless (consed out rest) (P × Q)
    consed-Unless P Q (inl e) rest h k = tt
    consed-Unless P Q (inr none) rest h k = Unless-map Q (P × Q) rest k (λ q. (h, q))
    consed-Unless P Q (inr (some m)) (inl e) h k = tt
    consed-Unless P Q (inr (some m)) (inr ms) h k = (h, k)

    module _ (nodes : List String) (open_turn : Option ℕ)
        (plain : (index : ℕ) → is_compaction_bracket nodes entries index ≡ false) where
      abbrev AllRest : List String → Type 0
      AllRest ids = All (λ id. Rests entries (get entries id)) ids

      abbrev Onward : ℕ → List String → ProjectionError ⊎ List Message
      Onward index rest = project_from texts nodes entries open_turn index false rest

      from-AllRest : (index : ℕ) (ids : List String) → Unless (Onward index ids) (AllRest ids)
      unfolding project_from
      from-AllRest index [] = tt
      from-AllRest index (id ∷ rest) = found (get entries id) (from-AllRest (suc index) rest)
        where
          found :
              (o : Option Entry)
              → Unless (Onward (suc index) rest) (AllRest rest)
              → Unless
                  (elim o [
                    | none ↦ inl ProjectionError.missing_node
                    | some entry ↦
                        if is_turn_start (some entry) && is_compaction_bracket nodes entries index
                        then project_from texts nodes entries open_turn (suc index) true rest
                        else consed
                            (project_node texts entries open_turn index entry)
                            (Onward (suc index) rest)
                  ])
                  (Rests entries o × AllRest rest)
          found none h = tt
          found (some entry) h =
              let stays : (is_turn_start (some entry) && is_compaction_bracket nodes entries index)
                  ≡ false =
                ground (arith, plain index) in
              rw stays (
                consed-Unless (Rests entries (some entry)) (AllRest rest)
                  (project_node texts entries open_turn index entry) (Onward (suc index) rest)
                  (node-Rests open_turn index entry) h)

    -- Where a path without compaction brackets is projected, every execution on it whose tool is not
    -- private and that is not the result of a subagent is finished, waits for an approval or waits for
    -- a deferred result. A private execution, and one that a link names as its result, may be in any
    -- state.
    pub project-Rests :
        (nodes : List String) (messages : List Message)
        → ((index : ℕ) → is_compaction_bracket nodes entries index ≡ false)
        → project texts nodes entries ≡ inr messages
        → All (λ id. Rests entries (get entries id)) nodes
    unfolding project
    project-Rests nodes messages plain h =
        subst
          (λ (out : ProjectionError ⊎ List Message).
            Unless out (AllRest nodes (open_turn_index nodes entries) plain nodes))
          h (from-AllRest nodes (open_turn_index nodes entries) plain 0 nodes)
