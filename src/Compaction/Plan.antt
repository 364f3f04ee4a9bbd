-- ===== src/Compaction/Plan.antt =====
-- The checks of agent/core/compaction.py, against a description of the plans that they let pass.
use text.Mathlib.Text.{◌==◌}
use mathlib.Core.List.{append-nil, append_assoc}
use text.Mathlib.TextEquality.{eq_iff}
use luca_py.Base.{
  String, ◌≡◌, ◌↔◌, refl, sym, ap, ◌∙◌, subst, ◌⊎◌, inl, inr, true, none, some, List, [], ◌∷◌, ◌++◌,
  All, Bool-cases, Option-cases, arith,
}
use luca_py.Base.Dict.{Dict, get, contains}
use luca_py.Models.Entries.{Entry}
use luca_py.Models.Session.{AgentSession, Conversation}
use luca_py.Compaction.{
  PlanNode, carried, created, CompactionPlan, ConversationSnapshot, PlanError, is_member, same_path,
  check_snapshot, check_nodes, has_content, check_rest, check_plan, validate_plan,
}
use luca_py.Compaction.Members.{
  In, is_member-In, In-is_member, not_member, In-append, In-append_left, In-append_right,
  same_path-eq, same_path_refl, All-In, In-All,
}

abbrev pub Distinct : List String → Type 0
Distinct [] = Unit {0}
Distinct (x ∷ xs) = ¬ (In x xs) × Distinct xs

-- The ids that a plan carries over, in order.
abbrev pub carried_ids : List PlanNode → List String
carried_ids [] = []
carried_ids (carried id ∷ rest) = id ∷ carried_ids rest
carried_ids (created entry ∷ rest) = carried_ids rest

-- What the loop asks of the ids that are still in front, where `seen` have been carried.
abbrev Fits : Dict Entry → List String → List String → List String → Type 0
Fits entries offered seen [] = Unit {0}
Fits entries offered seen (id ∷ ids) =
    (contains entries id ≡ true)
    × In id offered
    × ¬ (In id seen)
    × Fits entries offered (seen ++ id ∷ []) ids

check_nodes_sound :
    (entries : Dict Entry) (offered seen : List String) (nodes : List PlanNode) (ids : List String)
    → check_nodes entries offered seen nodes ≡ inr ids
    → (ids ≡ seen ++ carried_ids nodes) × Fits entries offered seen (carried_ids nodes)
unfolding check_nodes
check_nodes_sound entries offered seen [] ids h = (cc (append-nil seen), tt)
check_nodes_sound entries offered seen (created entry ∷ rest) ids h =
    check_nodes_sound entries offered seen rest ids h
check_nodes_sound entries offered seen (carried node ∷ rest) ids h =
    elim (Bool-cases (contains entries node)) [
      | inr absent ↦ absurd (ground (arith, h))
      | inl there ↦ elim (Bool-cases (is_member node offered)) [
        | inr off ↦ absurd (ground (arith, h))
        | inl on ↦ elim (Bool-cases (is_member node seen)) [
          | inl twice ↦ absurd (ground (arith, h))
          | inr once ↦
              let (e, fits) =
                check_nodes_sound entries offered (seen ++ node ∷ []) rest ids
                  (ground (arith, h)) in
              (
                e ∙ append_assoc seen (node ∷ []) (carried_ids rest),
                (
                  there,
                  is_member-In node offered on,
                  (λ m. absurd (ground (arith, In-is_member node seen m))),
                  fits,
                ),
              )
        ]
      ]
    ]

check_nodes_complete :
    (entries : Dict Entry) (offered seen : List String) (nodes : List PlanNode)
    → Fits entries offered seen (carried_ids nodes)
    → check_nodes entries offered seen nodes ≡ inr (seen ++ carried_ids nodes)
unfolding check_nodes
check_nodes_complete entries offered seen [] h = ap inr (sym (append-nil seen))
check_nodes_complete entries offered seen (created entry ∷ rest) h =
    check_nodes_complete entries offered seen rest h
check_nodes_complete entries offered seen (carried node ∷ rest) (there, on, once, fits) =
    rw (there, In-is_member node offered on, not_member node seen once)
      (check_nodes_complete entries offered (seen ++ node ∷ []) rest fits
        ∙ ap inr (append_assoc seen (node ∷ []) (carried_ids rest)))

Fits-parts :
    (entries : Dict Entry) (offered seen ids : List String)
    → Fits entries offered seen ids
    → All (λ id. (contains entries id ≡ true) × In id offered) ids
      × Distinct ids
      × All (λ id. ¬ (In id seen)) ids
Fits-parts entries offered seen [] h = (tt, tt, tt)
Fits-parts entries offered seen (id ∷ ids) (there, on, once, fits) =
    let (known, distinct, fresh) = Fits-parts entries offered (seen ++ id ∷ []) ids fits in
    (
      ((there, on), known),
      ((λ m. All-In _ ids id fresh m (In-append_right id seen (id ∷ []) (inl refl))), distinct),
      (once, In-All _ ids (λ k m n. All-In _ ids k fresh m (In-append_left k seen (id ∷ []) n))),
    )

Fits-whole :
    (entries : Dict Entry) (offered seen ids : List String)
    → All (λ id. (contains entries id ≡ true) × In id offered) ids
    → Distinct ids
    → All (λ id. ¬ (In id seen)) ids
    → Fits entries offered seen ids
Fits-whole entries offered seen [] known distinct fresh = tt
Fits-whole entries offered seen (id ∷ ids) known distinct fresh = (
  known.0.0,
  known.0.1,
  fresh.0,
  Fits-whole entries offered (seen ++ id ∷ []) ids known.1 distinct.1 (
      In-All _ ids λ k m n. elim (In-append k seen (id ∷ []) n) [
        | inl old ↦ All-In _ ids k fresh.1 m old
        | inr (inl e) ↦ distinct.0 (subst (λ x. In x ids) (sym e) m)
        | inr (inr x) ↦ absurd x
      ]),
)

-- The plans that may be committed: they were made for the path as it is, and carry over only stored
-- nodes that were offered, each once, the compaction's own entry among them, with some content.
pub record IsAcceptable (strip : String → String) (plan : CompactionPlan) (entry_id : String)
    (session : AgentSession) (conversation_id : String) (snapshot : ConversationSnapshot)
    : Type 0 where
  pub current :
      (c : Conversation) × (get session.conversations conversation_id ≡ some c)
      × (snapshot.id ≡ conversation_id)
      × (snapshot.nodes ≡ c.nodes)
  pub known :
      All
        (λ id. (contains session.entries id ≡ true) × In id snapshot.offered)
        (carried_ids plan.nodes)
  pub once : Distinct (carried_ids plan.nodes)
  pub kept : In entry_id (carried_ids plan.nodes)
  pub content : has_content strip plan.entry.parts ≡ true

module _ (session : AgentSession) (conversation_id : String) (snapshot : ConversationSnapshot) where
  abbrev IsCurrent : Type 0
  IsCurrent =
      (c : Conversation) × (get session.conversations conversation_id ≡ some c)
      × (snapshot.id ≡ conversation_id)
      × (snapshot.nodes ≡ c.nodes)

  pub check_snapshot_sound : check_snapshot session conversation_id snapshot ≡ none → IsCurrent
  unfolding check_snapshot
  check_snapshot_sound h = elim (Bool-cases (snapshot.id == conversation_id)) [
    | inr other ↦ absurd (ground (arith, h))
    | inl same ↦ elim (Option-cases (get session.conversations conversation_id)) [
      | inl missing ↦ absurd (ground (arith, h))
      | inr (c, found) ↦ elim (Bool-cases (same_path snapshot.nodes c.nodes)) [
        | inr moved ↦ absurd (ground (arith, h))
        | inl still ↦
            (c, found, (eq_iff snapshot.id conversation_id).0 same, same_path-eq _ _ still)
      ]
    ]
  ]

  check_snapshot_complete : IsCurrent → check_snapshot session conversation_id snapshot ≡ none
  unfolding check_snapshot
  check_snapshot_complete (c, found, same, still) =
      rw ((eq_iff snapshot.id conversation_id).1 same) (
        rw (found, check_snapshot)
          (rw
            (subst (λ ns. same_path snapshot.nodes ns ≡ true) still (same_path_refl snapshot.nodes))
            refl))

  module _ (strip : String → String) (plan : CompactionPlan) (entry_id : String) where
    check_rest_sound :
        (out : PlanError ⊎ List String)
        → check_rest strip plan (some entry_id) out ≡ none
        → (ids : List String) × (out ≡ inr ids)
          × In entry_id ids
          × (has_content strip plan.entry.parts ≡ true)
    check_rest_sound (inl e) h = absurd (ground (arith, h))
    check_rest_sound (inr ids) h = elim (Bool-cases (is_member entry_id ids)) [
      | inr off ↦ absurd (ground (arith, h))
      | inl on ↦ elim (Bool-cases (has_content strip plan.entry.parts)) [
        | inr empty ↦ absurd (ground (arith, h))
        | inl full ↦ (ids, refl, is_member-In entry_id ids on, full)
      ]
    ]

    plan_sound :
        (nodes : List PlanNode)
        → plan.nodes ≡ nodes
        → IsCurrent
        → check_plan strip plan (some entry_id) session.entries snapshot nodes ≡ none
        → IsAcceptable strip plan entry_id session conversation_id snapshot
    plan_sound [] e current h = absurd (ground (arith, h))
    plan_sound (node ∷ rest) e current h =
        let (ids, found, on, full) = check_rest_sound _ h in
        let (same, fits) =
          check_nodes_sound session.entries snapshot.offered [] (node ∷ rest) ids found in
        let (known, once, fresh) = Fits-parts session.entries snapshot.offered [] _ fits in
        record {
          current = current;
          known = rw e known;
          once = rw e once;
          kept = rw (e, ← same) on;
          content = full;
        }

    plan_complete :
        (nodes : List PlanNode)
        → plan.nodes ≡ nodes
        → IsAcceptable strip plan entry_id session conversation_id snapshot
        → check_plan strip plan (some entry_id) session.entries snapshot nodes ≡ none
    plan_complete [] e a = absurd (subst (λ ns. In entry_id (carried_ids ns)) e a.kept)
    plan_complete (node ∷ rest) e a =
        let ids = carried_ids (node ∷ rest) in
        let fits =
          Fits-whole session.entries snapshot.offered [] ids
            (subst
              (λ ns.
                All (λ id. (contains session.entries id ≡ true) × In id snapshot.offered)
                  (carried_ids ns))
              e a.known)
            (subst (λ ns. Distinct (carried_ids ns)) e a.once) (In-All _ ids (λ id m n. n)) in
        let on = In-is_member entry_id ids (subst (λ ns. In entry_id (carried_ids ns)) e a.kept) in
        rw (check_nodes_complete session.entries snapshot.offered [] (node ∷ rest) fits)
          (rw on (rw a.content refl))

    -- `validate_plan` lets a plan pass exactly when it was made for the path that the conversation
    -- still has, carries over only stored nodes that were offered, each at most once, the
    -- compaction's own entry among them, and has some content.
    pub validate_plan_iff :
        (validate_plan strip plan (some entry_id) session conversation_id snapshot ≡ none)
        ↔ IsAcceptable strip plan entry_id session conversation_id snapshot
    unfolding validate_plan
    validate_plan_iff = (
      λ h. elim (Option-cases (check_snapshot session conversation_id snapshot)) [
        | inr (e, refused) ↦ absurd (ground (arith, h))
        | inl current ↦
            plan_sound plan.nodes refl (check_snapshot_sound current)
              (rw (current, validate_plan) at h)
      ],
      λ a. rw (check_snapshot_complete a.current, validate_plan) (plan_complete plan.nodes refl a),
    )
