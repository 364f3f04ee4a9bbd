-- ===== src/Compaction/Commit/Landing.antt =====
-- A `_commit` of agent/core/runner.py that returns.
use mathlib.Core.Option.{some-injective}
use luca_py.Base.{
  String, ◌≡◌, refl, sym, ap, ◌∙◌, ◌⊎◌, inl, inr, not, Option, none, some, List, [], ◌∷◌, ◌++◌,
  arith, subst, Option-cases,
}
use luca_py.Base.Dict.{get}
use luca_py.Models.Tools.{ToolSpec}
use luca_py.Models.Entries.{Entry, CompactionEntry}
use luca_py.Models.Path
use luca_py.Models.Session.{AgentSession, Conversation}
use luca_py.Ledger.{ok, Ledger, now, ticked, conversation}
use luca_py.Ledger.Reads.{reading, open_turn_index}
use luca_py.Ledger.Invariant.Contents.{StoredAs-finish}
use luca_py.Compaction.Step.Closing.{IsShut, KeepsFinish, closed_by_finish}
use luca_py.Compaction.{
  CompactionPlan, ConversationSnapshot, PlanError, validate_plan, is_member, check_snapshot,
}
use luca_py.Compaction.Members.{In, is_member-In}
use luca_py.Compaction.Plan.{carried_ids, check_snapshot_sound}
use luca_py.Compaction.Commit.Refusing.{lay_path_session}
use luca_py.Compaction.Commit.{
  CommitError, Committed, commit_completed, commit_at, commit, before, compacted_of, filled_entry,
}
use luca_py.Compaction.Commit.Laying.{In-filter, lay_path-Lays}
use luca_py.Compaction.Commit.Installing.{Installs, Behind, Keeps, close_path-Installs}

module _ (digest : ToolSpec → String) (strip : String → String)
    (complete : AgentSession → String → Entry → String ⊎ Entry) where
  module _ (cid : String) (entry : CompactionEntry) (plan : CompactionPlan)
      (snapshot : ConversationSnapshot) (l : Ledger) (c : Conversation)
      (found : get l.session.conversations cid ≡ some c) where
    abbrev pub compacted : List String
    compacted = compacted_of plan (Path.open_turn_index c.nodes l.session.entries) snapshot

    abbrev pub filled : Entry
    filled = Entry.compaction (filled_entry plan compacted (now l) entry)

    bracket_of : open_turn_index l.session cid ≡ ok (Path.open_turn_index c.nodes l.session.entries)
    unfolding open_turn_index conversation
    bracket_of = rw (found, reading, conversation) refl

    same_nodes :
        validate_plan strip plan entry.id l.session l.session.main_conversation_id snapshot ≡ none
        → cid ≡ l.session.main_conversation_id
        → snapshot.nodes ≡ c.nodes
    unfolding validate_plan
    same_nodes passed main =
        elim (Option-cases (check_snapshot l.session l.session.main_conversation_id snapshot)) [
          | inr (e, refused) ↦ absurd (ground (arith, passed))
          | inl current ↦
              let (c', found', named, still) = check_snapshot_sound _ _ _ current in
              let alike : c' ≡ c =
                some-injective _ _
                  (sym found' ∙ (ap (get l.session.conversations) (sym main) ∙ found)) in
              still ∙ ap (λ (x : Conversation). x.nodes) alike
        ]

    commit_runs :
        validate_plan strip plan entry.id l.session l.session.main_conversation_id snapshot ≡ none
        → commit digest strip complete cid entry plan snapshot l
          ≡ commit_completed digest strip complete cid plan
              (now l)
              (complete l.session cid filled)
              (ticked l)
    unfolding commit
    commit_runs h =
        rw (h, commit)
          (ap (λ b. commit_at digest strip complete cid entry plan snapshot (now l) b (ticked l))
            bracket_of)

    -- A node in front of the bracket is carried over or compacted.
    split_path :
        (n : String)
        → In n (before (Path.open_turn_index c.nodes l.session.entries) snapshot.nodes)
        → In n (carried_ids plan.nodes) ⊎ In n compacted
    unfolding compacted_of
    split_path n h = elim (In-filter (λ k. not (is_member k (carried_ids plan.nodes))) n _ h) [
      | inl m ↦ inr m
      | inr out ↦ inl (is_member-In n (carried_ids plan.nodes) (ground (arith, out)))
    ]

    abbrev Passes : Type 0
    Passes =
        validate_plan strip plan entry.id l.session l.session.main_conversation_id snapshot ≡ none

    -- What is known of a commit that returns.
    abbrev Returned : Committed → Type 0
    Returned (inl e, l') = Unit {0}
    Returned (inr (successor, final, entries), l') =
        Passes
        × (complete l.session cid filled ≡ inr final)
        × Installs digest strip complete cid l.session plan final
            (inr (successor, final, entries), l')

    Installs-Returned :
        (final : Entry) (p : Committed)
        → Passes
        → complete l.session cid filled ≡ inr final
        → Installs digest strip complete cid l.session plan final p
        → Returned p
    Installs-Returned final (inl e, l') passed h k = tt
    Installs-Returned final (inr (successor, final', entries), l') passed h k =
        let same = k.3 in
        (
          passed,
          h ∙ ap inr (sym same),
          subst
              (λ f.
                Installs digest strip complete cid l.session plan f
                  (inr (successor, final', entries), l'))
              (sym same) k,
        )

    commit_completed-Returned :
        (out : String ⊎ Entry)
        → Passes
        → complete l.session cid filled ≡ out
        → Returned (commit_completed digest strip complete cid plan (now l) out (ticked l))
    commit_completed-Returned (inl text) passed h = tt
    commit_completed-Returned (inr final) passed h = Installs-Returned final _ passed h (
        close_path-Installs digest strip complete cid l.session plan final (now l) _
          (lay_path_session digest strip complete cid (now l) none plan.nodes (ticked l))
          (lay_path-Lays digest strip complete cid (now l) none plan.nodes (ticked l)))

    commit-Returned :
        (out : Option PlanError)
        → validate_plan strip plan entry.id l.session l.session.main_conversation_id snapshot ≡ out
        → Returned (commit digest strip complete cid entry plan snapshot l)
    unfolding commit
    commit-Returned (some e) h = rw (h, commit) tt
    commit-Returned none h = rw (commit_runs h) (commit_completed-Returned _ h refl)

    -- What a commit that returns `successor` and `final` has made of the session.
    abbrev pub Landed : Conversation → Entry → AgentSession → Type 0
    Landed successor final s' =
        (complete l.session cid filled ≡ inr final)
        × (s'.main_conversation_id ≡ successor.id)
        × (get s'.conversations successor.id ≡ some successor)
        × (successor.previous_conversation_id ≡ some c.id)
        × ((archived : Conversation) × (id : String) × (get s'.conversations cid ≡ some archived)
            × (archived.nodes ≡ c.nodes ++ id ∷ []))
        × Keeps digest strip complete final l.session s'
        × ((n : String)
            → In n (before (Path.open_turn_index c.nodes l.session.entries) c.nodes)
            → In n successor.nodes ⊎ In n compacted)

    -- A compaction that is committed on a conversation that is there: the successor is the main
    -- conversation and names the old one as its predecessor; the old one keeps its whole path, with
    -- one marker behind it; each stored entry is what it was, but for the one with the id of the
    -- compaction entry that the hooks return, and that id holds this entry (the inline spec of an
    -- execution aside); and each node in front of the compaction's bracket is on the new path, or is
    -- among the nodes that the compaction entry is filled in with, before the hooks see it.
    pub commit_loses_nothing :
        (successor : Conversation) (final : Entry) (entries : List Entry) (l' : Ledger)
        → commit digest strip complete cid entry plan snapshot l
          ≡ (inr (successor, final, entries), l')
        → Landed successor final l'.session
    commit_loses_nothing successor final entries l' h =
        let (passed, hooked, installed) = subst Returned h (commit-Returned _ refl) in
        let (outgoing, here, main, same, previous, moved, stands, old, kept, carries) = installed in
        let alike : outgoing ≡ c = some-injective _ _ (sym here ∙ found) in
        let (archived, closing, at, hook_made, (id, named, path, stored)) = old in
        (
          hooked,
          moved,
          stands,
          previous ∙ ap (λ (o : Conversation). some o.id) alike,
          (archived, id, at, path ∙ ap (λ (o : Conversation). o.nodes ++ id ∷ []) alike),
          kept,
          λ n m.
              let bracket = Path.open_turn_index c.nodes l.session.entries in
              elim (split_path n
                (subst (λ ns. In n (before bracket ns)) (sym (same_nodes passed main)) m)) [
                  | inl k ↦ inl (carries n k)
                  | inr k ↦ inr k
                ],
        )

  -- A commit that returns has moved the main pointer to the successor, and the conversation under the
  -- old name has no open turn.
  abbrev pub Moves : String → Committed → Type 0
  Moves cid (inl e, l) = Unit {0}
  Moves cid (inr (successor, final, entries), l) =
      (l.session.main_conversation_id ≡ successor.id) × IsShut cid l

  Behind-IsShut :
      (cid : String) (outgoing : Conversation) (l : Ledger)
      → KeepsFinish complete
      → Behind digest strip complete cid outgoing l.session
      → IsShut cid l
  unfolding open_turn_index conversation
  Behind-IsShut cid outgoing l keeps (archived, closing, at, (s, built, finish, hooked), closed) =
      let (id, named, path, (stored, there, as_given)) = closed in
      rw (at, reading, conversation)
        (ap ok (
          ap (λ nodes. Path.open_turn_index nodes l.session.entries) path
          ∙ closed_by_finish outgoing.nodes id l.session.entries (
              rw there (
                StoredAs-finish digest closing stored as_given
                ∙ keeps s cid built closing hooked finish))))

  module _ (cid : String) (entry : CompactionEntry) (plan : CompactionPlan)
      (snapshot : ConversationSnapshot) (l : Ledger) (keeps : KeepsFinish complete) where
    Returned-Moves :
        (c : Conversation) (found : get l.session.conversations cid ≡ some c) (p : Committed)
        → Returned cid entry plan snapshot l c found p
        → Moves cid p
    Returned-Moves c found (inl e, l') h = tt
    Returned-Moves c found (inr (successor, final, entries), l') (passed, hooked, installed) =
        let (outgoing, here, main, same, previous, moved, stands, old, kept, carries) = installed in
        (moved, Behind-IsShut cid outgoing l' keeps old)

    absent-Moves :
        (out : Option PlanError)
        → get l.session.conversations cid ≡ none
        → Moves cid (elim out [
          | some e ↦ (inl (CommitError.rejected e), l)
          | none ↦
              commit_at digest strip complete cid entry plan snapshot
                (now l)
                (open_turn_index l.session cid)
                (ticked l)
        ])
    unfolding open_turn_index conversation
    absent-Moves (some e) missing = tt
    absent-Moves none missing = rw (missing, reading, conversation) tt

    pub commit-Moves : Moves cid (commit digest strip complete cid entry plan snapshot l)
    unfolding commit
    commit-Moves = elim (Option-cases (get l.session.conversations cid)) [
      | inl missing ↦
          absent-Moves
            (validate_plan strip plan entry.id l.session l.session.main_conversation_id snapshot)
            missing
      | inr (c, found) ↦
          Returned-Moves c found _ (commit-Returned cid entry plan snapshot l c found _ refl)
    ]
