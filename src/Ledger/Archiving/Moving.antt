-- ===== src/Ledger/Archiving/Moving.antt =====
-- What `transition_conversation` (agent/core/ledger.py) does where it returns.
use text.Mathlib.Text.{◌==◌}
use text.Mathlib.TextEquality.{eq_iff}
use luca_py.Base.{
  String, ◌≡◌, refl, sym, ap, ◌∙◌, ◌⊎◌, inl, inr, true, false, Option, none, some, List, [], ◌∷◌,
  ◌++◌, arith, subst, if◌then◌else◌, Bool-cases, Option-cases,
}
use luca_py.Base.Dict.{get, contains}
use luca_py.Models.Tools.{ToolSpec}
use luca_py.Models.Entries.{Entry, entry_id}
use luca_py.Models.Session.{AgentSession, Conversation}
use luca_py.Ledger.{Result, ok, err, Ledger, next_id, conversation, write_conversation}
use luca_py.Ledger.Transition.{
  Transition, preconditions, check_updates, check_created, file_all, closing_list, closed_nodes,
  append_id, incoming, outgoing_after, commit, transition_conversation,
}
use luca_py.Ledger.Invariant.Contents.{StoredAs}
use luca_py.Ledger.Archiving.{all_filed, transition_runs, commit_conversations}
use luca_py.Ledger.Archiving.Batch.{Names}
use luca_py.Ledger.Archiving.Fates.{
  Fate, file_all-Fate, file_all-append, check_created_new, check_updates_stored, check_created_last,
  file_all_last,
}

-- Everything that a transition files.
abbrev pub given : Transition → List Entry
given t = t.updates ++ (t.created ++ closing_list t.closing)

-- The path of the archived conversation: the old one, with the closing entry behind it, which stands
-- in the store under its id.
abbrev pub Closed :
    (ToolSpec → String) → Option Entry → List String → List String → AgentSession → Type 0
Closed digest none old nodes s = nodes ≡ old
Closed digest (some entry) old nodes s =
    (id : String) × (entry_id entry ≡ some id)
    × (nodes ≡ old ++ id ∷ [])
    × ((stored : Entry) × (get s.entries id ≡ some stored) × StoredAs digest entry stored)

-- What a transition that installs `successor` has made of a session.
abbrev pub Moved :
    (ToolSpec → String) → String → Transition → AgentSession → Conversation → AgentSession → Type 0
Moved digest cid t s successor s' =
    (outgoing : Conversation) × (get s.conversations cid ≡ some outgoing)
    × (cid ≡ s.main_conversation_id)
    × (contains s.conversations successor.id ≡ false)
    × (successor.nodes ≡ t.nodes)
    × (successor.previous_conversation_id ≡ some outgoing.id)
    × (successor.depth ≡ outgoing.depth)
    × (s'.main_conversation_id ≡ successor.id)
    × ((archived : Conversation) × ((j : String)
          → get s'.conversations j ≡ (
              if successor.id == j
              then some successor
              else if cid == j
              then some archived
              else get s.conversations j))
        × Closed digest t.closing outgoing.nodes archived.nodes s')
    × ((n : String) → Fate digest n (given t) s s')
    × ((n : String) → Names n t.updates → contains s.entries n ≡ true)
    × ((n : String) → Names n (t.created ++ closing_list t.closing) → contains s.entries n ≡ false)

-- A transition that raises has a reason, and leaves the session as it was.
abbrev pub Transitioned :
    (ToolSpec → String) → String → Transition → Ledger → Result Conversation × Ledger → Type 0
Transitioned digest cid t l (err e, l') =
    (l'.session ≡ l.session)
    × ((get l.session.conversations cid ≡ none)
        ⊎ (preconditions l.session cid t ≡ some e)
        ⊎ (contains l.session.conversations (next_id l) ≡ true))
Transitioned digest cid t l (ok successor, l') =
    Moved digest cid t l.session successor l'.session × (successor.id ≡ next_id l)

Closed-entries :
    (digest : ToolSpec → String) (closing : Option Entry) (old nodes : List String)
    (s s' : AgentSession)
    → s'.entries ≡ s.entries
    → Closed digest closing old nodes s
    → Closed digest closing old nodes s'
Closed-entries digest none old nodes s s' e h = h
Closed-entries digest (some entry) old nodes s s' e (id, named, same, (stored, at, as_given)) =
    (id, named, same, (stored, ap (λ d. get d id) e ∙ at, as_given))

passed_checks :
    (session : AgentSession) (cid : String) (t : Transition)
    → preconditions session cid t ≡ none
    → (cid ≡ session.main_conversation_id)
      × (check_updates session.entries t.updates ≡ none)
      × (check_created session.entries [] (t.created ++ closing_list t.closing) ≡ none)
unfolding preconditions
passed_checks session cid t h = elim (Bool-cases (cid == session.main_conversation_id)) [
  | inr n ↦ absurd (ground (arith, h))
  | inl e ↦ elim (Option-cases (check_updates session.entries t.updates)) [
    | inr (x, bad) ↦ absurd (ground (arith, h, e))
    | inl fine ↦ ((eq_iff cid session.main_conversation_id).0 e, fine, ground (arith, h, e, fine))
  ]
]

module _ (digest : ToolSpec → String) (t : Transition) (s : AgentSession) where
  all_filed-given : all_filed digest t s ≡ file_all digest (given t) s
  all_filed-given =
      file_all-append digest t.created (closing_list t.closing) (file_all digest t.updates s)
      ∙ file_all-append digest t.updates (t.created ++ closing_list t.closing) s

  all_filed-Closed :
      (closing : Option Entry) (filed : AgentSession) (old : List String)
      → check_created s.entries [] (t.created ++ closing_list closing) ≡ none
      → Closed digest closing old
          (closed_nodes closing old)
          (file_all digest (closing_list closing) filed)
  all_filed-Closed none filed old h = refl
  all_filed-Closed (some entry) filed old h =
      let (id, named) = check_created_last s.entries [] t.created entry h in
      (id, named, rw (named, append_id) refl, file_all_last digest entry filed id named)

module _ (digest : ToolSpec → String) (cid : String) (t : Transition) (l : Ledger) where
  commit-Moved :
      (outgoing : Conversation)
      → get l.session.conversations cid ≡ some outgoing
      → preconditions l.session cid t ≡ none
      → contains l.session.conversations (next_id l) ≡ false
      → Moved digest cid t l.session
          (incoming (next_id l) t outgoing)
          (commit digest cid (next_id l) t outgoing l.session)
  unfolding commit write_conversation
  commit-Moved outgoing found checks free =
      let (main, known, new) = passed_checks l.session cid t checks in
      (
        outgoing,
        found,
        main,
        free,
        refl,
        refl,
        refl,
        refl,
        (
          outgoing_after t outgoing,
          λ j. commit_conversations digest t l.session cid (next_id l) j outgoing,
          Closed-entries digest t.closing outgoing.nodes (closed_nodes t.closing outgoing.nodes)
              (all_filed digest t l.session) _ refl
              (all_filed-Closed digest t l.session t.closing _ outgoing.nodes new),
        ),
        λ n.
            subst (λ x. Fate digest n (given t) l.session x)
              (sym (all_filed-given digest t l.session))
              (file_all-Fate digest n (given t) l.session),
        λ n named. check_updates_stored l.session.entries _ n known named,
        λ n named. check_created_new l.session.entries [] _ n new named,
      )

  -- `transition_conversation` raises and leaves the session as it was, which takes that the
  -- conversation is not there, a check fails or the new id is taken; or it returns a successor. Then
  -- the conversation was there and was the main one; the successor has a new id, the given path, the
  -- id of the old conversation as its predecessor, and its depth; the main pointer names it; the old
  -- conversation stays, over its path and the closing entry, if there is one; no other conversation
  -- changes; each id that the updates, the created entries and the closing one name holds one of them
  -- (the inline spec of an execution aside), and each other what it held; and the updates are of
  -- stored entries, while the created and closing ones had new ids.
  pub transition-Transitioned : Transitioned digest cid t l (transition_conversation digest cid t l)
  unfolding transition_conversation conversation
  transition-Transitioned = elim (Option-cases (get l.session.conversations cid)) [
    | inl h ↦ rw (h, transition_conversation, conversation) (refl, inl h)
    | inr (c, found) ↦ elim (Option-cases (preconditions l.session cid t)) [
      | inr (e, h) ↦
          rw (found, transition_conversation, conversation)
            (rw (h, transition_conversation) (refl, inr (inl h)))
      | inl checks ↦ elim (Bool-cases (contains l.session.conversations (next_id l))) [
        | inl taken ↦
            rw (found, transition_conversation, conversation)
              (rw (checks, transition_conversation) (rw taken (refl, inr (inr taken))))
        | inr free ↦
            rw (transition_runs digest cid t l c found checks free)
              (commit-Moved c found checks free, refl)
      ]
    ]
  ]
