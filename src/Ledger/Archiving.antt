-- ===== src/Ledger/Archiving.antt =====
-- `SessionLedger.transition_conversation` (agent/core/ledger.py): it is atomic, it moves the name of
-- the main conversation, and it keeps the invariant.
pub mod Batch
pub mod Fates
pub mod Moving
use text.Mathlib.Text.{◌==◌}
use luca_py.Base.{
  String, ◌≡◌, refl, ap, ◌∙◌, ◌⊎◌, inl, inr, true, false, Option, none, some, List, [], ◌∷◌, ◌++◌,
  arith, if◌then◌else◌, All, All-map, All-append, Bool-cases, Option-cases,
}
use luca_py.Base.Dict.{get, contains, get-put}
use luca_py.Models.Tools.{ToolSpec}
use luca_py.Models.Entries.{Entry, entry_id}
use luca_py.Models.Session.{AgentSession, Conversation}
use luca_py.Ledger.{
  LedgerError, ok, err, Ledger, next_id, advanced, conversation, write_conversation, file_entry,
}
use luca_py.Ledger.Transition.{
  Transition, preconditions, file_all, closing_list, append_id, closed_nodes, outgoing_after,
  incoming, commit, transition_conversation,
}
use luca_py.Ledger.Invariant.{
  IsWellFormed, Present, contains-put_self, write_conversation-IsWellFormed,
}
use luca_py.Ledger.Invariant.Filing.{
  file_entry-IsWellFormed, file_entry_keeps, Present-file_entry, Present-file_entry_self,
}
use luca_py.Ledger.Archiving.Batch.{
  Names, file_all-IsWellFormed, Present-file_all, Names-file_all, file_all_conversations,
  Names-append, Present-write_conversation, Resolves, All-append_id,
}

set_main-IsWellFormed :
    (digest : ToolSpec → String) (id : String) (session : AgentSession)
    → contains session.conversations id ≡ true
    → IsWellFormed digest session
    → IsWellFormed digest (record session { main_conversation_id = id })
set_main-IsWellFormed digest id session h wf = record {
  paths = wf.paths;
  named = wf.named;
  keyed = wf.keyed;
  filed = wf.filed;
  hashed = wf.hashed;
  main = h;
  used = wf.used;
}

module _ (digest : ToolSpec → String) (t : Transition) (session : AgentSession) where
  abbrev pub all_filed : AgentSession
  all_filed =
      file_all digest (closing_list t.closing)
        (file_all digest t.created (file_all digest t.updates session))

  pub all_filed-Present : (n : String) → Present session n → Present all_filed n
  all_filed-Present n h =
      Present-file_all digest n (closing_list t.closing) _
        (Present-file_all digest n t.created _ (Present-file_all digest n t.updates session h))

  all_filed-Resolves :
      (n : String)
      → Present session n ⊎ Names n (t.created ++ closing_list t.closing)
      → Present all_filed n
  all_filed-Resolves n (inl h) = all_filed-Present n h
  all_filed-Resolves n (inr h) = elim (Names-append n t.created (closing_list t.closing) h) [
    | inl a ↦
        Present-file_all digest n (closing_list t.closing) _ (Names-file_all digest n t.created _ a)
    | inr b ↦ Names-file_all digest n (closing_list t.closing) _ b
  ]

  all_filed_conversations : all_filed.conversations ≡ session.conversations
  all_filed_conversations =
      file_all_conversations digest (closing_list t.closing) _
      ∙ (file_all_conversations digest t.created _
          ∙ file_all_conversations digest t.updates session)

  closed_nodes-Present :
      (closing : Option Entry) (filed : AgentSession) (nodes : List String)
      → All (Present (file_all digest (closing_list closing) filed)) nodes
      → All (Present (file_all digest (closing_list closing) filed)) (closed_nodes closing nodes)
  closed_nodes-Present none filed nodes h = h
  closed_nodes-Present (some entry) filed nodes h =
      All-append_id (Present (file_all digest (entry ∷ []) filed)) (entry_id entry) nodes h
        λ id e. Names-file_all digest id (entry ∷ []) filed (inl e)

  commit-IsWellFormed :
      (cid new_id : String) (outgoing : Conversation)
      → get session.conversations cid ≡ some outgoing
      → Resolves session t
      → IsWellFormed digest session
      → IsWellFormed digest (commit digest cid new_id t outgoing session)
  unfolding commit
  commit-IsWellFormed cid new_id outgoing found resolves wf =
      let all_wf = file_all-IsWellFormed digest (closing_list t.closing) _ (
        file_all-IsWellFormed digest t.created _
          (file_all-IsWellFormed digest t.updates session wf)) in
      let old_nodes =
        All-map (Present session) (Present all_filed) outgoing.nodes all_filed-Present
          (wf.paths cid outgoing found) in
      let archived_wf =
        write_conversation-IsWellFormed digest cid (outgoing_after t outgoing) all_filed
          (wf.named cid outgoing found) (closed_nodes-Present t.closing _ outgoing.nodes old_nodes)
          all_wf in
      let archived = write_conversation cid (outgoing_after t outgoing) all_filed in
      let new_nodes =
        All-map (λ n. Present session n ⊎ Names n (t.created ++ closing_list t.closing))
          (Present archived) t.nodes
          (λ n h.
            Present-write_conversation cid n (outgoing_after t outgoing) all_filed
              (all_filed-Resolves n h))
          resolves in
      set_main-IsWellFormed digest new_id _
        (unfold write_conversation in contains-put_self _ new_id (incoming new_id t outgoing))
        (write_conversation-IsWellFormed digest new_id (incoming new_id t outgoing) archived refl
          new_nodes archived_wf)

  -- What a transition that passes its checks does to the catalog of conversations: the successor
  -- stands under the new id, the outgoing one stays under its own, and no other row changes.
  pub commit_conversations :
      (cid new_id j : String) (outgoing : Conversation)
      → get (commit digest cid new_id t outgoing session).conversations j ≡ (
          if new_id == j
          then some (incoming new_id t outgoing)
          else if cid == j
          then some (outgoing_after t outgoing)
          else get session.conversations j)
  unfolding commit write_conversation
  commit_conversations cid new_id j outgoing =
      get-put _ new_id j (incoming new_id t outgoing)
      ∙ ap (λ o. if new_id == j then some (incoming new_id t outgoing) else o)
          (get-put _ cid j (outgoing_after t outgoing)
            ∙ ap (λ d. if cid == j then some (outgoing_after t outgoing) else get d j)
                all_filed_conversations)

module _ (digest : ToolSpec → String) (cid : String) (t : Transition) (l : Ledger) where
  -- A transition that raises has changed nothing in the session.
  pub transition_atomic :
      (e : LedgerError)
      → (transition_conversation digest cid t l).0 ≡ err e
      → (transition_conversation digest cid t l).1.session ≡ l.session
  unfolding transition_conversation
  transition_atomic e h = ground arith

  pub transition_runs :
      (outgoing : Conversation)
      → get l.session.conversations cid ≡ some outgoing
      → preconditions l.session cid t ≡ none
      → contains l.session.conversations (next_id l) ≡ false
      → transition_conversation digest cid t l ≡ (
        ok (incoming (next_id l) t outgoing),
        record (advanced l) { session = commit digest cid (next_id l) t outgoing l.session },
      )
  unfolding transition_conversation conversation
  transition_runs outgoing found checks fresh =
      rw (found, transition_conversation, conversation)
        (rw (checks, transition_conversation) (rw fresh))

  pub transition-IsWellFormed :
      Resolves l.session t
      → IsWellFormed digest l.session
      → IsWellFormed digest (transition_conversation digest cid t l).1.session
  unfolding transition_conversation conversation
  transition-IsWellFormed resolves wf = elim (Option-cases (get l.session.conversations cid)) [
    | inl h ↦ rw (h, transition_conversation, conversation) wf
    | inr (c, found) ↦ elim (Option-cases (preconditions l.session cid t)) [
      | inr (e, h) ↦
          rw (found, transition_conversation, conversation) (rw (h, transition_conversation) wf)
      | inl checks ↦ elim (Bool-cases (contains l.session.conversations (next_id l))) [
        | inl taken ↦
            rw (found, transition_conversation, conversation)
              (rw (checks, transition_conversation) (rw taken wf))
        | inr fresh ↦
            rw (transition_runs c found checks fresh)
              (commit-IsWellFormed digest t l.session cid (next_id l) c found resolves wf)
      ]
    ]
  ]
