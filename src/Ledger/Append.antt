-- ===== src/Ledger/Append.antt =====
-- `SessionLedger.append` (agent/core/ledger.py): what it writes, and that it keeps the invariant.
use text.Mathlib.Text.{◌==◌}
use luca_py.Base.{
  ℕ, String, ◌≡◌, refl, inl, inr, Option, none, some, [], ◌∷◌, ◌++◌, if◌then◌else◌, All-map,
  All-append, Option-cases, last?,
}
use luca_py.Base.Dict.{get, get-put}
use luca_py.Models.Tools.{ToolSpec}
use luca_py.Models.Entries.{Entry, entry_id}
use luca_py.Models.Session.{AgentSession, Conversation}
use luca_py.Ledger.{
  ok, err, no_conversation, Ledger, now, next_id, ticked, advanced, conversation,
  write_conversation, file_entry, append,
}
use luca_py.Ledger.Invariant.Contents.{StoredAs, file_entry-StoredAs}
use luca_py.Ledger.Invariant.{IsFiled, IsWellFormed, Present, write_conversation-IsWellFormed}
use luca_py.Ledger.Invariant.Filing.{
  file_entry-IsWellFormed, file_entry_entries, file_entry_keeps, file_entry-IsFiled,
  Present-file_entry, Present-file_entry_self,
}

-- `build(entry_id, parent_id, ts)` stamps the id that it is handed.
abbrev pub Stamps : (String → Option String → ℕ → Entry) → Type 0
Stamps build =
    (id : String) (parent : Option String) (ts : ℕ) → entry_id (build id parent ts) ≡ some id

module _ (digest : ToolSpec → String) (cid : String) (build : String → Option String → ℕ → Entry)
    (l : Ledger) where
  append_missing :
      get l.session.conversations cid ≡ none
      → append digest cid build l ≡ (err no_conversation, advanced (ticked l))
  unfolding append conversation
  append_missing h = rw (h, append, conversation)

  module _ (c : Conversation) (found : get l.session.conversations cid ≡ some c) where
    abbrev pub built : Entry × AgentSession
    built = file_entry digest (next_id l) (build (next_id l) (last? c.nodes) (now l)) l.session

    abbrev pub extended : Conversation
    extended = record c { nodes = c.nodes ++ next_id l ∷ []; updated_at = now l }

    pub append_found : append digest cid build l ≡ (
      ok built.0,
      record (advanced (ticked l)) { session = write_conversation cid extended built.1 },
    )
    unfolding append conversation
    append_found = rw (found, append, conversation)

    append_found-IsWellFormed :
        Stamps build
        → IsWellFormed digest l.session
        → IsWellFormed digest (append digest cid build l).1.session
    append_found-IsWellFormed stamps wf = rw append_found (
        write_conversation-IsWellFormed digest cid extended built.1 (wf.named cid c found)
          (All-append (Present built.1) c.nodes (next_id l ∷ [])
            (All-map (Present l.session) (Present built.1) c.nodes
              (λ n. Present-file_entry digest (next_id l) n _ l.session) (wf.paths cid c found))
            (Present-file_entry_self digest (next_id l) _ l.session, tt))
          (file_entry-IsWellFormed digest (next_id l) _ l.session
            (stamps (next_id l) (last? c.nodes) (now l)) wf))

    -- What `append` writes, for a conversation that is there: the built entry under the new id, where
    -- an execution's spec is the one that the catalog has under its id; and that id at the end of the
    -- path with the time of the call. No other entry, no other conversation, no usage and no main
    -- pointer changes. `build` is handed the leaf of the path as the parent.
    pub append_writes :
        (k j : String)
        → let (r, l') = append digest cid build l in
          (entry : Entry) × (r ≡ ok entry)
          × StoredAs digest (build (next_id l) (last? c.nodes) (now l)) entry
          × IsFiled l'.session.tool_specs entry
          × (get l'.session.entries k
              ≡ (if next_id l == k then some entry else get l.session.entries k))
          × (get l'.session.conversations j ≡ (
              if cid == j
              then some (record c { nodes = c.nodes ++ next_id l ∷ []; updated_at = now l })
              else get l.session.conversations j))
          × (l'.session.usages ≡ l.session.usages)
          × (l'.session.main_conversation_id ≡ l.session.main_conversation_id)
    append_writes k j = rw append_found (
        unfold write_conversation in
        (
          built.0,
          refl,
          file_entry-StoredAs digest (next_id l) (build (next_id l) (last? c.nodes) (now l))
              l.session,
          file_entry-IsFiled digest (next_id l) _ l.session,
          rw (file_entry_entries digest (next_id l) _ l.session)
              (get-put l.session.entries (next_id l) k built.0),
          rw ((file_entry_keeps digest (next_id l) _ l.session).0)
              (get-put l.session.conversations cid j extended),
          (file_entry_keeps digest (next_id l) _ l.session).1,
          (file_entry_keeps digest (next_id l) _ l.session).2,
        ))

  pub append-IsWellFormed :
      Stamps build
      → IsWellFormed digest l.session
      → IsWellFormed digest (append digest cid build l).1.session
  append-IsWellFormed stamps wf = elim (Option-cases (get l.session.conversations cid)) [
    | inl missing ↦ rw (append_missing missing) wf
    | inr (c, found) ↦ append_found-IsWellFormed c found stamps wf
  ]
