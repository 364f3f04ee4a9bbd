-- ===== src/Ledger/Updates.antt =====
-- `SessionLedger.put_entry` and `refresh_entry` (agent/core/ledger.py): the in-place doors.
use luca_py.Base.{
  String, ◌≡◌, refl, ◌⊎◌, inl, inr, true, false, none, some, All-map, Bool-cases, Option-cases,
}
use luca_py.Base.Dict.{get, put, contains}
use luca_py.Models.Tools.{ToolSpec}
use luca_py.Models.Entries.{Entry, entry_id}
use luca_py.Models.Session.{AgentSession, Conversation}
use luca_py.Ledger.{
  LedgerError, ok, err, no_conversation, Ledger, now, ticked, conversation, write_conversation,
  file_entry, put_entry, refresh_entry,
}
use luca_py.Ledger.Invariant.Contents.{StoredAs, file_entry-StoredAs}
use luca_py.Ledger.Invariant.{IsFiled, IsWellFormed, Present, write_conversation-IsWellFormed}
use luca_py.Ledger.Invariant.Filing.{
  file_entry-IsWellFormed, file_entry_entries, file_entry_keeps, file_entry-IsFiled,
  Present-file_entry,
}

module _ (entry : Entry) (l : Ledger) where
  -- Where an update stands: its entry has no id, an id that is not in the store, or one that is.
  update_cases :
      ((entry_id entry ≡ none)
        ⊎ ((id : String) × (entry_id entry ≡ some id) × (contains l.session.entries id ≡ false)))
      ⊎ ((id : String) × (entry_id entry ≡ some id) × (contains l.session.entries id ≡ true))
  update_cases = elim (Option-cases (entry_id entry)) [
    | inl h ↦ inl (inl h)
    | inr (id, h) ↦ elim (Bool-cases (contains l.session.entries id)) [
      | inl there ↦ inr (id, h, there)
      | inr absent ↦ inl (inr (id, h, absent))
    ]
  ]

module _ (digest : ToolSpec → String) (cid : String) (entry : Entry) (l : Ledger) where
  -- An entry with no id, or one that is not in the store, is refused and nothing is written.
  pub put_entry_refuses :
      (entry_id entry ≡ none)
        ⊎ ((id : String) × (entry_id entry ≡ some id) × (contains l.session.entries id ≡ false))
      → (e : LedgerError) × (put_entry digest cid entry l ≡ (err e, l))
  unfolding put_entry
  put_entry_refuses (inl h) = (LedgerError.uncommitted, rw (h, put_entry))
  put_entry_refuses (inr (id, h, absent)) =
      (LedgerError.no_such_entry, rw (h, put_entry) (rw absent))

  module _ (id : String) (named : entry_id entry ≡ some id)
      (there : contains l.session.entries id ≡ true) where
    abbrev pub filed : Entry × AgentSession
    filed = file_entry digest id entry l.session

    pub put_entry_missing :
        get l.session.conversations cid ≡ none
        → put_entry digest cid entry l
          ≡ (err no_conversation, record (ticked l) { session = filed.1 })
    unfolding put_entry conversation
    put_entry_missing missing =
        rw (named, put_entry)
          (rw there (
            rw ((file_entry_keeps digest id entry l.session).0, conversation)
              (rw (missing, conversation))))

    pub put_entry_found :
        (c : Conversation)
        → get l.session.conversations cid ≡ some c
        → put_entry digest cid entry l ≡ (
          ok filed.0,
          record (ticked l) {
            session = write_conversation cid (record c { updated_at = now l }) filed.1;
          },
        )
    unfolding put_entry conversation
    put_entry_found c found =
        rw (named, put_entry)
          (rw there (
            rw ((file_entry_keeps digest id entry l.session).0, conversation)
              (rw (found, conversation))))

    -- For an entry in the store and a conversation that is not, `put_entry` raises, and the entry
    -- has been replaced all the same: its id holds the given one, where an execution's spec is the
    -- one that the catalog has under its id.
    pub put_entry_writes_before_raising :
        get l.session.conversations cid ≡ none
        → let (r, l') = put_entry digest cid entry l in
          (stored : Entry) × (r ≡ err no_conversation)
          × StoredAs digest entry stored
          × IsFiled l'.session.tool_specs stored
          × (l'.session.entries ≡ put l.session.entries id stored)
    put_entry_writes_before_raising missing = rw (put_entry_missing missing) (
      filed.0,
      refl,
      file_entry-StoredAs digest id entry l.session,
      file_entry-IsFiled digest id entry l.session,
      file_entry_entries digest id entry l.session,
    )

    put_entry_there-IsWellFormed :
        IsWellFormed digest l.session → IsWellFormed digest (put_entry digest cid entry l).1.session
    put_entry_there-IsWellFormed wf =
        let wf' = file_entry-IsWellFormed digest id entry l.session named wf in
        elim (Option-cases (get l.session.conversations cid)) [
          | inl missing ↦ rw (put_entry_missing missing) wf'
          | inr (c, found) ↦ rw (put_entry_found c found) (
              write_conversation-IsWellFormed digest cid (record c { updated_at = now l }) filed.1
                (wf.named cid c found)
                (All-map (Present l.session) (Present filed.1) c.nodes
                  (λ n. Present-file_entry digest id n entry l.session) (wf.paths cid c found))
                wf')
        ]

  pub put_entry-IsWellFormed :
      IsWellFormed digest l.session → IsWellFormed digest (put_entry digest cid entry l).1.session
  put_entry-IsWellFormed wf = elim (update_cases entry l) [
    | inl bad ↦ rw ((put_entry_refuses bad).1) wf
    | inr (id, h, there) ↦ put_entry_there-IsWellFormed id h there wf
  ]

module _ (digest : ToolSpec → String) (entry : Entry) (l : Ledger) where
  module _ (id : String) (named : entry_id entry ≡ some id)
      (there : contains l.session.entries id ≡ true) where
    refresh_entry_found : refresh_entry digest entry l ≡ (
      ok (file_entry digest id entry l.session).0,
      record l { session = (file_entry digest id entry l.session).1 },
    )
    unfolding refresh_entry
    refresh_entry_found = rw (named, refresh_entry) (rw there)

    refresh_entry_there-IsWellFormed :
        IsWellFormed digest l.session → IsWellFormed digest (refresh_entry digest entry l).1.session
    refresh_entry_there-IsWellFormed wf =
        rw refresh_entry_found (file_entry-IsWellFormed digest id entry l.session named wf)

  refresh_entry_refuses :
      (entry_id entry ≡ none)
        ⊎ ((id : String) × (entry_id entry ≡ some id) × (contains l.session.entries id ≡ false))
      → refresh_entry digest entry l ≡ (err LedgerError.no_such_entry, l)
  unfolding refresh_entry
  refresh_entry_refuses (inl h) = rw (h, refresh_entry)
  refresh_entry_refuses (inr (id, h, absent)) = rw (h, refresh_entry) (rw absent)

  pub refresh_entry-IsWellFormed :
      IsWellFormed digest l.session → IsWellFormed digest (refresh_entry digest entry l).1.session
  refresh_entry-IsWellFormed wf = elim (update_cases entry l) [
    | inl bad ↦ rw (refresh_entry_refuses bad) wf
    | inr (id, h, there) ↦ refresh_entry_there-IsWellFormed id h there wf
  ]
