-- ===== src/Ledger/Executions.antt =====
-- What `put_entry` of agent/core/ledger.py writes for a tool execution that has ended.
use luca_py.Base.{String, ◌≡◌, refl, sym, ap, ◌∙◌, true, false, Option, none, some}
use text.Mathlib.TextPositions.{eq_refl}
use mathlib.Core.Option.{some-injective}
use luca_py.Base.Dict.{get, put, contains, get-put}
use luca_py.Models.Tools.{ToolSpec, is_nonterminal}
use luca_py.Models.Entries.{Entry, ToolExecution}
use luca_py.Models.Session.{AgentSession, Conversation}
use luca_py.Ledger.{
  Result, ok, err, Ledger, now, put_entry, file_spec, file_entry, store_tool_spec,
  write_conversation,
}
use luca_py.Ledger.Updates.{put_entry_found}
use luca_py.Ledger.Invariant.Filing.{file_entry_entries}

-- The conversation is still there, over the same path.
abbrev pub PathKept : String → AgentSession → AgentSession → Type 0
PathKept cid s s' =
    (c : Conversation)
    → get s.conversations cid ≡ some c
    → (c' : Conversation) × (get s'.conversations cid ≡ some c') × (c'.nodes ≡ c.nodes)

-- One write of an ended execution under its id.
abbrev pub Writes : String → String → AgentSession → AgentSession → Type 0
Writes cid id s s' =
    (e : ToolExecution) × (is_nonterminal e.status ≡ false)
    × (s'.entries ≡ put s.entries id (Entry.tool_execution e))
    × PathKept cid s s'

-- A put that must not raise.
abbrev pub Put : String → String → AgentSession → Result Entry × Ledger → Type 0
Put cid id s (err e, l) = ⊥
Put cid id s (ok stored, l) = Writes cid id s l.session

module _ (digest : ToolSpec → String) where
  file_spec_execution :
      (e : ToolExecution) (spec : Option ToolSpec) (s : AgentSession)
      → (e' : ToolExecution) × ((file_spec digest e spec s).0 ≡ Entry.tool_execution e')
        × (e'.status ≡ e.status)
  unfolding file_spec
  file_spec_execution e none s = (_, refl, refl)
  file_spec_execution e (some spec) s = (_, refl, refl)

  filed_execution :
      (id : String) (e : ToolExecution) (s : AgentSession)
      → (e' : ToolExecution) × ((file_entry digest id (Entry.tool_execution e) s).0
          ≡ Entry.tool_execution e')
        × (e'.status ≡ e.status)
  unfolding file_entry store_tool_spec
  filed_execution id e s = file_spec_execution e e.tool_spec s

  module _ (cid id : String) (e : ToolExecution) (l : Ledger) (named : e.id ≡ some id)
      (over : is_nonterminal e.status ≡ false) (there : contains l.session.entries id ≡ true)
      (c : Conversation) (found : get l.session.conversations cid ≡ some c) where
    abbrev filed : Entry × AgentSession
    filed = file_entry digest id (Entry.tool_execution e) l.session

    path_kept :
        PathKept cid l.session (write_conversation cid (record c { updated_at = now l }) filed.1)
    unfolding write_conversation
    path_kept c' found' = (
      record c { updated_at = now l },
      get-put _ cid cid (record c { updated_at = now l }) ∙ rw (eq_refl cid) refl,
      ap (λ (x : Conversation). x.nodes) (some-injective _ _ (sym found ∙ found')),
    )

    pub put_entry-Put : Put cid id l.session (put_entry digest cid (Entry.tool_execution e) l)
    put_entry-Put =
        let (e', same, status) = filed_execution id e l.session in
        rw (put_entry_found digest cid (Entry.tool_execution e) l id named there c found) (
          e',
          ap is_nonterminal status ∙ over,
          (unfold write_conversation in
              (file_entry_entries digest id (Entry.tool_execution e) l.session
                ∙ ap (put l.session.entries id) same)),
          path_kept,
        )
