-- ===== src/Ledger.antt =====
-- agent/core/ledger.py: the single door onto a session's entry log. A door takes the ledger and
-- gives its result, or the error that it raises, with the ledger as it is then: what was written
-- before a raise stays written. The injected clock and id generator are functions from the number of
-- the call; the hash of a tool spec is the section's `digest`.
pub mod Transition
pub mod Records
pub mod Reads
pub mod Invariant
pub mod Lifecycle
pub mod Storage
pub mod Archiving
pub mod Pruning
pub mod Updates
pub mod Append
pub mod Executions
use text.Mathlib.Text.{◌==◌}
use luca_py.Base.{
  ℕ, zero, suc, ◌+◌, String, Bool, true, false, not, ◌&&◌, ◌||◌, Option, none, some, List, [], ◌∷◌,
  ◌++◌, if◌then◌else◌, is_some, is_none, any, filter, set, last?,
}
use luca_py.Base.Dict.{Dict, get, put, contains, set_default}
use luca_py.Models.Content.{Usage}
use luca_py.Models.Tools.{
  ToolSpec, spec_id, is_nonterminal, is_received, is_pending, is_running, is_awaiting_result,
  is_deferred, is_allowed,
}
use luca_py.Models.Entries.{
  Entry, ToolExecution, CancelRequested, CompactionEntry, PrunedEntry, base_of, entry_id,
  entry_type, EntryType-discrete,
}
use luca_py.Models.Path.{
  open_turn_executions, open_turn_index, open_turn_cancel_requested, open_compaction_entry,
}
use luca_py.Models.Session.{AgentSession, Conversation}
use mathlib.Core.Logic.{ite}

-- One constructor for each `raise AgentError`.
pub data LedgerError : Type 0 where
  no_conversation uncommitted no_such_entry not_main unknown_update no_identity id_taken
        conversation_id_taken not_on_path wrong_reference wrong_type nonterminal :
      LedgerError
  unstamped : LedgerError

pub data Result {ℓ} (A : Type ℓ) : Type ℓ where
  ok : A → Result A
  err : LedgerError → Result A

pub record Ledger : Type 0 where
  pub session : AgentSession
  pub clock : ℕ → ℕ
  pub gen_id : ℕ → String
  pub ticks : ℕ
  pub minted : ℕ

abbrev pub now : Ledger → ℕ
now l = l.clock l.ticks

abbrev pub next_id : Ledger → String
next_id l = l.gen_id l.minted

-- The ledger after a call of `self.clock()`, and after one of `self.gen_id()`.
abbrev pub ticked : Ledger → Ledger
ticked l = record l { ticks = l.ticks + 1 }

abbrev pub advanced : Ledger → Ledger
advanced l = record l { minted = l.minted + 1 }

-- self.conversation(conversation_id)
unfoldable pub conversation : AgentSession → String → Result Conversation
conversation session id = elim (get session.conversations id) [
  | none ↦ err no_conversation
  | some c ↦ ok c
]

-- session.entries[id] = entry
unfoldable pub write_entry : String → Entry → AgentSession → AgentSession
write_entry id entry session = record session { entries = put session.entries id entry }

-- A conversation is mutated in place, under the key that found it.
unfoldable pub write_conversation : String → Conversation → AgentSession → AgentSession
write_conversation id c session = record session { conversations = put session.conversations id c }

module _ (digest : ToolSpec → String) where
  file_spec : ToolExecution → Option ToolSpec → AgentSession → Entry × AgentSession
  file_spec e none session = (Entry.tool_execution (record e { tool_spec_id = none }), session)
  file_spec e (some spec) session =
      let id = spec_id digest spec in
      let (stored, specs) = set_default session.tool_specs id spec in
      (
        Entry.tool_execution (record e { tool_spec = some stored; tool_spec_id = some id }),
        record session { tool_specs = specs },
      )

  unfoldable pub store_tool_spec : Entry → AgentSession → Entry × AgentSession
  unfolding file_spec
  store_tool_spec (Entry.tool_execution e) session = file_spec e e.tool_spec session
  store_tool_spec entry session = (entry, session)

  -- `_store_tool_spec(entry)`, then `session.entries[id] = entry`
  unfoldable pub file_entry : String → Entry → AgentSession → Entry × AgentSession
  file_entry id entry session =
      let (stored, session') = store_tool_spec entry session in
      (stored, write_entry id stored session')

  unfoldable pub append :
      String → (String → Option String → ℕ → Entry) → Ledger → Result Entry × Ledger
  append conversation_id build l =
      let l' = advanced (ticked l) in
      elim (conversation l.session conversation_id) [
        | err e ↦ (err e, l')
        | ok c ↦
            let entry = build (next_id l) (last? c.nodes) (now l) in
            let (stored, session) = file_entry (next_id l) entry l.session in
            let c' = record c { nodes = c.nodes ++ next_id l ∷ []; updated_at = now l } in
            (ok stored, record l' { session = write_conversation conversation_id c' session })
      ]

  -- The entry is written before the conversation is resolved.
  unfoldable pub put_entry : String → Entry → Ledger → Result Entry × Ledger
  put_entry conversation_id entry l = elim (entry_id entry) [
    | none ↦ (err uncommitted, l)
    | some id ↦
        if contains l.session.entries id
        then (let (stored, session) = file_entry id entry l.session in
            let l' = record (ticked l) { session = session } in
            elim (conversation session conversation_id) [
              | err e ↦ (err e, l')
              | ok c ↦ (
                ok stored,
                record l' {
                  session =
                      write_conversation conversation_id (record c { updated_at = now l }) session;
                },
              )
            ])
        else (err no_such_entry, l)
  ]

  unfoldable pub refresh_entry : Entry → Ledger → Result Entry × Ledger
  refresh_entry entry l = elim (entry_id entry) [
    | none ↦ (err no_such_entry, l)
    | some id ↦
        if contains l.session.entries id
        then (let (stored, session) = file_entry id entry l.session in
            (ok stored, record l { session = session }))
        else (err no_such_entry, l)
  ]
