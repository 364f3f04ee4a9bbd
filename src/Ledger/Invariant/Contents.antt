-- ===== src/Ledger/Invariant/Contents.antt =====
-- What filing (agent/core/ledger.py) stores of an entry.
use luca_py.Base.{String, ◌≡◌, refl, Option, none, some, sym, ap, ◌∙◌}
use luca_py.Models.Tools.{ToolSpec, spec_id}
use luca_py.Models.Entries.{Entry, ToolExecution, is_turn_finish}
use luca_py.Models.Session.{AgentSession}
use luca_py.Ledger.{file_spec, store_tool_spec, file_entry}

-- An execution without its inline spec; any other entry as it is.
abbrev pub without_spec : Entry → Entry
without_spec (Entry.tool_execution e) = Entry.tool_execution (record e { tool_spec = none })
without_spec entry = entry

module _ (digest : ToolSpec → String) where
  abbrev pub named_id : Option ToolSpec → Option String
  named_id none = none
  named_id (some spec) = some (spec_id digest spec)

  -- The same, with the id that the inline spec has in the catalog.
  abbrev pub named_spec : Entry → Entry
  named_spec (Entry.tool_execution e) =
      Entry.tool_execution (record e { tool_spec = none; tool_spec_id = named_id e.tool_spec })
  named_spec entry = entry

  file_spec_contents :
      (e : ToolExecution) (spec : Option ToolSpec) (session : AgentSession)
      → without_spec (file_spec digest e spec session).0
        ≡ Entry.tool_execution (record e { tool_spec = none; tool_spec_id = named_id spec })
  unfolding file_spec
  file_spec_contents e none session = refl
  file_spec_contents e (some spec) session = refl

  pub store_tool_spec_contents :
      (entry : Entry) (session : AgentSession)
      → without_spec (store_tool_spec digest entry session).0 ≡ named_spec entry
  unfolding store_tool_spec
  store_tool_spec_contents (Entry.tool_execution e) session =
      file_spec_contents e e.tool_spec session
  store_tool_spec_contents (Entry.user e) session = refl
  store_tool_spec_contents _ session = refl

  -- What is stored for an entry: the entry, but for the spec of an execution, which is found in the
  -- catalog under the id that it has there.
  abbrev pub StoredAs : Entry → Entry → Type 0
  StoredAs entry stored = without_spec stored ≡ named_spec entry

  pub file_entry-StoredAs :
      (id : String) (entry : Entry) (session : AgentSession)
      → StoredAs entry (file_entry digest id entry session).0
  unfolding file_entry
  file_entry-StoredAs id entry session = store_tool_spec_contents entry session

  without_spec-finish :
      (entry : Entry) → is_turn_finish (some (without_spec entry)) ≡ is_turn_finish (some entry)
  without_spec-finish (Entry.tool_execution e) = refl
  without_spec-finish _ = refl

  named_spec-finish :
      (entry : Entry) → is_turn_finish (some (named_spec entry)) ≡ is_turn_finish (some entry)
  named_spec-finish (Entry.tool_execution e) = refl
  named_spec-finish _ = refl

  pub StoredAs-finish :
      (entry stored : Entry)
      → StoredAs entry stored
      → is_turn_finish (some stored) ≡ is_turn_finish (some entry)
  StoredAs-finish entry stored h =
      sym (without_spec-finish stored)
      ∙ (ap (λ e. is_turn_finish (some e)) h ∙ named_spec-finish entry)
