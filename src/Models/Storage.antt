-- ===== src/Models/Storage.antt =====
-- What a session does to the tool specs of its executions when it is saved and when it is built
-- (agent/core/models.py): the serializer drops the copies, and the validators put them back or
-- refuse the session. A file is the session that it spells.
use luca_py.Base.{String, Option, none, some, [], ◌∷◌, ◌⊎◌, inl, inr, if◌then◌else◌}
use luca_py.Base.Dict.{Dict, get, contains}
use luca_py.Models.Tools.{ToolSpec}
use luca_py.Models.Entries.{Entry, ToolExecution}
use luca_py.Models.Session.{AgentSession}

-- One constructor for each `raise ValueError`.
pub data LoadError : Type 0 where
  no_main spec_without_id absent_spec : LoadError

-- entry.pop("tool_spec", None), for an execution
unfoldable pub strip_entry : Entry → Entry
strip_entry (Entry.tool_execution e) = Entry.tool_execution (record e { tool_spec = none })
strip_entry entry = entry

abbrev pub map_values {ℓ} : {V : Type ℓ} → (V → V) → Dict V → Dict V
map_values f [] = []
map_values f ((k, v) ∷ d) = (k, f v) ∷ map_values f d

unfoldable pub strip_inline_tool_specs : AgentSession → AgentSession
strip_inline_tool_specs session = record session {
  entries = map_values strip_entry session.entries;
}

-- An execution with no `tool_spec_id`.
abbrev pub unnamed : ToolExecution → Option ToolSpec → LoadError ⊎ Entry
unnamed e none = inr (Entry.tool_execution e)
unnamed e (some spec) = inl LoadError.spec_without_id

abbrev pub found : ToolExecution → Option ToolSpec → LoadError ⊎ Entry
found e none = inl LoadError.absent_spec
found e (some spec) = inr (Entry.tool_execution (record e { tool_spec = some spec }))

abbrev pub named : Dict ToolSpec → ToolExecution → Option String → LoadError ⊎ Entry
named specs e none = unnamed e e.tool_spec
named specs e (some id) = found e (get specs id)

-- The body of the loop.
unfoldable pub restore_entry : Dict ToolSpec → Entry → LoadError ⊎ Entry
restore_entry specs (Entry.tool_execution e) = named specs e e.tool_spec_id
restore_entry specs entry = inr entry

abbrev pub restored : String → LoadError ⊎ Entry → LoadError ⊎ Dict Entry → LoadError ⊎ Dict Entry
restored k (inl e) rest = inl e
restored k (inr entry) (inl e) = inl e
restored k (inr entry) (inr d) = inr ((k, entry) ∷ d)

unfoldable pub restore_entries : Dict ToolSpec → Dict Entry → LoadError ⊎ Dict Entry
restore_entries specs [] = inr []
restore_entries specs ((k, entry) ∷ d) =
    restored k (restore_entry specs entry) (restore_entries specs d)

abbrev pub with_entries : AgentSession → LoadError ⊎ Dict Entry → LoadError ⊎ AgentSession
with_entries session (inl e) = inl e
with_entries session (inr d) = inr (record session { entries = d })

unfoldable pub restore_tool_specs : AgentSession → LoadError ⊎ AgentSession
restore_tool_specs session =
    with_entries session (restore_entries session.tool_specs session.entries)

-- The validators that check, in their order.
unfoldable pub load : AgentSession → LoadError ⊎ AgentSession
load session =
    if contains session.conversations session.main_conversation_id
    then restore_tool_specs session
    else inl LoadError.no_main
