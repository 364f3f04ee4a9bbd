-- ===== src/Ledger/Transition.antt =====
-- `SessionLedger.transition_conversation` (agent/core/ledger.py): archive the main conversation and
-- install a successor. Its checks come first and write nothing.
use text.Mathlib.Text.{◌==◌}
use luca_py.Base.{ℕ, String, Option, none, some, List, [], ◌∷◌, ◌++◌, any, if◌then◌else◌}
use luca_py.Base.Dict.{Dict, contains}
use luca_py.Models.Tools.{ToolSpec}
use luca_py.Models.Entries.{Entry, entry_id}
use luca_py.Models.Session.{AgentSession, Conversation}
use luca_py.Ledger.{
  LedgerError, Result, ok, err, Ledger, conversation, write_conversation, file_entry, next_id,
  advanced,
}

pub record Transition : Type 0 where
  pub updates : List Entry
  pub created : List Entry
  pub closing : Option Entry
  pub nodes : List String
  pub ts : ℕ

-- for entry in updates: … raise
unfoldable pub check_updates : Dict Entry → List Entry → Option LedgerError
check_updates entries [] = none
check_updates entries (entry ∷ rest) =
    let later = check_updates entries rest in
    elim (entry_id entry) [
      | none ↦ some LedgerError.unknown_update
      | some id ↦ if contains entries id then later else some LedgerError.unknown_update
    ]

-- The loop over `[*created, closing]`, with the set of ids minted so far.
unfoldable pub check_created : Dict Entry → List String → List Entry → Option LedgerError
check_created entries minted [] = none
check_created entries minted (entry ∷ rest) = elim (entry_id entry) [
  | none ↦ some LedgerError.no_identity
  | some id ↦
      let later = check_created entries (id ∷ minted) rest in
      if contains entries id
      then some LedgerError.id_taken
      else if any (λ x. x == id) minted
      then some LedgerError.id_taken
      else later
]

abbrev pub closing_list : Option Entry → List Entry
closing_list none = []
closing_list (some entry) = entry ∷ []

-- The fallible block in front of the commit point.
unfoldable pub preconditions : AgentSession → String → Transition → Option LedgerError
preconditions session conversation_id t =
    if conversation_id == session.main_conversation_id
    then elim (check_updates session.entries t.updates) [
      | some e ↦ some e
      | none ↦ check_created session.entries [] (t.created ++ closing_list t.closing)
    ]
    else some LedgerError.not_main

abbrev pub append_id : Option String → List String → List String
append_id none nodes = nodes
append_id (some id) nodes = nodes ++ id ∷ []

abbrev pub closed_nodes : Option Entry → List String → List String
closed_nodes none nodes = nodes
closed_nodes (some entry) nodes = append_id (entry_id entry) nodes

abbrev pub outgoing_after : Transition → Conversation → Conversation
outgoing_after t outgoing = record outgoing {
  nodes = closed_nodes t.closing outgoing.nodes;
  updated_at = t.ts;
}

abbrev pub incoming : String → Transition → Conversation → Conversation
incoming new_id t outgoing = record {
  id = new_id;
  nodes = t.nodes;
  created_at = t.ts;
  updated_at = t.ts;
  previous_conversation_id = some outgoing.id;
  depth = outgoing.depth;
}

module _ (digest : ToolSpec → String) where
  -- for entry in …: self._store_tool_spec(entry); entries[entry.id] = entry. The checks have seen
  -- that every entry has an id.
  unfoldable pub file_all : List Entry → AgentSession → AgentSession
  file_all [] session = session
  file_all (entry ∷ rest) session = elim (entry_id entry) [
    | none ↦ file_all rest session
    | some id ↦ file_all rest (file_entry digest id entry session).1
  ]

  -- The commit: plain assignments.
  unfoldable pub commit : String → String → Transition → Conversation → AgentSession → AgentSession
  commit conversation_id new_id t outgoing session =
      let filed = file_all t.updates session in
      let filed' = file_all t.created filed in
      let filed'' = file_all (closing_list t.closing) filed' in
      let archived = write_conversation conversation_id (outgoing_after t outgoing) filed'' in
      let installed = write_conversation new_id (incoming new_id t outgoing) archived in
      record installed { main_conversation_id = new_id }

  unfoldable pub transition_conversation :
      String → Transition → Ledger → Result Conversation × Ledger
  transition_conversation conversation_id t l = elim (conversation l.session conversation_id) [
    | err e ↦ (err e, l)
    | ok outgoing ↦ elim (preconditions l.session conversation_id t) [
      | some e ↦ (err e, l)
      | none ↦
          if contains l.session.conversations (next_id l)
          then (err LedgerError.conversation_id_taken, advanced l)
          else (
            ok (incoming (next_id l) t outgoing),
            record (advanced l) {
              session = commit conversation_id (next_id l) t outgoing l.session;
            },
          )
    ]
  ]
