-- ===== src/Ledger/Records.antt =====
-- `SessionLedger.record_usage` and `SessionLedger.prune` (agent/core/ledger.py).
use text.Mathlib.Text.{◌==◌}
use mathlib.Core.Logic.{ite}
use luca_py.Base.{
  ℕ, suc, String, Bool, false, Option, none, some, List, [], ◌∷◌, any, set, if◌then◌else◌,
}
use luca_py.Base.Dict.{Dict, get, put, contains}
use luca_py.Models.Content.{Usage}
use luca_py.Models.Tools.{is_nonterminal}
use luca_py.Models.Entries.{Entry, PrunedEntry, EntryType-discrete, base_of, entry_type}
use luca_py.Models.Session.{AgentSession}
use luca_py.Ledger.{
  LedgerError, Result, ok, err, Ledger, conversation, write_entry, write_conversation, now, next_id,
  ticked, advanced,
}

-- The keyword counters of a usage record; one that is not given is 0.
pub record Counters : Type 0 where
  pub input : ℕ
  pub output : ℕ
  pub cache_read : ℕ
  pub cache_write : ℕ
  pub total_tokens : ℕ

abbrev pub or_empty : Option (Dict ℕ) → Dict ℕ
or_empty none = []
or_empty (some d) = d

unfoldable pub usage_of : String → String → Option (Dict ℕ) → Counters → Usage
usage_of conversation_id entry_id tool_requests counters = record {
  conversation_id = conversation_id;
  entry_id = entry_id;
  input = counters.input;
  output = counters.output;
  cache_read = counters.cache_read;
  cache_write = counters.cache_write;
  total_tokens = counters.total_tokens;
  tool_requests = or_empty tool_requests;
}

abbrev pub usages_of : Option (Dict Usage) → Dict Usage
usages_of none = []
usages_of (some d) = d

-- session.usages.setdefault(conversation_id, {})[entry_id] = usage
unfoldable pub write_usage : String → String → Usage → AgentSession → AgentSession
write_usage conversation_id entry_id usage session =
    let row = usages_of (get session.usages conversation_id) in
    record session { usages = put session.usages conversation_id (put row entry_id usage) }

unfoldable pub record_usage :
    String → String → Option (Dict ℕ) → Counters → Ledger → Result Usage × Ledger
record_usage conversation_id entry_id tool_requests counters l =
    elim (conversation l.session conversation_id) [
      | err e ↦ (err e, l)
      | ok c ↦
          if contains l.session.entries entry_id
          then (if any (λ node. node == entry_id) c.nodes
              then (let usage = usage_of c.id entry_id tool_requests counters in
                  (ok usage, record l { session = write_usage c.id entry_id usage l.session }))
              else (err LedgerError.not_on_path, l))
          else (err LedgerError.no_such_entry, l)
    ]

-- nodes.index(id), with the ValueError as `none`
unfoldable pub index_of : String → List String → Option ℕ
index_of id [] = none
index_of id (node ∷ rest) =
    let later = index_of id rest in
    if node == id then some 0 else elim later [ none ↦ none | some i ↦ some (suc i) ]

-- A nonterminal execution is not prunable.
abbrev pub is_live : Entry → Bool
is_live (Entry.tool_execution e) = is_nonterminal e.status
is_live entry = false

unfoldable pub check_pruned : String → Entry → PrunedEntry → Option LedgerError
check_pruned original_id original entry =
    if entry.pruned_entry_id == original_id
    then ite (EntryType-discrete entry.pruned_entry_type (entry_type original))
        (if is_live original then some LedgerError.nonterminal else none)
        (some LedgerError.wrong_type)
    else some LedgerError.wrong_reference

-- `build` stamps the id that it is handed. One that leaves `id` at None would file the entry under
-- the key None; that case is the error `unstamped`, which the source does not have.
unfoldable pub prune :
    String
    → String
    → (String → Option String → ℕ → PrunedEntry)
    → Ledger
    → Result PrunedEntry × Ledger
prune conversation_id original_id build l = elim (conversation l.session conversation_id) [
  | err e ↦ (err e, l)
  | ok c ↦ elim (get l.session.entries original_id) [
    | none ↦ (err LedgerError.no_such_entry, l)
    | some original ↦ elim (index_of original_id c.nodes) [
      | none ↦ (err LedgerError.not_on_path, l)
      | some node_index ↦
          let l' = advanced (ticked l) in
          let entry = build (next_id l) (base_of original).parent_id (now l) in
          elim (check_pruned original_id original entry) [
            | some e ↦ (err e, l')
            | none ↦ elim entry.id [
              | none ↦ (err LedgerError.unstamped, l')
              | some id ↦
                  let c' = record c { nodes = set c.nodes node_index id; updated_at = now l } in
                  (
                    ok entry,
                    record l' {
                      session =
                          write_conversation conversation_id c'
                            (write_entry id (Entry.pruned entry) l.session);
                    },
                  )
            ]
          ]
    ]
  ]
]
