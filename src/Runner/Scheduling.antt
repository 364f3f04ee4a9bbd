-- ===== src/Runner/Scheduling.antt =====
-- `schedule_compaction` (agent/core/runner.py): the checks, and the bracket that it opens with two
-- appends. `complete` is the completion of an entry by the hooks, a parameter that returns.
use luca_py.Base.{ℕ, String, Option, none, some, ◌⊎◌, inl, inr}
use luca_py.Models.Json.{end}
use luca_py.Models.Tools.{ToolSpec}
use luca_py.Models.Entries.{Entry, EntryBase, CompactionEntry, CompactionSource, entry_id}
use luca_py.Ledger.{LedgerError, Result, ok, err, Ledger, append}
use luca_py.Ledger.Reads.{open_turn_index, open_compaction_entry}

-- `open_turn` is the AgentError of a turn that is not closed.
pub data ScheduleError : Type 0 where
  open_turn : ScheduleError
  failed : LedgerError → ScheduleError

abbrev pub Scheduled : Type 0
Scheduled = (ScheduleError ⊎ Option String) × Ledger

abbrev stamped : String → Option String → ℕ → EntryBase
stamped id parent ts = record {
  id = some id;
  parent_id = parent;
  created_at = some ts;
  context_tokens = 0;
}

abbrev pub turn_start_entry : String → Option String → ℕ → Entry
turn_start_entry id parent ts = Entry.turn_start (record { base = stamped id parent ts })

abbrev pub new_compaction : CompactionSource → String → Option String → ℕ → CompactionEntry
new_compaction source id parent ts = record {
  base = stamped id parent ts;
  source = source;
  parts = none;
  compacted_nodes = none;
  llm_config = none;
  started_at = none;
  ended_at = none;
  metadata = end;
}

abbrev pub scheduled : Result Entry × Ledger → Scheduled
scheduled (err e, l) = (inl (failed e), l)
scheduled (ok entry, l) = (inr (entry_id entry), l)

module _ (digest : ToolSpec → String) (complete : String → Entry → Entry) where
  abbrev pub append_compaction :
      String → CompactionSource → Result Entry × Ledger → Result Entry × Ledger
  append_compaction conversation_id source (err e, l) = (err e, l)
  append_compaction conversation_id source (ok start, l) =
      append digest conversation_id
        (λ id parent ts.
          complete conversation_id (Entry.compaction (new_compaction source id parent ts)))
        l

  unfoldable pub open_compaction_bracket :
      String → CompactionSource → Ledger → Result Entry × Ledger
  open_compaction_bracket conversation_id source l = append_compaction conversation_id source (
      append digest conversation_id
        (λ id parent ts. complete conversation_id (turn_start_entry id parent ts)) l)

  abbrev pub schedule_from :
      Result (Option CompactionEntry) → Result (Option ℕ) → Ledger → Scheduled
  schedule_from (err e) turn l = (inl (failed e), l)
  schedule_from (ok (some existing)) turn l = (inr existing.id, l)
  schedule_from (ok none) (err e) l = (inl (failed e), l)
  schedule_from (ok none) (ok (some index)) l = (inl open_turn, l)
  schedule_from (ok none) (ok none) l =
      scheduled (open_compaction_bracket l.session.main_conversation_id CompactionSource.user l)

  unfoldable pub schedule_compaction : Ledger → Scheduled
  schedule_compaction l =
      let main = l.session.main_conversation_id in
      schedule_from (open_compaction_entry l.session main) (open_turn_index l.session main) l
