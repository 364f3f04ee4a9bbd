-- ===== src/Tests/ScheduleCases.antt =====
-- `schedule_compaction` (agent/core/runner.py), twice, behind a finished turn.
use luca_py.Base.{String, ◌≡◌, refl, inr, some, [], ◌∷◌, if◌then◌else◌, ◌==◌}
use luca_py.Base.Dict.{get, put}
use luca_py.Models.Tools.{ToolSpec}
use luca_py.Models.Entries.{Entry}
use luca_py.Models.Path
use luca_py.Models.Path.{open_turn_before, entry_at, is_compaction_bracket}
use luca_py.Ledger.{
  Ledger, append, conversation, file_entry, store_tool_spec, write_entry, write_conversation,
}
use luca_py.Ledger.Reads.{open_turn_index, open_compaction_entry}
use luca_py.Runner.Scheduling.{schedule_compaction, open_compaction_bracket}
use luca_py.Runner.Scheduled.{schedule_compaction_idempotent}
use luca_py.Samples.{ledger, session, start_entry, user_entry, finish_entry}

abbrev digest : ToolSpec → String
digest spec = spec.name

abbrev complete : String → Entry → Entry
complete conversation_id entry = entry

abbrev idle : Ledger
idle =
    record (ledger (
      session (("s", start_entry "s") ∷ ("u", user_entry "u") ∷ ("f", finish_entry "f") ∷ [])
        ("s" ∷ "u" ∷ "f" ∷ []))) { gen_id = λ n. if n == 0 then "t" else "c" }

abbrev armed : Ledger
armed = (schedule_compaction digest complete idle).1

arms : schedule_compaction digest complete idle ≡ (inr (some "c"), armed)
unfolding schedule_compaction open_compaction_bracket open_compaction_entry open_turn_index
    Path.open_compaction_entry Path.open_turn_index open_turn_before entry_at is_compaction_bracket
    append conversation file_entry store_tool_spec write_entry write_conversation get put
arms = refl

schedule_compaction_idempotent_example :
    schedule_compaction digest complete armed ≡ (inr (some "c"), armed)
schedule_compaction_idempotent_example =
    schedule_compaction_idempotent digest complete idle (λ cid id parent ts. refl)
      (λ cid e. (e, refl, refl)) refl (some "c") armed arms
