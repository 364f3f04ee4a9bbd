-- ===== src/Tests/CompactionCases.antt =====
-- A compaction (agent/core/compaction.py and runner.py) behind a finished turn: the plan folds the turn
-- into a summary and puts a message behind it.
use luca_py.Base.{
  String, ◌≡◌, ◌↔◌, refl, subst, ◌⊎◌, inl, inr, true, false, none, some, List, [], ◌∷◌,
  if◌then◌else◌, ◌==◌,
}
use mathlib.Core.Sum.{inr-injective}
use luca_py.Base.Dict.{get, put}
use luca_py.Models.Json.{end}
use luca_py.Models.Content.{ContentPart}
use luca_py.Models.Tools.{ToolSpec}
use luca_py.Models.Entries.{Entry, CompactionEntry, CompactionSource, is_turn_finish}
use luca_py.Models.Path
use luca_py.Models.Path.{open_turn_before, entry_at, is_compaction_bracket}
use luca_py.Models.Session.{AgentSession, Conversation}
use luca_py.Ledger.{Ledger, conversation, file_entry, store_tool_spec, write_entry}
use luca_py.Ledger.Transition.{
  transition_conversation, preconditions, check_updates, check_created, file_all,
}
use luca_py.Ledger.Reads.{open_turn_index}
use luca_py.Compaction.{
  PlanNode, CompactionPlan, ConversationSnapshot, snapshot_conversation, validate_plan,
  check_snapshot, check_nodes, has_content,
}
use luca_py.Compaction.Plan.{IsAcceptable, validate_plan_iff}
use luca_py.Compaction.Commit.{CommitError, commit, lay_path, compacted_of, filled_entry, Committed}
use luca_py.Compaction.Commit.Refusing.{commit_atomic}
use luca_py.Compaction.Commit.Landing.{Landed, commit_loses_nothing}
use luca_py.Compaction.Step.{Drive, Answer, compaction_step}
use luca_py.Compaction.Step.Ends.{Ends}
use luca_py.Compaction.Step.Ending.{compaction_step-Ends}
use luca_py.Compaction.Step.Closing.{KeepsFinish}
use luca_py.Samples
use luca_py.Samples.{base, ledger, session, start_entry, user_entry, finish_entry, compaction_entry}

abbrev digest : ToolSpec → String
digest spec = spec.name

abbrev strip : String → String
strip t = t

abbrev complete : AgentSession → String → Entry → String ⊎ Entry
complete session conversation_id entry = inr entry

abbrev path : List String
path = "s" ∷ "u" ∷ "f" ∷ "b" ∷ "k" ∷ []

abbrev waiting : Ledger
waiting =
    record (ledger (
      session
        (("s", start_entry "s")
          ∷ ("u", user_entry "u")
          ∷ ("f", finish_entry "f")
          ∷ ("b", start_entry "b")
          ∷ ("k", compaction_entry "k")
          ∷ [])
        path)) { gen_id = λ n. if n == 0 then "n" else if n == 1 then "t" else "next" }

abbrev main : Conversation
main = Samples.conversation "main" path

abbrev summary : CompactionEntry
summary = record {
  base = base "k" none;
  source = CompactionSource.policy;
  parts = some (ContentPart.text (record { text = "sum"; metadata = end; annotations = [] }) ∷ []);
  compacted_nodes = none;
  llm_config = none;
  started_at = none;
  ended_at = none;
  metadata = end;
}

abbrev plan : CompactionPlan
plan = record {
  entry = summary;
  nodes = PlanNode.carried "k" ∷ PlanNode.created (user_entry "x") ∷ [];
  usage = record { input = 1; output = 1; cache_read = 0; cache_write = 0; total_tokens = 2 };
}

abbrev snapshot : ConversationSnapshot
snapshot = record { id = "main"; nodes = path; offered = "s" ∷ "u" ∷ "f" ∷ "k" ∷ [] }

takes : snapshot_conversation waiting.session main ≡ snapshot
unfolding snapshot_conversation Path.open_turn_index open_turn_before entry_at get
takes = refl

validate_plan_iff_example :
    (validate_plan strip plan (some "k") waiting.session "main" snapshot ≡ none)
    ↔ IsAcceptable strip plan "k" waiting.session "main" snapshot
validate_plan_iff_example = validate_plan_iff waiting.session "main" snapshot strip plan "k"

passes : validate_plan strip plan (some "k") waiting.session "main" snapshot ≡ none
unfolding validate_plan check_snapshot check_nodes has_content get
passes = refl

-- A hook that raises on the closing marker, the last entry that is built.
abbrev raises : Entry → String ⊎ Entry
raises (Entry.turn_finish e) = inl "no"
raises entry = inr entry

abbrev stopped : Ledger
stopped = record waiting { ticks = 1; minted = 2 }

stops :
    commit digest strip (λ session conversation_id. raises) "main" summary plan snapshot waiting
    ≡ (inl (CommitError.hook "no"), stopped)
unfolding commit validate_plan check_snapshot check_nodes has_content lay_path compacted_of
    filled_entry open_turn_index Path.open_turn_index open_turn_before entry_at conversation get
stops = refl

commit_atomic_example : stopped.session ≡ waiting.session
commit_atomic_example =
    commit_atomic digest strip (λ session conversation_id. raises) "main" summary plan snapshot
      waiting stopped (CommitError.hook "no") stops

abbrev landed : Committed
landed = commit digest strip complete "main" summary plan snapshot waiting

abbrev successor : Conversation
successor = record {
  id = "next";
  nodes = "k" ∷ "n" ∷ [];
  created_at = 10;
  updated_at = 10;
  previous_conversation_id = some "main";
  depth = 0;
}

abbrev final : Entry
final =
    Entry.compaction
      (record summary { compacted_nodes = some ("s" ∷ "u" ∷ "f" ∷ []); ended_at = some 10 })

abbrev message : Entry
message = Entry.user (record {
  base = record { id = some "n"; parent_id = some "k"; created_at = some 10; context_tokens = 0 };
  parts = [];
})

lands : landed ≡ (inr (successor, final, message ∷ []), landed.1)
unfolding commit validate_plan check_snapshot check_nodes has_content lay_path compacted_of
    filled_entry open_turn_index Path.open_turn_index open_turn_before entry_at conversation
    transition_conversation preconditions check_updates check_created file_all file_entry
    store_tool_spec write_entry get put
lands = refl

there : get waiting.session.conversations "main" ≡ some main
unfolding get
there = refl

commit_loses_nothing_example :
    Landed digest strip complete "main" summary plan snapshot waiting main there successor final
      landed.1.session
commit_loses_nothing_example =
    commit_loses_nothing digest strip complete "main" summary plan snapshot waiting main there
      successor final (message ∷ []) landed.1 lands

keeps_finish : KeepsFinish complete
keeps_finish session cid entry entry' h finish =
    subst (λ e. is_turn_finish (some e) ≡ true) (inr-injective _ _ h) finish

abbrev start : Drive
start = record {
  ledger = waiting;
  events = [];
  is_cancelled = false;
  did_run = false;
  closed = none;
}

abbrev answers : String → CompactionEntry → List String → Ledger → Answer × Ledger
answers conversation_id entry offered l = (Answer.planned (some plan), l)

compaction_step-Ends_example :
    Ends "main" start
      (compaction_step digest strip complete (λ e. "failed") (λ s c. false) answers "main" start)
compaction_step-Ends_example =
    compaction_step-Ends digest strip complete (λ e. "failed") (λ s c. false) answers keeps_finish
      "main" start
