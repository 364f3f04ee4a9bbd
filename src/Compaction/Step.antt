-- ===== src/Compaction/Step.antt =====
-- `_compaction_step` of agent/core/runner.py: the compaction at the top of a drive. An operation is a
-- door on the drive: it returns or raises, with what the drive is then. The context manager's
-- `should_compact` and `compact` are parameters; the latter stands for the whole wait, so it gives
-- its answer with the ledger as it is when the wait is over. `text_of` is the `str` of an error.
pub mod Closing
pub mod Ends
pub mod Ending
use luca_py.Base.{
  ℕ, String, ◌⊎◌, inl, inr, Bool, true, false, Option, none, some, List, [], ◌∷◌, ◌++◌, last?,
  if◌then◌else◌,
}
use luca_py.Models.Tools.{ToolSpec}
use luca_py.Models.Entries.{
  Entry, CompactionEntry, CompactionSource, CancelRequested, TurnOutcome, as_compaction,
}
use luca_py.Models.Session.{AgentSession, Conversation}
use luca_py.Runner.Scheduling.{turn_start_entry, new_compaction}
use luca_py.Ledger.{
  LedgerError, Result, ok, err, Ledger, now, next_id, ticked, advanced, conversation, append,
  put_entry,
}
use luca_py.Ledger.Records.{record_usage}
use luca_py.Ledger.Reads.{open_turn_index, open_turn_cancel_requested, open_compaction_entry}
use luca_py.Compaction.{
  CompactionPlan, ConversationSnapshot, PlanError, snapshot_conversation, check_snapshot,
}
use luca_py.Compaction.Commit.{CommitError, rejected, hook, ledger, Committed, finish_entry, commit}

-- What `compact()` comes back with: a plan or nothing to do, an end of the wait by the token or the
-- deadline, or an exception, which may be a `ClientTimeoutError`.
pub data Answer : Type 0 where
  planned : Option CompactionPlan → Answer
  ended : TurnOutcome → Option String → Answer
  raised : Bool → String → Answer

-- `not_compaction` stands for the AttributeError of an entry that a hook has made another class.
pub data StepError : Type 0 where
  failed : CommitError → StepError
  manager_raised : Bool → String → StepError
  timed_out : Option String → StepError
  not_compaction : StepError

pub data StepEvent : Type 0 where
  scheduled started : CompactionEntry → StepEvent
  finished : Entry → TurnOutcome → Option String → List Entry → Option String → StepEvent

-- `is_cancelled`, `did_run` and `closed` are the marks in `_compaction_cancelled`,
-- `_compaction_did_run` and `_closed_outcomes` for the conversation.
pub record Drive : Type 0 where
  pub ledger : Ledger
  pub events : List StepEvent
  pub is_cancelled : Bool
  pub did_run : Bool
  pub closed : Option TurnOutcome

abbrev pub Out : Type 0 → Type 0
Out A = (StepError ⊎ A) × Drive

abbrev pub Door : Type 0 → Type 0
Door A = Drive → Out A

abbrev pub chain : {A B : Type 0} → Out A → (A → Door B) → Out B
chain (inl e, d) f = (inl e, d)
chain (inr a, d) f = f a d

infixl 5 ◌>>=◌ ◌>>◌
abbrev pub ◌>>=◌ : {A B : Type 0} → Door A → (A → Door B) → Door B
◌>>=◌ m f d = chain (m d) f

abbrev pub ◌>>◌ : {B : Type 0} → Door (Unit {0}) → Door B → Door B
m >> k = m >>= λ _. k

abbrev pub done : Door (Unit {0})
done d = (inr tt, d)

abbrev pub emit : StepEvent → Door (Unit {0})
emit event d = (inr tt, record d { events = d.events ++ event ∷ [] })

-- A call of a door of the ledger.
abbrev pub on_ledger : {A : Type 0} → Result A × Ledger → Drive → Out A
on_ledger (err e, l) d = (inl (failed (ledger e)), record d { ledger = l })
on_ledger (ok a, l) d = (inr a, record d { ledger = l })

abbrev pub reads : {A : Type 0} → Result A → Door A
reads (err e) d = (inl (failed (ledger e)), d)
reads (ok a) d = (inr a, d)

abbrev pub read_at : {A : Type 0} → (AgentSession → String → Result A) → String → Door A
read_at read conversation_id d = reads (read d.ledger.session conversation_id) d

abbrev pub as_entry : Option CompactionEntry → Door CompactionEntry
as_entry none d = (inl not_compaction, d)
as_entry (some entry) d = (inr entry, d)

-- `raise`, where the compaction was scheduled by the user; a policy's failure degrades.
abbrev pub raise_for : CompactionSource → StepError → Door (Unit {0})
raise_for CompactionSource.user e d = (inl e, d)
raise_for CompactionSource.policy e d = (inr tt, d)

abbrev pub outcome_for : Bool → TurnOutcome
outcome_for true = TurnOutcome.timed_out
outcome_for false = TurnOutcome.errored

module _ (digest : ToolSpec → String) (strip : String → String)
    (complete : AgentSession → String → Entry → String ⊎ Entry) (text_of : CommitError → String)
    (should_compact : AgentSession → String → Bool)
    (manager : String → CompactionEntry → List String → Ledger → Answer × Ledger) where
  -- `_append`: the hooks run between the id and the write, and may raise.
  abbrev pub append_built : String → String ⊎ Entry → Door Entry
  append_built conversation_id (inl text) d =
      (inl (failed (hook text)), record d { ledger = advanced (ticked d.ledger) })
  append_built conversation_id (inr entry) d =
      on_ledger (append digest conversation_id (λ id parent ts. entry) d.ledger) d

  abbrev pub append_in :
      String → (String → Option String → ℕ → Entry) → Result Conversation → Door Entry
  append_in conversation_id build (err e) d =
      (inl (failed (ledger e)), record d { ledger = advanced (ticked d.ledger) })
  append_in conversation_id build (ok c) d =
      append_built conversation_id
        (complete d.ledger.session conversation_id
          (build (next_id d.ledger) (last? c.nodes) (now d.ledger)))
        d

  unfoldable pub append_completed : String → (String → Option String → ℕ → Entry) → Door Entry
  append_completed conversation_id build d =
      append_in conversation_id build (conversation d.ledger.session conversation_id) d

  abbrev pub persist_completed : String → String ⊎ Entry → Door Entry
  persist_completed conversation_id (inl text) d = (inl (failed (hook text)), d)
  persist_completed conversation_id (inr entry) d =
      on_ledger (put_entry digest conversation_id entry d.ledger) d

  unfoldable pub persist_entry : String → Entry → Door Entry
  persist_entry conversation_id entry d =
      persist_completed conversation_id (complete d.ledger.session conversation_id entry) d

  -- `self.now_ms()`
  unfoldable pub now_ms : Door ℕ
  now_ms d = (inr (now d.ledger), record d { ledger = ticked d.ledger })

  abbrev pub note_closed : TurnOutcome → Door (Unit {0})
  note_closed outcome d = (inr tt, record d { closed = some outcome })

  unfoldable pub close_turn : String → TurnOutcome → Option String → Door (Unit {0})
  close_turn conversation_id outcome error =
      append_completed conversation_id (finish_entry outcome error) >>= λ _. note_closed outcome

  unfoldable pub close_compaction :
      String → CompactionEntry → TurnOutcome → Option String → Door (Unit {0})
  close_compaction conversation_id entry outcome error = now_ms >>= λ ts.
      persist_entry conversation_id (Entry.compaction (record entry { ended_at = some ts }))
      >>= λ final.
          close_turn conversation_id outcome error >> emit (finished final outcome error [] none)

  unfoldable pub open_bracket : String → CompactionSource → Door CompactionEntry
  open_bracket conversation_id source = append_completed conversation_id turn_start_entry >>= λ _.
      append_completed conversation_id
        (λ id parent ts. Entry.compaction (new_compaction source id parent ts))
      >>= λ entry. as_entry (as_compaction (some entry))

  -- A parked cancel ends the bracket, and stops the drive.
  abbrev pub note_cancelled : Door (Unit {0})
  note_cancelled d = (inr tt, record d { is_cancelled = true })

  unfoldable pub flush : String → CompactionEntry → CancelRequested → Door (Unit {0})
  flush conversation_id entry cancel =
      note_cancelled >> close_compaction conversation_id entry cancel.outcome cancel.error

  abbrev pub flush_or :
      String → CompactionEntry → Door (Unit {0}) → Option CancelRequested → Door (Unit {0})
  flush_or conversation_id entry otherwise none = otherwise
  flush_or conversation_id entry otherwise (some cancel) = flush conversation_id entry cancel

  -- A failure closes the bracket, and is raised where the user scheduled the compaction.
  unfoldable pub fail :
      String → CompactionEntry → TurnOutcome → Option String → StepError → Door (Unit {0})
  fail conversation_id entry outcome text e =
      close_compaction conversation_id entry outcome text >> raise_for entry.source e

  abbrev pub conclude :
      String → CompactionEntry → CommitError ⊎ (Conversation × Entry × List Entry) → Door (Unit {0})
  conclude conversation_id entry (inl e) =
      fail conversation_id entry TurnOutcome.errored (some (text_of e)) (failed e)
  conclude conversation_id entry (inr (c, final, entries)) =
      note_closed TurnOutcome.completed
      >> emit (finished final TurnOutcome.completed none entries (some c.id))

  abbrev pub on_commit : String → CompactionEntry → Committed → Door (Unit {0})
  on_commit conversation_id entry (out, l) d =
      conclude conversation_id entry out (record d { ledger = l })

  -- Behind the last check for a cancel.
  abbrev pub settle :
      String → CompactionEntry → ConversationSnapshot → Option CompactionPlan → Door (Unit {0})
  settle conversation_id entry snapshot none =
      close_compaction conversation_id entry TurnOutcome.completed none
  settle conversation_id entry snapshot (some plan) = λ d.
      on_commit conversation_id entry
        (commit digest strip complete conversation_id entry plan snapshot d.ledger) d

  -- The early check of the snapshot and the usage record, inside the failure handling.
  abbrev pub recorded_id :
      String → Option String → CompactionPlan → Ledger → Result (Unit {0}) × Ledger
  recorded_id conversation_id none plan l = (err LedgerError.no_such_entry, l)
  recorded_id conversation_id (some id) plan l =
      let (out, l') = record_usage conversation_id id none plan.usage l in
      (elim out [ err e ↦ err e | ok usage ↦ ok tt ], l')

  abbrev pub account :
      String
      → CompactionEntry
      → CompactionPlan
      → Option PlanError
      → Ledger
      → (CommitError ⊎ Unit {0}) × Ledger
  account conversation_id entry plan (some e) l = (inl (rejected e), l)
  account conversation_id entry plan none l =
      let (out, l') = recorded_id conversation_id entry.id plan l in
      (elim out [ err e ↦ inl (ledger e) | ok _ ↦ inr tt ], l')

  abbrev pub accounted :
      String
      → CompactionEntry
      → Door (Unit {0})
      → (CommitError ⊎ Unit {0}) × Ledger
      → Door (Unit {0})
  accounted conversation_id entry next (inl e, l) d =
      fail conversation_id entry TurnOutcome.errored (some (text_of e)) (failed e)
        (record d { ledger = l })
  accounted conversation_id entry next (inr _, l) d = next (record d { ledger = l })

  unfoldable pub check_cancel_then_settle :
      String → CompactionEntry → ConversationSnapshot → Option CompactionPlan → Door (Unit {0})
  check_cancel_then_settle conversation_id entry snapshot plan =
      read_at open_turn_cancel_requested conversation_id
      >>= flush_or conversation_id entry (settle conversation_id entry snapshot plan)

  abbrev pub on_answer : String → CompactionEntry → ConversationSnapshot → Answer → Door (Unit {0})
  on_answer conversation_id entry snapshot (ended outcome text) =
      read_at open_turn_cancel_requested conversation_id
      >>= flush_or conversation_id entry (fail conversation_id entry outcome text (timed_out text))
  on_answer conversation_id entry snapshot (raised is_timeout text) =
      fail conversation_id entry (outcome_for is_timeout) (some text)
        (manager_raised is_timeout text)
  on_answer conversation_id entry snapshot (planned none) =
      check_cancel_then_settle conversation_id entry snapshot none
  on_answer conversation_id entry snapshot (planned (some plan)) = λ d.
      accounted conversation_id entry
        (check_cancel_then_settle conversation_id entry snapshot (some plan))
        (account conversation_id entry plan
          (check_snapshot d.ledger.session d.ledger.session.main_conversation_id snapshot) d.ledger)
        d

  abbrev pub on_wait :
      String → CompactionEntry → ConversationSnapshot → Answer × Ledger → Door (Unit {0})
  on_wait conversation_id entry snapshot (answer, l) d =
      on_answer conversation_id entry snapshot answer (record d { ledger = l })

  abbrev pub note_started : String → CompactionEntry → Option ℕ → Door CompactionEntry
  note_started conversation_id entry (some ts) = λ d. (inr entry, d)
  note_started conversation_id entry none = now_ms >>= λ ts.
      persist_entry conversation_id (Entry.compaction (record entry { started_at = some ts }))
      >>= λ stored. as_entry (as_compaction (some stored))

  abbrev pub wait_for : String → CompactionEntry → Conversation → Door (Unit {0})
  wait_for conversation_id entry c d =
      let snapshot = snapshot_conversation d.ledger.session c in
      on_wait conversation_id entry snapshot
        (manager conversation_id entry snapshot.offered d.ledger) d

  abbrev pub note_run : Door (Unit {0})
  note_run d = (inr tt, record d { did_run = true })

  unfoldable pub run_compaction : String → CompactionEntry → Door (Unit {0})
  run_compaction conversation_id entry =
      note_run
      >> emit (scheduled entry)
      >> note_started conversation_id entry entry.started_at
      >>= λ entry'.
          emit (started entry')
          >> read_at conversation conversation_id
          >>= wait_for conversation_id entry'

  abbrev pub decide : String → Option ℕ → Door (Unit {0})
  decide conversation_id (some index) = done
  decide conversation_id none = λ d.
      if should_compact d.ledger.session conversation_id
      then (open_bracket conversation_id CompactionSource.policy >>= run_compaction conversation_id)
          d
      else done d

  abbrev pub resume_or_decide : String → Option CompactionEntry → Door (Unit {0})
  resume_or_decide conversation_id (some entry) =
      read_at open_turn_cancel_requested conversation_id
      >>= flush_or conversation_id entry (run_compaction conversation_id entry)
  resume_or_decide conversation_id none =
      read_at open_turn_index conversation_id >>= decide conversation_id

  unfoldable pub compaction_step : String → Door (Unit {0})
  compaction_step conversation_id =
      read_at open_compaction_entry conversation_id >>= resume_or_decide conversation_id
