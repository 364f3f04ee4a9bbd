-- ===== src/Compaction/Step/Ending.antt =====
-- Every way through `_compaction_step` of agent/core/runner.py.
use luca_py.Base.{
  ℕ, String, ◌≡◌, refl, ◌∙◌, ◌⊎◌, inl, inr, Bool, true, Option, none, some, List, [], ◌∷◌, ◌++◌,
}
use luca_py.Models.Tools.{ToolSpec}
use luca_py.Models.Entries.{Entry, CompactionEntry, CompactionSource, CancelRequested, TurnOutcome}
use luca_py.Models.Session.{AgentSession, Conversation}
use luca_py.Ledger.{Result, ok, err, Ledger, now, ticked, conversation, append}
use luca_py.Ledger.Reads.{open_turn_index}
use luca_py.Compaction.{CompactionPlan, ConversationSnapshot}
use luca_py.Compaction.Commit.{CommitError, Committed}
use luca_py.Compaction.Step.{
  StepError, failed, manager_raised, timed_out, Drive, Out, Door, chain, emit, ◌>>◌, ◌>>=◌,
  append_built, append_completed, Answer, close_compaction, now_ms, persist_entry,
  persist_completed,
}
use mathlib.Core.Option.{some-injective}
use luca_py.Ledger.Reads.{open_turn_cancel_requested, open_compaction_entry}
use luca_py.Models.Entries.{as_compaction}
use luca_py.Runner.Scheduling.{turn_start_entry, new_compaction}
use luca_py.Base.{if-P}
use luca_py.Compaction.{check_snapshot, snapshot_conversation}
use luca_py.Compaction.Commit.{commit}
use luca_py.Compaction.Commit.Landing.{Moves, commit-Moves}
use luca_py.Compaction.Step.{
  raise_for, reads, flush, fail, flush_or, on_commit, settle, account, accounted,
  check_cancel_then_settle, on_answer, planned, ended, raised, note_started, wait_for,
  run_compaction, decide, resume_or_decide, compaction_step, open_bracket, as_entry, outcome_for,
  append_in, scheduled, started, read_at,
}
use luca_py.Compaction.Step.Closing.{
  Ended, OnlyFails, Anything, KeepsFinish, close_compaction-OnlyFails, persist_completed-OnlyFails,
  chain-OnlyFails, on_ledger-OnlyFails,
}
use luca_py.Compaction.Step.Ends.{Ends, told-Ends, raise_for-Ends, chain-Ends, reads-Ends}

module _ (digest : ToolSpec → String) (strip : String → String)
    (complete : AgentSession → String → Entry → String ⊎ Entry) (text_of : CommitError → String)
    (should_compact : AgentSession → String → Bool)
    (manager : String → CompactionEntry → List String → Ledger → Answer × Ledger)
    (keeps : KeepsFinish complete) (cid : String) (before : Drive) where
  close-Ends :
      (entry : CompactionEntry) (outcome : TurnOutcome) (text : Option String) (d : Drive)
      → Ends cid before (
          close_compaction digest strip complete text_of should_compact manager cid entry outcome
            text d)
  close-Ends entry outcome text d = told-Ends cid before _ (
      close_compaction-OnlyFails digest strip complete text_of should_compact manager keeps cid
        entry outcome text d)

  flush-Ends :
      (entry : CompactionEntry) (cancel : CancelRequested) (d : Drive)
      → Ends cid before
          (flush digest strip complete text_of should_compact manager cid entry cancel d)
  unfolding flush
  flush-Ends entry cancel d =
      close-Ends entry cancel.outcome cancel.error (record d { is_cancelled = true })

  fail-Ends :
      (entry : CompactionEntry) (outcome : TurnOutcome) (text : Option String) (e : StepError)
      (d : Drive)
      → Ends cid before
          (fail digest strip complete text_of should_compact manager cid entry outcome text e d)
  unfolding fail
  fail-Ends entry outcome text e d =
      chain-Ends cid before {A = Unit {0}} (λ _. Ended cid)
        (close_compaction digest strip complete text_of should_compact manager cid entry outcome
          text d)
        (λ _. raise_for entry.source e)
        (close_compaction-OnlyFails digest strip complete text_of should_compact manager keeps cid
          entry outcome text d)
        (λ _ d' h. raise_for-Ends cid before entry.source e d' h)

  flush_or-Ends :
      (entry : CompactionEntry) (otherwise : Door (Unit {0})) (cancel : Option CancelRequested)
      (d : Drive)
      → Ends cid before (otherwise d)
      → Ends cid before (
          flush_or digest strip complete text_of should_compact manager cid entry otherwise cancel
            d)
  flush_or-Ends entry otherwise none d h = h
  flush_or-Ends entry otherwise (some cancel) d h = flush-Ends entry cancel d

  checked-Ends :
      (entry : CompactionEntry) (otherwise : Door (Unit {0})) (d : Drive)
      → Ends cid before (otherwise d)
      → Ends cid before (
          chain
            (reads (open_turn_cancel_requested d.ledger.session cid) d)
            (flush_or digest strip complete text_of should_compact manager cid entry otherwise))
  checked-Ends entry otherwise d h =
      reads-Ends cid before (open_turn_cancel_requested d.ledger.session cid) d _
        (λ cancel. flush_or-Ends entry otherwise cancel d h)

  on_commit-Ends :
      (entry : CompactionEntry) (out : Committed) (d : Drive)
      → Moves digest strip complete cid out
      → Ends cid before
          (on_commit digest strip complete text_of should_compact manager cid entry out d)
  on_commit-Ends entry (inl e, l) d h = fail-Ends entry _ _ (failed e) (record d { ledger = l })
  on_commit-Ends entry (inr (c, final, entries), l) d h = inr (
    d.events,
    final,
    TurnOutcome.completed,
    none,
    entries,
    some c.id,
    refl,
    refl,
    h.1,
    (λ m e. h.0 ∙ some-injective _ _ e),
  )

  settle-Ends :
      (entry : CompactionEntry) (snapshot : ConversationSnapshot) (plan : Option CompactionPlan)
      (d : Drive)
      → Ends cid before
          (settle digest strip complete text_of should_compact manager cid entry snapshot plan d)
  settle-Ends entry snapshot none d = close-Ends entry TurnOutcome.completed none d
  settle-Ends entry snapshot (some plan) d =
      on_commit-Ends entry (commit digest strip complete cid entry plan snapshot d.ledger) d
        (commit-Moves digest strip complete cid entry plan snapshot d.ledger keeps)

  check_cancel-Ends :
      (entry : CompactionEntry) (snapshot : ConversationSnapshot) (plan : Option CompactionPlan)
      (d : Drive)
      → Ends cid before (
          check_cancel_then_settle digest strip complete text_of should_compact manager cid entry
            snapshot plan d)
  unfolding check_cancel_then_settle
  check_cancel-Ends entry snapshot plan d =
      checked-Ends entry
        (settle digest strip complete text_of should_compact manager cid entry snapshot plan) d
        (settle-Ends entry snapshot plan d)

  accounted-Ends :
      (entry : CompactionEntry) (next : Door (Unit {0})) (out : (CommitError ⊎ Unit {0}) × Ledger)
      (d : Drive)
      → ((d' : Drive) → Ends cid before (next d'))
      → Ends cid before
          (accounted digest strip complete text_of should_compact manager cid entry next out d)
  accounted-Ends entry next (inl e, l) d h =
      fail-Ends entry _ _ (failed e) (record d { ledger = l })
  accounted-Ends entry next (inr _, l) d h = h (record d { ledger = l })

  on_answer-Ends :
      (entry : CompactionEntry) (snapshot : ConversationSnapshot) (answer : Answer) (d : Drive)
      → Ends cid before (
          on_answer digest strip complete text_of should_compact manager cid entry snapshot answer
            d)
  on_answer-Ends entry snapshot (ended outcome text) d =
      checked-Ends entry
        (fail digest strip complete text_of should_compact manager cid entry outcome text
          (timed_out text))
        d (fail-Ends entry outcome text (timed_out text) d)
  on_answer-Ends entry snapshot (raised is_timeout text) d =
      fail-Ends entry (outcome_for is_timeout) (some text) (manager_raised is_timeout text) d
  on_answer-Ends entry snapshot (planned none) d = check_cancel-Ends entry snapshot none d
  on_answer-Ends entry snapshot (planned (some plan)) d =
      accounted-Ends entry
        (check_cancel_then_settle digest strip complete text_of should_compact manager cid entry
          snapshot (some plan))
        (account digest strip complete text_of should_compact manager cid entry plan
          (check_snapshot d.ledger.session d.ledger.session.main_conversation_id snapshot) d.ledger)
        d (check_cancel-Ends entry snapshot (some plan))

  as_entry-OnlyFails : (o : Option CompactionEntry) (d : Drive) → OnlyFails Anything (as_entry o d)
  as_entry-OnlyFails none d = tt
  as_entry-OnlyFails (some entry) d = tt

  note_started-OnlyFails :
      (entry : CompactionEntry) (at : Option ℕ) (d : Drive)
      → OnlyFails Anything
          (note_started digest strip complete text_of should_compact manager cid entry at d)
  unfolding now_ms persist_entry
  note_started-OnlyFails entry (some ts) d = tt
  note_started-OnlyFails entry none d =
      let d1 = record d { ledger = ticked d.ledger } in
      let stamped = Entry.compaction (record entry { started_at = some (now d.ledger) }) in
      let out = complete d.ledger.session cid stamped in
      chain-OnlyFails {A = Entry} {B = CompactionEntry} Anything Anything
        (persist_completed digest strip complete text_of should_compact manager cid out d1)
        (λ stored. as_entry (as_compaction (some stored)))
        (persist_completed-OnlyFails digest strip complete text_of should_compact manager keeps cid
          out d1)
        (λ stored d' h. as_entry-OnlyFails (as_compaction (some stored)) d')

  append_built-Fails :
      (out : String ⊎ Entry) (d : Drive)
      → OnlyFails Anything
          (append_built digest strip complete text_of should_compact manager cid out d)
  append_built-Fails (inl text) d = tt
  append_built-Fails (inr entry) d =
      on_ledger-OnlyFails {A = Entry} Anything (append digest cid (λ id parent ts. entry) d.ledger)
        d (λ e. tt)

  append-Fails :
      (build : String → Option String → ℕ → Entry) (found : Result Conversation) (d : Drive)
      → OnlyFails Anything
          (append_in digest strip complete text_of should_compact manager cid build found d)
  append-Fails build (err e) d = tt
  append-Fails build (ok c) d = append_built-Fails _ d

  abbrev compaction_of : CompactionSource → String → Option String → ℕ → Entry
  compaction_of source id parent ts = Entry.compaction (new_compaction source id parent ts)

  abbrev appended_entry : CompactionSource → Door CompactionEntry
  appended_entry source =
      append_completed digest strip complete text_of should_compact manager cid
        (compaction_of source)
      >>= λ entry. as_entry (as_compaction (some entry))

  open_bracket-OnlyFails :
      (source : CompactionSource) (d : Drive)
      → OnlyFails Anything
          (open_bracket digest strip complete text_of should_compact manager cid source d)
  unfolding open_bracket append_completed
  open_bracket-OnlyFails source d =
      chain-OnlyFails {A = Entry} {B = CompactionEntry} Anything Anything
        (append_in digest strip complete text_of should_compact manager cid turn_start_entry
          (conversation d.ledger.session cid) d)
        (λ _. appended_entry source) (append-Fails turn_start_entry _ d)
        (λ _ d' _.
          chain-OnlyFails {A = Entry} {B = CompactionEntry} Anything Anything
            (append_in digest strip complete text_of should_compact manager cid
              (compaction_of source) (conversation d'.ledger.session cid) d')
            (λ entry. as_entry (as_compaction (some entry)))
            (append-Fails (compaction_of source) _ d')
            (λ entry d'' _. as_entry-OnlyFails (as_compaction (some entry)) d''))

  abbrev started_then : CompactionEntry → Door (Unit {0})
  started_then entry =
      emit (started entry)
      >> read_at conversation cid
      >>= wait_for digest strip complete text_of should_compact manager cid entry

  started_then-Ends : (entry : CompactionEntry) (d : Drive) → Ends cid before (started_then entry d)
  started_then-Ends entry d =
      let d1 = record d { events = d.events ++ started entry ∷ [] } in
      reads-Ends cid before {A = Conversation} (conversation d.ledger.session cid) d1
        (wait_for digest strip complete text_of should_compact manager cid entry)
        (λ c.
          let snapshot = snapshot_conversation d.ledger.session c in
          let (answer, l) = manager cid entry snapshot.offered d.ledger in
          on_answer-Ends entry snapshot answer (record d1 { ledger = l }))

  run-Ends :
      (entry : CompactionEntry) (d : Drive)
      → Ends cid before
          (run_compaction digest strip complete text_of should_compact manager cid entry d)
  unfolding run_compaction
  run-Ends entry d =
      let d1 = record d { did_run = true; events = d.events ++ scheduled entry ∷ [] } in
      chain-Ends cid before {A = CompactionEntry} Anything
        (note_started digest strip complete text_of should_compact manager cid entry
          entry.started_at d1)
        started_then (note_started-OnlyFails entry entry.started_at d1)
        (λ entry' d' _. started_then-Ends entry' d')

  decide-Ends :
      (turn : Option ℕ) (d : Drive)
      → d ≡ before
      → Ends cid before (decide digest strip complete text_of should_compact manager cid turn d)
  decide-Ends (some index) d same = inl same
  decide-Ends none d same =
      if-P {A = Out (Unit {0})} (Ends cid before) (should_compact d.ledger.session cid)
        (chain-Ends cid before {A = CompactionEntry} Anything
          (open_bracket digest strip complete text_of should_compact manager cid
            CompactionSource.policy d)
          (run_compaction digest strip complete text_of should_compact manager cid)
          (open_bracket-OnlyFails CompactionSource.policy d) (λ entry d' _. run-Ends entry d'))
        (inl same)

  resume_or_decide-Ends :
      (entry : Option CompactionEntry) (d : Drive)
      → d ≡ before
      → Ends cid before
          (resume_or_decide digest strip complete text_of should_compact manager cid entry d)
  resume_or_decide-Ends (some entry) d same =
      checked-Ends entry
        (run_compaction digest strip complete text_of should_compact manager cid entry) d
        (run-Ends entry d)
  resume_or_decide-Ends none d same =
      reads-Ends cid before {A = Option ℕ} (open_turn_index d.ledger.session cid) d
        (decide digest strip complete text_of should_compact manager cid)
        (λ turn. decide-Ends turn d same)

-- Where the hooks make a TurnFinish no other class: whatever the manager answers, and whatever happens
-- while it is waited for, a compaction step that returns has done nothing, or has told the end of the
-- compaction with its last event, recorded that outcome, left the conversation with no open turn, and
-- made the successor that the event names, if it names one, the main conversation; and so has one
-- that raises a failure of the manager.
pub compaction_step-Ends :
    (digest : ToolSpec → String) (strip : String → String)
    (complete : AgentSession → String → Entry → String ⊎ Entry) (text_of : CommitError → String)
    (should_compact : AgentSession → String → Bool)
    (manager : String → CompactionEntry → List String → Ledger → Answer × Ledger)
    → KeepsFinish complete
    → (cid : String) (d : Drive)
    → Ends cid d (compaction_step digest strip complete text_of should_compact manager cid d)
unfolding compaction_step
compaction_step-Ends digest strip complete text_of should_compact manager keeps cid d =
    reads-Ends cid d {A = Option CompactionEntry} (open_compaction_entry d.ledger.session cid) d
      (resume_or_decide digest strip complete text_of should_compact manager cid)
      (λ entry.
        resume_or_decide-Ends digest strip complete text_of should_compact manager keeps cid d entry
          d refl)
