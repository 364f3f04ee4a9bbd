-- ===== src/Compaction/Step/Closing.antt =====
-- How `_compaction_step` of agent/core/runner.py ends.
use luca_py.Base.{
  suc, String, ◌≡◌, refl, ap, ◌⊎◌, inl, inr, Bool, true, Option, none, some, List, [], ◌∷◌, ◌++◌,
  length, length-append, arith,
}
use luca_py.Base.Dict.{Dict, get, put, get-put_self}
use luca_py.Models.Tools.{ToolSpec}
use luca_py.Models.Entries.{Entry, CompactionEntry, TurnOutcome, is_turn_finish}
use luca_py.Models.Path
use luca_py.Models.Status.Closing.{last_at}
use luca_py.Models.Session.{AgentSession, Conversation}
use luca_py.Ledger.{
  Result, ok, err, Ledger, now, next_id, ticked, conversation, append, store_tool_spec, file_entry,
  write_entry, write_conversation,
}
use luca_py.Ledger.Reads.{reading, open_turn_index}
use luca_py.Ledger.Append.{append_found, extended}
use luca_py.Compaction.Commit.{CommitError, finish_entry}
use luca_py.Compaction.Step.{
  failed, manager_raised, timed_out, not_compaction, StepEvent, finished, Drive, Out, Door, chain,
  emit, ◌>>◌, on_ledger, append_built, append_completed, close_turn, Answer, close_compaction,
  now_ms, persist_entry, persist_completed,
}

-- The conversation is there, and has no open turn.
abbrev pub IsShut : String → Ledger → Type 0
IsShut cid l = open_turn_index l.session cid ≡ ok none

-- A hook that is given a TurnFinish gives one back.
abbrev pub KeepsFinish : (AgentSession → String → Entry → String ⊎ Entry) → Type 0
KeepsFinish complete =
    (session : AgentSession) (cid : String) (entry entry' : Entry)
    → complete session cid entry ≡ inr entry'
    → is_turn_finish (some entry) ≡ true
    → is_turn_finish (some entry') ≡ true

pub closed_by_finish :
    (nodes : List String) (id : String) (entries : Dict Entry)
    → is_turn_finish (get entries id) ≡ true
    → Path.open_turn_index (nodes ++ id ∷ []) entries ≡ none
unfolding Path.open_turn_index Path.open_turn_before
closed_by_finish nodes id entries h =
    let e : length (nodes ++ id ∷ []) ≡ suc (length nodes) =
      omega (arith, length-append nodes (id ∷ [])) in
    rw e (rw (last_at nodes id entries, Path.open_turn_before) (rw h refl))

module _ (digest : ToolSpec → String) where
  pub append_finish-IsShut :
      (cid : String) (entry : Entry) (l : Ledger) (c : Conversation)
      → get l.session.conversations cid ≡ some c
      → is_turn_finish (some entry) ≡ true
      → IsShut cid (append digest cid (λ id parent ts. entry) l).1
  unfolding open_turn_index conversation file_entry store_tool_spec write_entry write_conversation
  append_finish-IsShut cid (Entry.turn_finish e) l c found h =
      rw (append_found digest cid (λ id parent ts. Entry.turn_finish e) l c found) (
        rw
          (
            get-put_self l.session.conversations cid
                (extended digest cid (λ id parent ts. Entry.turn_finish e) l c found),
            reading,
            conversation,
          )
          (ap ok (
            closed_by_finish c.nodes (next_id l)
              (put l.session.entries (next_id l) (Entry.turn_finish e))
              (rw (get-put_self l.session.entries (next_id l) (Entry.turn_finish e)) refl))))
  append_finish-IsShut cid _ l c found h = absurd (ground (arith, h))

-- A run that has told its end: the event is the last and its outcome is recorded; the conversation
-- has no open turn; and a successor, if there is one, is the main conversation.
abbrev pub Ended : String → Drive → Type 0
Ended cid d =
    (told : List StepEvent) × (final : Entry) × (outcome : TurnOutcome) × (text : Option String)
    × (created : List Entry) × (successor : Option String) × (d.events
        ≡ told ++ finished final outcome text created successor ∷ [])
    × (d.closed ≡ some outcome)
    × IsShut cid d.ledger
    × ((m : String) → successor ≡ some m → d.ledger.session.main_conversation_id ≡ m)

-- What holds where an operation returns, where nothing but a hook or the ledger can stop it.
abbrev pub OnlyFails : {A : Type 0} → (A → Drive → Type 0) → Out A → Type 0
OnlyFails P (inl (failed e), d) = Unit {0}
OnlyFails P (inl (manager_raised is_timeout text), d) = ⊥
OnlyFails P (inl (timed_out text), d) = ⊥
OnlyFails P (inl not_compaction, d) = Unit {0}
OnlyFails P (inr a, d) = P a d

abbrev pub Anything : {A : Type 0} → A → Drive → Type 0
Anything a d = Unit {0}

pub chain-OnlyFails :
    {A B : Type 0} (P : A → Drive → Type 0) (Q : B → Drive → Type 0) (out : Out A) (f : A → Door B)
    → OnlyFails P out
    → ((a : A) (d : Drive) → P a d → OnlyFails Q (f a d))
    → OnlyFails Q (chain out f)
chain-OnlyFails P Q (inl (failed e), d) f h k = tt
chain-OnlyFails P Q (inl (manager_raised is_timeout text), d) f h k = h
chain-OnlyFails P Q (inl (timed_out text), d) f h k = h
chain-OnlyFails P Q (inl not_compaction, d) f h k = tt
chain-OnlyFails P Q (inr a, d) f h k = k a d h

pub on_ledger-OnlyFails :
    {A : Type 0} (P : A → Drive → Type 0) (out : Result A × Ledger) (d : Drive)
    → ((a : A) → P a (record d { ledger = out.1 }))
    → OnlyFails P (on_ledger out d)
on_ledger-OnlyFails P (err e, l) d h = tt
on_ledger-OnlyFails P (ok a, l) d h = h a

module _ (digest : ToolSpec → String) (strip : String → String)
    (complete : AgentSession → String → Entry → String ⊎ Entry) (text_of : CommitError → String)
    (should_compact : AgentSession → String → Bool)
    (manager : String → CompactionEntry → List String → Ledger → Answer × Ledger)
    (keeps : KeepsFinish complete) where
  pub persist_completed-OnlyFails :
      (cid : String) (out : String ⊎ Entry) (d : Drive)
      → OnlyFails Anything
          (persist_completed digest strip complete text_of should_compact manager cid out d)
  persist_completed-OnlyFails cid (inl text) d = tt
  persist_completed-OnlyFails cid (inr entry) d = on_ledger-OnlyFails Anything _ d (λ e. tt)

  append_built-OnlyFails :
      (cid : String) (out : String ⊎ Entry) (d : Drive) (c : Conversation)
      → get d.ledger.session.conversations cid ≡ some c
      → ((entry : Entry) → out ≡ inr entry → is_turn_finish (some entry) ≡ true)
      → OnlyFails
          (λ _ d'. IsShut cid d'.ledger)
          (append_built digest strip complete text_of should_compact manager cid out d)
  append_built-OnlyFails cid (inl text) d c found h = tt
  append_built-OnlyFails cid (inr entry) d c found h =
      on_ledger-OnlyFails {A = Entry} (λ _ d'. IsShut cid d'.ledger)
        (append digest cid (λ id parent ts. entry) d.ledger) d
        (λ e. append_finish-IsShut digest cid entry d.ledger c found (h entry refl))

  append_in-OnlyFails :
      (cid : String) (outcome : TurnOutcome) (text : Option String) (d : Drive)
      (o : Option Conversation)
      → get d.ledger.session.conversations cid ≡ o
      → OnlyFails
          (λ _ d'. IsShut cid d'.ledger)
          (append_completed digest strip complete text_of should_compact manager cid
            (finish_entry outcome text)
            d)
  unfolding append_completed conversation
  append_in-OnlyFails cid outcome text d none e = rw (e, conversation) tt
  append_in-OnlyFails cid outcome text d (some c) e =
      rw (e, conversation)
        (append_built-OnlyFails cid _ d c e (λ entry h. keeps _ cid _ entry h refl))

  close_turn-OnlyFails :
      (cid : String) (outcome : TurnOutcome) (text : Option String) (d : Drive)
      → OnlyFails
          (λ _ d'. IsShut cid d'.ledger × (d'.closed ≡ some outcome))
          (close_turn digest strip complete text_of should_compact manager cid outcome text d)
  unfolding close_turn
  close_turn-OnlyFails cid outcome text d =
      chain-OnlyFails (λ _ d'. IsShut cid d'.ledger) _ _ _
        (append_in-OnlyFails cid outcome text d (get d.ledger.session.conversations cid) refl)
        (λ entry d' h. (h, refl))

  -- What follows the last write of the entry.
  abbrev close_and_tell : String → TurnOutcome → Option String → Entry → Door (Unit {0})
  close_and_tell cid outcome text final =
      close_turn digest strip complete text_of should_compact manager cid outcome text
      >> emit (finished final outcome text [] none)

  close_and_tell-OnlyFails :
      (cid : String) (outcome : TurnOutcome) (text : Option String) (final : Entry) (d : Drive)
      → OnlyFails (λ _. Ended cid) (close_and_tell cid outcome text final d)
  close_and_tell-OnlyFails cid outcome text final d =
      chain-OnlyFails {A = Unit {0}} {B = Unit {0}}
        (λ _ d'. IsShut cid d'.ledger × (d'.closed ≡ some outcome)) (λ _. Ended cid)
        (close_turn digest strip complete text_of should_compact manager cid outcome text d)
        (λ _. emit (finished final outcome text [] none)) (close_turn-OnlyFails cid outcome text d)
        (λ _ d' k. (
          d'.events,
          final,
          outcome,
          text,
          [],
          none,
          refl,
          k.1,
          k.0,
          λ m e. absurd (ground (arith, e)),
        ))

  pub close_compaction-OnlyFails :
      (cid : String) (entry : CompactionEntry) (outcome : TurnOutcome) (text : Option String)
      (d : Drive)
      → OnlyFails
          (λ _. Ended cid)
          (close_compaction digest strip complete text_of should_compact manager cid entry outcome
            text d)
  unfolding close_compaction now_ms persist_entry
  close_compaction-OnlyFails cid entry outcome text d =
      let ts = now d.ledger in
      let d1 = record d { ledger = ticked d.ledger } in
      let stamped = Entry.compaction (record entry { ended_at = some ts }) in
      let out = complete d.ledger.session cid stamped in
      chain-OnlyFails {A = Entry} {B = Unit {0}} Anything (λ _. Ended cid)
        (persist_completed digest strip complete text_of should_compact manager cid out d1)
        (close_and_tell cid outcome text) (persist_completed-OnlyFails cid out d1)
        (λ final d' h. close_and_tell-OnlyFails cid outcome text final d')
