-- ===== src/Runner/Rewinding.antt =====
-- `rewind_to` (agent/core/runner.py): truncate the main conversation through the ledger's
-- transition. Whether a run is live on it is an argument.
use text.Mathlib.Text.{◌==◌}
use text.Mathlib.TextPositions.{eq_refl}
use luca_py.Ledger.Pruning.{IsFirst, index_of_first}
use luca_py.Base.{
  length, has_length_iff, sym, Bool-cases, inl, inr, ℕ, suc, String, ◌≡◌, ◌≢◌, refl, ap, ◌∙◌, Bool,
  false, Option, none, some, List, [], if◌then◌else◌, is_some, take, has_length, arith,
}
use luca_py.Base.Dict.{get, contains}
use luca_py.Models.Tools.{ToolSpec}
use luca_py.Models.Path.{open_turn_index}
use luca_py.Models.Session.{Conversation}
use luca_py.Ledger.{
  LedgerError, Result, ok, err, Ledger, now, next_id, ticked, advanced, conversation,
  write_conversation,
}
use luca_py.Ledger.Records.{index_of}
use luca_py.Ledger.Transition.{
  Transition, transition_conversation, preconditions, check_updates, check_created, commit,
  file_all, incoming,
}
use luca_py.Ledger.Archiving.{transition_runs, commit_conversations}

pub data RewindError : Type 0 where
  running open_turn not_on_path inside_bracket : RewindError

pub data RewindOutcome : Type 0 where
  returned : Conversation → RewindOutcome
  refused : RewindError → RewindOutcome
  failed : LedgerError → RewindOutcome

-- 0, or `nodes.index(entry_id) + 1`
unfoldable pub cut_of : Option String → List String → Option ℕ
cut_of none nodes = some 0
cut_of (some id) nodes = elim (index_of id nodes) [ none ↦ none | some i ↦ some (suc i) ]

abbrev pub truncation : List String → ℕ → Transition
truncation prefix ts = record {
  updates = [];
  created = [];
  closing = none;
  nodes = prefix;
  ts = ts;
}

abbrev pub rewind_outcome : Result Conversation × Ledger → RewindOutcome × Ledger
rewind_outcome (err e, l) = (failed e, l)
rewind_outcome (ok c, l) = (returned c, l)

-- How many nodes a rewind keeps: none without an entry, and else those up to its first place.
abbrev pub IsCut : Option String → List String → ℕ → Type 0
IsCut none nodes cut = cut ≡ 0
IsCut (some id) nodes cut = (i : ℕ) × (cut ≡ suc i) × IsFirst id nodes i

cut_of-IsCut :
    (entry_id : Option String) (nodes : List String) (cut : ℕ)
    → IsCut entry_id nodes cut
    → cut_of entry_id nodes ≡ some cut
unfolding cut_of
cut_of-IsCut none nodes cut h = ap some (sym h)
cut_of-IsCut (some id) nodes cut (i, e, first) =
    rw (index_of_first id nodes i first, cut_of) (ap some (sym e))

not_whole : (nodes : List String) (cut : ℕ) → length nodes ≢ cut → has_length nodes cut ≡ false
not_whole nodes cut h = elim (Bool-cases (has_length nodes cut)) [
  | inr n ↦ n
  | inl y ↦ absurd (h ((has_length_iff nodes cut).0 y))
]

module _ (digest : ToolSpec → String) where
  -- From `if cut == len(nodes)` on.
  unfoldable pub rewind_cut : ℕ → Conversation → Ledger → RewindOutcome × Ledger
  rewind_cut cut c l =
      if has_length c.nodes cut
      then (returned c, l)
      else if is_some (open_turn_index (take cut c.nodes) l.session.entries)
      then (refused inside_bracket, l)
      else rewind_outcome (
          transition_conversation digest l.session.main_conversation_id
            (truncation (take cut c.nodes) (now l)) (ticked l))

  unfoldable pub rewind_at : Option ℕ → Conversation → Ledger → RewindOutcome × Ledger
  rewind_at none c l = (refused not_on_path, l)
  rewind_at (some cut) c l = rewind_cut cut c l

  unfoldable pub rewind_in :
      Bool → Option String → Result Conversation → Ledger → RewindOutcome × Ledger
  rewind_in is_running entry_id (err e) l = (failed e, l)
  rewind_in is_running entry_id (ok c) l =
      if is_running
      then (refused running, l)
      else if is_some (open_turn_index c.nodes l.session.entries)
      then (refused open_turn, l)
      else rewind_at (cut_of entry_id c.nodes) c l

  unfoldable pub rewind_to : Bool → Option String → Ledger → RewindOutcome × Ledger
  rewind_to is_running entry_id l =
      rewind_in is_running entry_id (conversation l.session l.session.main_conversation_id) l

  module _ (l : Ledger) (c : Conversation) (entry_id : Option String) (cut : ℕ)
      (found : get l.session.conversations l.session.main_conversation_id ≡ some c)
      (closed : open_turn_index c.nodes l.session.entries ≡ none)
      (on_path : cut_of entry_id c.nodes ≡ some cut) where
    rewind_to_cut : rewind_to false entry_id l ≡ rewind_cut cut c l
    unfolding rewind_to rewind_in rewind_at conversation
    rewind_to_cut =
        rw (found, rewind_to, conversation) (rw (closed, rewind_in) (rw (on_path, rewind_at) refl))

    abbrev step : Transition
    step = truncation (take cut c.nodes) (now l)

    abbrev main_id : String
    main_id = l.session.main_conversation_id

    checks_pass : preconditions l.session main_id step ≡ none
    unfolding preconditions check_updates check_created
    checks_pass = rw (eq_refl main_id, preconditions) refl

    rewind_to_runs :
        has_length c.nodes cut ≡ false
        → open_turn_index (take cut c.nodes) l.session.entries ≡ none
        → contains l.session.conversations (next_id l) ≡ false
        → rewind_to false entry_id l ≡ (
          returned (incoming (next_id l) step c),
          record (advanced (ticked l)) {
            session = commit digest main_id (next_id l) step c l.session;
          },
        )
    unfolding rewind_cut
    rewind_to_runs shorter outside fresh =
        rewind_to_cut
        ∙ rw (shorter, rewind_cut)
            (rw (outside, rewind_cut)
              (ap rewind_outcome
                (transition_runs digest main_id step (ticked l) c found checks_pass fresh)))

  -- `rewind_to` with no live run, in a main conversation with no open turn, where the entry is on the
  -- path and not at its end, or is none and the path is not empty, the prefix up to and with its first
  -- place opens no turn, and the new id is free: the main name moves to a successor over this prefix,
  -- which names the old conversation as its predecessor and has its depth; the old conversation keeps
  -- its path; no other conversation and no entry changes.
  pub rewind_to_installs :
      (l : Ledger) (c : Conversation) (entry_id : Option String) (cut : ℕ) (j : String)
      → get l.session.conversations l.session.main_conversation_id ≡ some c
      → open_turn_index c.nodes l.session.entries ≡ none
      → IsCut entry_id c.nodes cut
      → length c.nodes ≢ cut
      → open_turn_index (take cut c.nodes) l.session.entries ≡ none
      → contains l.session.conversations (next_id l) ≡ false
      → let (out, l') = rewind_to false entry_id l in
        (successor : Conversation) × (out ≡ returned successor)
        × (successor ≡ record {
          id = next_id l;
          nodes = take cut c.nodes;
          created_at = now l;
          updated_at = now l;
          previous_conversation_id = some c.id;
          depth = c.depth;
        })
        × (l'.session.main_conversation_id ≡ next_id l)
        × (l'.session.entries ≡ l.session.entries)
        × (get l'.session.conversations j ≡ (
            if next_id l == j
            then some successor
            else if l.session.main_conversation_id == j
            then some (record c { updated_at = now l })
            else get l.session.conversations j))
  unfolding commit file_all write_conversation
  rewind_to_installs l c entry_id cut j found closed at shorter outside fresh =
      let step = truncation (take cut c.nodes) (now l) in
      rw
        (rewind_to_runs l c entry_id cut found closed (cut_of-IsCut entry_id c.nodes cut at)
          (not_whole c.nodes cut shorter) outside fresh)
        (
          _,
          refl,
          refl,
          refl,
          refl,
          commit_conversations digest step l.session l.session.main_conversation_id (next_id l) j c,
        )

  outcome_not_refused :
      (p : Result Conversation × Ledger) (e : RewindError) → (rewind_outcome p).0 ≢ refused e
  outcome_not_refused (err x, l) e h = ground arith
  outcome_not_refused (ok c, l) e h = ground arith

  rewind_cut_refuses :
      (cut : ℕ) (c : Conversation) (l : Ledger) (e : RewindError)
      → (rewind_cut cut c l).0 ≡ refused e
      → (rewind_cut cut c l).1 ≡ l
  unfolding rewind_cut
  rewind_cut_refuses cut c l e h = ground (
    arith,
    outcome_not_refused
        (transition_conversation digest l.session.main_conversation_id
          (truncation (take cut c.nodes) (now l)) (ticked l))
        e,
  )

  rewind_at_refuses :
      (cut : Option ℕ) (c : Conversation) (l : Ledger) (e : RewindError)
      → (rewind_at cut c l).0 ≡ refused e
      → (rewind_at cut c l).1 ≡ l
  unfolding rewind_at
  rewind_at_refuses none c l e h = refl
  rewind_at_refuses (some cut) c l e h = rewind_cut_refuses cut c l e h

  rewind_in_refuses :
      (is_running : Bool) (entry_id : Option String) (found : Result Conversation) (l : Ledger)
      (e : RewindError)
      → (rewind_in is_running entry_id found l).0 ≡ refused e
      → (rewind_in is_running entry_id found l).1 ≡ l
  unfolding rewind_in
  rewind_in_refuses is_running entry_id (err x) l e h = refl
  rewind_in_refuses is_running entry_id (ok c) l e h =
      ground (arith, rewind_at_refuses (cut_of entry_id c.nodes) c l e)

  -- A refused `rewind_to` has changed nothing, neither the session nor the clock and the ids.
  pub rewind_to_refuses :
      (is_running : Bool) (entry_id : Option String) (l : Ledger) (e : RewindError)
      → (rewind_to is_running entry_id l).0 ≡ refused e
      → (rewind_to is_running entry_id l).1 ≡ l
  unfolding rewind_to
  rewind_to_refuses is_running entry_id l e h =
      rewind_in_refuses is_running entry_id (conversation l.session l.session.main_conversation_id)
        l e h
