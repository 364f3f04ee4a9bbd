-- ===== src/Runner/Scheduled.antt =====
-- A compaction that has been scheduled (agent/core/runner.py) is found again.
use text.Mathlib.Text.{◌==◌}
use luca_py.Base.{
  ℕ, ◌+◌, String, ◌≡◌, refl, sym, ap, ◌∙◌, subst, ◌⊎◌, inl, inr, true, false, Option, none, some,
  List, [], ◌∷◌, ◌++◌, arith, Option-cases, last?, length, is_some,
}
use mathlib.Core.List.{append_assoc}
use luca_py.Base.Dict.{Dict, get, put, get-put, get-put_self}
use luca_py.Models.Tools.{ToolSpec}
use luca_py.Models.Entries.{
  Entry, CompactionEntry, CompactionSource, entry_id, as_compaction, as_tool_execution,
  is_turn_start,
}
use luca_py.Models.Path
use luca_py.Models.Path.{entry_at, is_compaction_bracket}
use luca_py.Models.Path.OpenTurn.{IsTurn, open_turn_index-append}
use luca_py.Models.Session.{AgentSession, Conversation}
use luca_py.Models.Status.Closing.{bracket_at, next_at}
use luca_py.Ledger.{
  ok, err, no_conversation, Result, Ledger, ticked, advanced, next_id, now, append, conversation,
  file_entry, store_tool_spec, write_entry, write_conversation,
}
use luca_py.Ledger.Append.{append_found}
use luca_py.Ledger.Reads.{open_turn_index, open_compaction_entry}
use luca_py.Runner.Scheduling.{
  turn_start_entry, new_compaction, scheduled, append_compaction, open_compaction_bracket,
  schedule_from, schedule_compaction, ScheduleError, Scheduled, open_turn, failed,
}

-- An entry that is no execution has no tool spec to file.
file_entry_plain :
    (digest : ToolSpec → String) (id : String) (e : Entry) (session : AgentSession)
    → as_tool_execution (some e) ≡ none
    → file_entry digest id e session ≡ (e, write_entry id e session)
unfolding file_entry store_tool_spec
file_entry_plain digest id e session h = ground arith

start_plain : (e : Entry) → is_turn_start (some e) ≡ true → as_tool_execution (some e) ≡ none
start_plain e h = ground arith

read_compaction :
    (session : AgentSession) (id : String) (c : Conversation)
    → get session.conversations id ≡ some c
    → open_compaction_entry session id ≡ ok (Path.open_compaction_entry c.nodes session.entries)
unfolding open_compaction_entry conversation
read_compaction session id c h = ground (arith, h)

refuses :
    (l : Ledger) (e : ScheduleError) (id : Option String) (l' : Ledger)
    → ◌≡◌ {A = Scheduled} (inl e, l) (inr id, l')
    → ⊥
refuses l e id l' h =
    let h' : ◌≡◌ {A = ScheduleError ⊎ Option String} (inl e) (inr id) = ap (λ p. p.0) h in
    ground (arith, h')

-- On a path that ends with a TurnStart and an unfinished compaction entry, that entry is found.
found_again :
    (before : List String) (a b : String) (entries : Dict Entry) (cmp : CompactionEntry)
    → is_turn_start (get entries a) ≡ true
    → get entries b ≡ some (Entry.compaction cmp)
    → cmp.parts ≡ none
    → Path.open_compaction_entry (before ++ a ∷ b ∷ []) entries ≡ some cmp
unfolding Path.open_compaction_entry
found_again before a b entries cmp starts there unfinished =
    let turn : IsTurn entries (a ∷ b ∷ []) = (starts, (rw there (refl, refl), tt)) in
    let bracket : is_compaction_bracket (before ++ a ∷ b ∷ []) entries (length before + 0) ≡ true =
      bracket_at before (a ∷ b ∷ []) entries ∙ ap (λ e. is_some (as_compaction e)) there in
    let at : entry_at (before ++ a ∷ b ∷ []) entries (length before + 0 + 1)
        ≡ some (Entry.compaction cmp) =
      unfold entry_at in (next_at before [] a b entries ∙ there) in
    rw (open_turn_index-append before (a ∷ b ∷ []) entries turn, Path.open_compaction_entry)
      (rw (bracket, at) (rw unfinished refl))

module _ (digest : ToolSpec → String) (complete : String → Entry → Entry) (l : Ledger)
    (keeps_start : (cid id : String) (parent : Option String) (ts : ℕ)
      → is_turn_start (some (complete cid (turn_start_entry id parent ts))) ≡ true)
    (keeps_compaction : (cid : String) (e : CompactionEntry)
      → (e' : CompactionEntry) × (complete cid (Entry.compaction e) ≡ Entry.compaction e')
        × (e'.parts ≡ e.parts))
    (distinct : (l.gen_id (l.minted + 1) == l.gen_id l.minted) ≡ false) where
  abbrev main : String
  main = l.session.main_conversation_id

  abbrev start_id : String
  start_id = next_id l

  -- The two appends on a main conversation that is there.
  module _ (c : Conversation) (found : get l.session.conversations main ≡ some c) where
    abbrev start : Entry
    start = complete main (turn_start_entry start_id (last? c.nodes) (now l))

    abbrev c1 : Conversation
    c1 = record c { nodes = c.nodes ++ start_id ∷ []; updated_at = now l }

    abbrev l1 : Ledger
    l1 = record (advanced (ticked l)) {
      session = write_conversation main c1 (write_entry start_id start l.session);
    }

    append-start :
        append digest main (λ id parent ts. complete main (turn_start_entry id parent ts)) l
        ≡ (ok start, l1)
    append-start =
        append_found digest main (λ id parent ts. complete main (turn_start_entry id parent ts)) l c
          found
        ∙ ap
            (λ p.
              (ok p.0, record (advanced (ticked l)) { session = write_conversation main c1 p.1 }))
            (file_entry_plain digest start_id start l.session
              (start_plain start (keeps_start main start_id (last? c.nodes) (now l))))

    abbrev cmp : CompactionEntry
    cmp =
        (keeps_compaction main
          (new_compaction CompactionSource.user (next_id l1) (last? c1.nodes) (now l1))).0

    abbrev c2 : Conversation
    c2 = record c1 { nodes = c1.nodes ++ next_id l1 ∷ []; updated_at = now l1 }

    abbrev l2 : Ledger
    l2 = record (advanced (ticked l1)) {
      session =
          write_conversation main c2 (write_entry (next_id l1) (Entry.compaction cmp) l1.session);
    }

    found1 : get l1.session.conversations main ≡ some c1
    unfolding write_conversation write_entry
    found1 = get-put_self l.session.conversations main c1

    abbrev compaction : Entry
    compaction = complete main (
        Entry.compaction
          (new_compaction CompactionSource.user (next_id l1) (last? c1.nodes) (now l1)))

    compaction_kept : compaction ≡ Entry.compaction cmp
    compaction_kept =
        (keeps_compaction main
          (new_compaction CompactionSource.user (next_id l1) (last? c1.nodes) (now l1))).1

    bracket_opened :
        open_compaction_bracket digest complete main CompactionSource.user l
        ≡ (ok (Entry.compaction cmp), l2)
    unfolding open_compaction_bracket
    bracket_opened =
        ap (append_compaction digest complete main CompactionSource.user) append-start
        ∙ append_found digest main
            (λ id parent ts.
              complete main (Entry.compaction (new_compaction CompactionSource.user id parent ts)))
            l1 c1 found1
        ∙ ap
            (λ p.
              (ok p.0, record (advanced (ticked l1)) { session = write_conversation main c2 p.1 }))
            (ap (λ e. file_entry digest (next_id l1) e l1.session) compaction_kept
              ∙ file_entry_plain digest (next_id l1) (Entry.compaction cmp) l1.session refl)

    found_in_path : Path.open_compaction_entry c2.nodes l2.session.entries ≡ some cmp
    unfolding write_conversation write_entry
    found_in_path =
        let there : get l2.session.entries start_id ≡ some start =
          get-put (put l.session.entries start_id start) (next_id l1) start_id
            (Entry.compaction cmp)
          ∙ rw distinct (get-put_self l.session.entries start_id start) in
        let starts : is_turn_start (get l2.session.entries start_id) ≡ true =
          ap is_turn_start there ∙ keeps_start main start_id (last? c.nodes) (now l) in
        ap (λ nodes. Path.open_compaction_entry nodes l2.session.entries)
          (append_assoc c.nodes (start_id ∷ []) (next_id l1 ∷ []))
        ∙ found_again c.nodes start_id (next_id l1) l2.session.entries cmp starts
            (get-put_self (put l.session.entries start_id start) (next_id l1)
              (Entry.compaction cmp))
            (keeps_compaction main
              (new_compaction CompactionSource.user (next_id l1) (last? c1.nodes) (now l1))).2

    compaction_found : open_compaction_entry l2.session main ≡ ok (some cmp)
    unfolding write_conversation write_entry
    compaction_found =
        read_compaction l2.session main c2
          (get-put_self (put l.session.conversations main c1) main c2)
        ∙ ap ok found_in_path

    again_after_append :
        (id : Option String) (l' : Ledger)
        → scheduled (open_compaction_bracket digest complete main CompactionSource.user l)
          ≡ (inr id, l')
        → schedule_compaction digest complete l' ≡ (inr id, l')
    unfolding schedule_compaction write_conversation write_entry
    again_after_append id l' h =
        let e : ◌≡◌ {A = _} (inr (entry_id (Entry.compaction cmp)), l2) (inr id, l') =
          sym (ap scheduled bracket_opened) ∙ h in
        subst (λ p. schedule_compaction digest complete p.1 ≡ p) e (rw compaction_found refl)

  -- The reads fail on a main conversation that is not there.
  no_main_read :
      get l.session.conversations main ≡ none
      → open_compaction_entry l.session main ≡ err no_conversation
  unfolding open_compaction_entry conversation
  no_main_read h = ground (arith, h)

  -- A call of `schedule_compaction` that returns has armed the session: a second call behind it
  -- returns the same id and writes nothing. It takes that the two minted ids differ, and that the
  -- hooks leave a TurnStart one and a compaction entry an unfinished one.
  pub schedule_compaction_idempotent :
      (id : Option String) (l' : Ledger)
      → schedule_compaction digest complete l ≡ (inr id, l')
      → schedule_compaction digest complete l' ≡ (inr id, l')
  unfolding schedule_compaction
  schedule_compaction_idempotent id l' h = elim (Option-cases (get l.session.conversations main)) [
    | inl e ↦ absurd (
        refuses l (failed no_conversation) id l' (
          sym (
            ap (λ r. schedule_from digest complete r (open_turn_index l.session main) l)
              (no_main_read e))
          ∙ h))
    | inr (c, found) ↦
        cases c found (open_compaction_entry l.session main) (open_turn_index l.session main) refl h
  ]
    where
      cases :
          (c : Conversation)
          → get l.session.conversations main ≡ some c
          → (existing : Result (Option CompactionEntry)) (turn : Result (Option ℕ))
          → schedule_compaction digest complete l ≡ schedule_from digest complete existing turn l
          → schedule_from digest complete existing turn l ≡ (inr id, l')
          → schedule_compaction digest complete l' ≡ (inr id, l')
      cases c found (err e) turn same k = absurd (refuses l (failed e) id l' k)
      cases c found (ok (some existing)) turn same k =
          ap (schedule_compaction digest complete) (sym (ap (λ p. p.1) k)) ∙ (same ∙ k)
      cases c found (ok none) (err e) same k = absurd (refuses l (failed e) id l' k)
      cases c found (ok none) (ok (some index)) same k = absurd (refuses l open_turn id l' k)
      cases c found (ok none) (ok none) same k = again_after_append c found id l' k
