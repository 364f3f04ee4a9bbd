-- ===== src/Tests/LedgerCases.antt =====
-- The doors of agent/core/ledger.py on a session with one open turn.
use text.Mathlib.TextEquality.{eq_iff}
use text.Mathlib.Text.{◌==◌}
use mathlib.Core.Option.{some-injective}
use luca_py.Base.{
  ℕ, zero, suc, ◌<◌, ◌≢◌, String, ◌≡◌, refl, Option, none, some, [], ◌∷◌, arith, inl, inr,
  if◌then◌else◌, get_elem?, subst, Bool-cases,
}
use luca_py.Base.Dict.{Dict, get, put}
use luca_py.Models.Tools.{ToolSpec}
use luca_py.Models.Entries.{Entry, PrunedEntry}
use luca_py.Models.Session.{Conversation}
use luca_py.Ledger.{Ledger, ok, err, no_conversation, append, put_entry, conversation}
use luca_py.Ledger.Records.{prune}
use luca_py.Ledger.Transition.{
  Transition, transition_conversation, preconditions, check_updates, check_created, incoming,
}
use luca_py.Ledger.Invariant.{IsWellFormed, IsFiled}
use luca_py.Ledger.Append.{append_writes}
use luca_py.Ledger.Updates.{put_entry_writes_before_raising}
use luca_py.Ledger.Pruning.{IsFirst, prune_writes}
use luca_py.Ledger.Archiving.{transition_atomic}
use luca_py.Ledger.Archiving.Moving.{Transitioned, transition-Transitioned}
use luca_py.Ledger.Invariant.Contents.{StoredAs}
use luca_py.Ledger.Lifecycle.{here, next, transitioned, updated, Reaches-IsWellFormed}
use luca_py.Samples
use luca_py.Samples.{
  start_entry, user_entry, finish_entry, pruned_entry, gated_entry, echo, session, ledger,
}

abbrev digest : ToolSpec → String
digest spec = spec.name

abbrev store : Dict Entry
store = ("s", start_entry "s") ∷ ("u", user_entry "u") ∷ []

abbrev opened : Ledger
opened = ledger (session store ("s" ∷ "u" ∷ []))

abbrev main : Conversation
main = Samples.conversation "main" ("s" ∷ "u" ∷ [])

abbrev call : String → Option String → ℕ → Entry
call id parent ts = gated_entry id

opened-IsWellFormed : IsWellFormed digest opened.session
unfolding get
opened-IsWellFormed = record {
  paths = λ id c h. ground (arith, eq_iff "main" id);
  named = λ id c h. ground (arith, eq_iff "main" id);
  keyed = λ id e h. ground (arith, eq_iff "s" id, eq_iff "u" id);
  filed = λ id e h. elim (Bool-cases ("s" == id)) [
    | inl p ↦ let same : start_entry "s" ≡ e = ground arith in subst (IsFiled []) same tt
    | inr p ↦ elim (Bool-cases ("u" == id)) [
      | inl q ↦ let same : user_entry "u" ≡ e = ground arith in subst (IsFiled []) same tt
      | inr q ↦ absurd (ground arith)
    ]
  ];
  hashed = λ id spec h. absurd (ground arith);
  main = refl;
  used = λ cid row id u h g. absurd (ground arith);
}

append_writes_example :
    let (r, l') = append digest "main" call opened in
    (entry : Entry) × (r ≡ ok entry)
    × StoredAs digest (gated_entry "new") entry
    × IsFiled l'.session.tool_specs entry
    × (get l'.session.entries "new" ≡ (if "new" == "new" then some entry else none))
    × (get l'.session.conversations "main" ≡ (
        if "main" == "main"
        then some (record main { nodes = "s" ∷ "u" ∷ "new" ∷ []; updated_at = 10 })
        else some main))
    × (l'.session.usages ≡ [])
    × (l'.session.main_conversation_id ≡ "main")
unfolding get
append_writes_example = append_writes digest "main" call opened main refl "new" "main"

put_entry_writes_before_raising_example :
    let (r, l') = put_entry digest "gone" (finish_entry "s") opened in
    (stored : Entry) × (r ≡ err no_conversation)
    × StoredAs digest (finish_entry "s") stored
    × IsFiled l'.session.tool_specs stored
    × (l'.session.entries ≡ put opened.session.entries "s" stored)
unfolding get
put_entry_writes_before_raising_example =
    put_entry_writes_before_raising digest "gone" (finish_entry "s") opened "s" refl refl refl

abbrev shorten : String → Option String → ℕ → PrunedEntry
shorten id parent ts = pruned_entry "u" id

second : IsFirst "u" ("s" ∷ "u" ∷ []) 1
second = (refl, early)
  where
    early : (m : ℕ) → m < 1 → get_elem? {A = String} ("s" ∷ "u" ∷ []) m ≢ some "u"
    early zero h e = ground (arith, (eq_iff "s" "u").1 (some-injective _ _ e))
    early (suc m) h e = ground (arith, h)

prune_writes_example :
    let (r, l') = prune "main" "u" shorten opened in
    (r ≡ ok (pruned_entry "u" "new"))
    × (get l'.session.entries "u" ≡ (
        if "new" == "u"
        then some (Entry.pruned (pruned_entry "u" "new"))
        else some (user_entry "u")))
    × (get l'.session.conversations "main" ≡ (
        if "main" == "main"
        then some (record main { nodes = "s" ∷ "new" ∷ []; updated_at = 10 })
        else some main))
    × (l'.session.usages ≡ [])
    × (l'.session.tool_specs ≡ [])
    × (l'.session.main_conversation_id ≡ "main")
unfolding get
prune_writes_example =
    prune_writes "main" "u" shorten opened (λ id parent ts. refl) main (user_entry "u") 1 "u" "main"
      refl refl refl second refl refl

abbrev compacted : Transition
compacted = record {
  updates = [];
  created = user_entry "summary" ∷ [];
  closing = some (finish_entry "f");
  nodes = "summary" ∷ "u" ∷ [];
  ts = 7;
}

transition_atomic_example :
    (transition_conversation digest "old" compacted opened).1.session ≡ opened.session
unfolding transition_conversation conversation get
transition_atomic_example = transition_atomic digest "old" compacted opened no_conversation refl

transition-Transitioned_example :
    Transitioned digest "main" compacted opened
      (transition_conversation digest "main" compacted opened)
transition-Transitioned_example = transition-Transitioned digest "main" compacted opened

-- The transition returns.
moves :
    (transition_conversation digest "main" compacted opened).0 ≡ ok (incoming "new" compacted main)
unfolding transition_conversation conversation preconditions check_updates check_created get
moves = refl

abbrev grown : Ledger
grown = (append digest "main" call opened).1

Reaches-IsWellFormed_example :
    IsWellFormed digest
      (put_entry digest "main"
        (gated_entry "new")
        (transition_conversation digest "main" compacted opened).1).1.session
unfolding get
Reaches-IsWellFormed_example = Reaches-IsWellFormed digest opened-IsWellFormed (
    next (next here (transitioned "main" compacted (inr (inl refl), (inl refl, tt))))
      (updated "main" (gated_entry "new")))
