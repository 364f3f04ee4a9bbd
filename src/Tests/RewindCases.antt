-- ===== src/Tests/RewindCases.antt =====
-- `rewind_to` of agent/core/runner.py on a closed turn with a message queued behind it.
use text.Mathlib.Text.{◌==◌}
use text.Mathlib.TextEquality.{eq_iff}
use mathlib.Core.Option.{some-injective}
use luca_py.Base.{
  ℕ, zero, suc, ◌<◌, ◌≢◌, arith, get_elem?, String, ◌≡◌, refl, false, none, some, [], ◌∷◌,
  if◌then◌else◌,
}
use luca_py.Base.Dict.{get}
use luca_py.Models.Path.{open_turn_index, open_turn_before, entry_at}
use luca_py.Models.Session.{Conversation}
use luca_py.Models.Tools.{ToolSpec}
use luca_py.Ledger.{Ledger, conversation}
use luca_py.Ledger.Records.{index_of}
use luca_py.Runner.Rewinding.{
  rewind_to, rewind_in, rewind_at, rewind_cut, cut_of, returned, refused, inside_bracket, IsCut,
  rewind_to_installs, rewind_to_refuses,
}
use luca_py.Samples
use luca_py.Samples.{start_entry, user_entry, finish_entry, session, ledger}

abbrev digest : ToolSpec → String
digest spec = spec.name

abbrev queued : Ledger
queued = ledger (
    session (("s", start_entry "s") ∷ ("f", finish_entry "f") ∷ ("u", user_entry "u") ∷ [])
      ("s" ∷ "f" ∷ "u" ∷ []))

abbrev main : Conversation
main = Samples.conversation "main" ("s" ∷ "f" ∷ "u" ∷ [])

no_turn : open_turn_index ("s" ∷ "f" ∷ "u" ∷ []) queued.session.entries ≡ none
unfolding open_turn_index open_turn_before entry_at get
no_turn = refl

prefix_closed : open_turn_index ("s" ∷ "f" ∷ []) queued.session.entries ≡ none
unfolding open_turn_index open_turn_before entry_at get
prefix_closed = refl

finish_at : IsCut (some "f") ("s" ∷ "f" ∷ "u" ∷ []) 2
finish_at = (1, refl, (refl, early))
  where
    early : (m : ℕ) → m < 1 → get_elem? {A = String} ("s" ∷ "f" ∷ "u" ∷ []) m ≢ some "f"
    early zero h e = ground (arith, (eq_iff "s" "f").1 (some-injective _ _ e))
    early (suc m) h e = ground (arith, h)

rewind_to_installs_example :
    let (out, l') = rewind_to digest false (some "f") queued in
    (successor : Conversation) × (out ≡ returned successor)
    × (successor ≡ record {
      id = "new";
      nodes = "s" ∷ "f" ∷ [];
      created_at = 10;
      updated_at = 10;
      previous_conversation_id = some "main";
      depth = 0;
    })
    × (l'.session.main_conversation_id ≡ "new")
    × (l'.session.entries ≡ queued.session.entries)
    × (get l'.session.conversations "main" ≡ (
        if "new" == "main"
        then some successor
        else if "main" == "main"
        then some (record main { updated_at = 10 })
        else get queued.session.conversations "main"))
unfolding get
rewind_to_installs_example =
    rewind_to_installs digest queued main (some "f") 2 "main" refl no_turn finish_at
      (λ e. ground (arith, e)) prefix_closed refl

cut_inside : (rewind_to digest false (some "s") queued).0 ≡ refused inside_bracket
unfolding rewind_to rewind_in rewind_at rewind_cut cut_of index_of conversation get open_turn_index
    open_turn_before entry_at
cut_inside = refl

rewind_to_refuses_example : (rewind_to digest false (some "s") queued).1 ≡ queued
rewind_to_refuses_example =
    rewind_to_refuses digest false (some "s") queued inside_bracket cut_inside
