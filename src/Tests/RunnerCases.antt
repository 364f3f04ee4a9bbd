-- ===== src/Tests/RunnerCases.antt =====
-- The runner's reads of agent/core/runner.py on a session with one open turn and two calls.
use luca_py.Base.{ℕ, suc, String, ◌≡◌, ◌↔◌, refl, Bool, true, none, some, [], ◌∷◌}
use luca_py.Base.Dict.{Dict, get, values}
use luca_py.Models.Json.{Fields, end}
use luca_py.Models.Content.{ContentPart}
use luca_py.Models.Tools.{ExecutionStatus}
use luca_py.Models.Entries.{Entry, is_user}
use luca_py.Models.Path.{open_turn_index, open_turn_before, open_turn_cancel_requested, entry_at}
use luca_py.Models.Session.{AgentSession, Limit}
use luca_py.Models.Status.{busy, derive_status}
use luca_py.Ledger.{Ledger, now, ok, conversation}
use luca_py.Runner.DoomLoop.{
  is_doom_loop, counted, EndsInRepeats, is_doom_loop_iff, is_doom_loop_one, is_repeat, is_repeated,
  tail_of,
}
use luca_py.Runner.Posting.{
  Runner, posted, check_post, compaction_is_open, is_archived, user_message, add_recheck,
  post_message,
}
use luca_py.Runner.Queued.{post_message_queues}
use luca_py.Samples
use luca_py.Samples.{start_entry, user_entry, finish_entry, session, ledger}

abbrev ran : String → Entry
ran id = Entry.tool_execution (Samples.execution id ExecutionStatus.completed none)

abbrev store : Dict Entry
store = ("s", start_entry "s") ∷ ("a", ran "a") ∷ ("b", ran "b") ∷ []

abbrev with_threshold : ℕ → AgentSession
with_threshold n =
    let opened = session store ("s" ∷ "a" ∷ "b" ∷ []) in
    record opened {
      session_config = record opened.session_config {
        runtime_config = record opened.session_config.runtime_config {
          doom_loop_threshold = Limit.at n;
        };
      };
    }

abbrev same : Fields → Fields → Bool
same a b = true

main_found :
    (n : ℕ)
    → conversation (with_threshold n) "main"
      ≡ ok (Samples.conversation "main" ("s" ∷ "a" ∷ "b" ∷ []))
unfolding conversation get
main_found n = refl

is_doom_loop_iff_example :
    (flagged : Bool) × (is_doom_loop same (with_threshold 3) "main" Samples.call ≡ ok flagged)
    × ((flagged ≡ true)
        ↔ EndsInRepeats same Samples.call 2
            (counted (with_threshold 3) (Samples.conversation "main" ("s" ∷ "a" ∷ "b" ∷ []))))
is_doom_loop_iff_example =
    is_doom_loop_iff same (with_threshold 3) "main" Samples.call
      (Samples.conversation "main" ("s" ∷ "a" ∷ "b" ∷ [])) (main_found 3) 1 refl

-- The third identical call is flagged with a threshold of 3, and with a threshold of 1 it is not.
flagged_at_three :
    is_repeated same 2 Samples.call (
      Samples.execution "a" ExecutionStatus.completed none
      ∷ Samples.execution "b" ExecutionStatus.completed none
      ∷ [])
    ≡ true
unfolding is_repeated tail_of is_repeat
flagged_at_three = refl

is_doom_loop_one_example :
    (flagged : Bool) × (is_doom_loop same (with_threshold 1) "main" Samples.call ≡ ok flagged)
    × ((flagged ≡ true)
        ↔ (counted (with_threshold 1) (Samples.conversation "main" ("s" ∷ "a" ∷ "b" ∷ [])) ≡ []))
is_doom_loop_one_example =
    is_doom_loop_one same (with_threshold 1) "main" Samples.call
      (Samples.conversation "main" ("s" ∷ "a" ∷ "b" ∷ [])) (main_found 1) refl

abbrev answered : Ledger
answered = ledger (session (("s", start_entry "s") ∷ ("f", finish_entry "f") ∷ []) ("s" ∷ "f" ∷ []))

abbrev rest : Runner
rest = record { ledger = answered; recheck = [] }

abbrev hello : ContentPart
hello = ContentPart.text (record { text = "hello"; metadata = end; annotations = [] })

no_turn : open_turn_index ("s" ∷ "f" ∷ []) answered.session.entries ≡ none
unfolding open_turn_index open_turn_before entry_at get
no_turn = refl

post_passes : check_post 1 answered.session "main" ≡ some none
unfolding check_post open_turn_cancel_requested open_turn_index open_turn_before entry_at get values
    compaction_is_open is_archived
post_passes = refl

post_message_queues_example :
    (r' : Runner) × (post_message
        (λ spec. "hash")
        (λ target e. e)
        (λ target parts. parts)
        1
        (hello ∷ [])
        none
        rest
      ≡ some (posted (some "new"), r'))
    × (get r'.ledger.session.conversations "main"
        ≡ some (record (Samples.conversation "main" ("s" ∷ "f" ∷ "new" ∷ [])) {
          updated_at = now answered;
        }))
    × (get r'.ledger.session.entries "new"
        ≡ some (user_message (hello ∷ []) "new" (some "f") (now answered)))
    × (r'.recheck ≡ add_recheck "main" [])
    × ((n : ℕ) → derive_status (suc n) r'.ledger.session ("s" ∷ "f" ∷ "new" ∷ []) ≡ some busy)
unfolding get
post_message_queues_example =
    post_message_queues (λ spec. "hash") (λ target e. e) (λ target parts. parts) rest "main"
      (Samples.conversation "main" ("s" ∷ "f" ∷ [])) refl no_turn (refl, (refl, tt)) (λ e h. h)
      hello [] 1 none refl post_passes

is_message : is_user (get (("u", user_entry "u") ∷ []) "u") ≡ true
unfolding get
is_message = refl

empty_path : open_turn_index [] (("u", user_entry "u") ∷ []) ≡ none
unfolding open_turn_index open_turn_before
empty_path = refl
