-- ===== src/Tests/StatusCases.antt =====
-- Runs of the status derivation of agent/core/models.py, and its theorems at concrete paths.
use text.Mathlib.Text.{◌==◌}
use text.Mathlib.TextEquality.{eq_iff}
use luca_py.Base.{
  if◌then◌else◌, none, inl, inr, Bool-cases, ℕ, String, ◌≡◌, refl, some, List, [], ◌∷◌, ◌++◌, arith,
  subst, All, ◌<◌, ◌↔◌,
}
use luca_py.Base.Dict.{Dict, get}
use luca_py.Models.Entries.{Entry, ChildConversation}
use luca_py.Models.Path.{
  open_turn_index, open_turn_before, entry_at, open_turn_cancel_requested, select,
  open_turn_unresolved_children, open_turn_is_runnable, open_turn_has_advanceable_executions,
  open_turn_executions, is_advanceable, open_turn_unseen_post, last_assistant_index,
  last_assistant_before, end_before_closed_compaction_brackets, skip_brackets, closed_bracket_start,
  is_compaction_bracket,
}
use luca_py.Models.Path.OpenTurn.{IsTurn, IsOpenBefore, open_turn_index_iff}
use luca_py.Models.Session.{AgentSession, Conversation}
use luca_py.Models.Status.{
  ConversationRuntimeStatus, busy, idle, blocked, derive_status, get_conversation_status,
  derive_step, open_status, open_turn_alone, closed_status, parent_waits, any_child_advances,
}
use luca_py.Models.Status.Termination.{IsRanked, get_conversation_status_total}
use luca_py.Models.Status.Locality.{derive_status-append}
use luca_py.Models.Status.Closing.{closed_compaction_transparent}
use luca_py.Models.Status.Posting.{post_wakes}
use luca_py.Samples.{
  start_entry, finish_entry, user_entry, assistant_entry, compaction_entry, gated_entry, session,
  conversation, base,
}

abbrev store : Dict Entry
store =
    ("s", start_entry "s")
    ∷ ("u", user_entry "u")
    ∷ ("a", assistant_entry "a")
    ∷ ("x", gated_entry "x")
    ∷ ("p", user_entry "p")
    ∷ ("f", finish_entry "f")
    ∷ ("c", compaction_entry "c")
    ∷ []

abbrev gated : List String
gated = "s" ∷ "u" ∷ "a" ∷ "x" ∷ []

abbrev demo : List String → AgentSession
demo nodes = session store nodes

-- Opens the functions that a run of the derivation calls.
abbrev status_runs : ℕ
unfolding derive_status derive_step open_status open_turn_alone closed_status parent_waits
    open_turn_index open_turn_before entry_at get open_turn_cancel_requested select
    open_turn_unresolved_children open_turn_is_runnable open_turn_has_advanceable_executions
    open_turn_executions is_advanceable open_turn_unseen_post last_assistant_index
    last_assistant_before end_before_closed_compaction_brackets skip_brackets closed_bracket_start
    is_compaction_bracket any_child_advances
status_runs = 0

gated_is_blocked : derive_status 1 (demo gated) gated ≡ some blocked
unfolding status_runs
gated_is_blocked = refl

-- A message posted behind the gate wakes the conversation.
post_is_busy : derive_status 1 (demo gated) (gated ++ "p" ∷ []) ≡ some busy
unfolding status_runs
post_is_busy = refl

closed_is_idle : derive_status 1 (demo gated) (gated ++ "f" ∷ []) ≡ some idle
unfolding status_runs
closed_is_idle = refl

-- A compaction that closed behind a queued message does not bury it.
compacted_is_busy : derive_status 1 (demo []) ("u" ∷ "s" ∷ "c" ∷ "f" ∷ []) ≡ some busy
unfolding status_runs
compacted_is_busy = refl

demo-IsRanked :
    (nodes : List String)
    → open_turn_unresolved_children nodes store ≡ []
    → IsRanked (demo nodes) (λ id. 0)
unfolding get
demo-IsRanked nodes h = record {
  below = λ id c found.
      let same : nodes ≡ c.nodes = ground arith in
      subst (λ path. All (λ child. 0 < 0) (open_turn_unresolved_children path store)) same
        (rw h tt);
}

gated-IsTurn : IsTurn store gated
unfolding get
gated-IsTurn = (refl, ((refl, refl), ((refl, refl), ((refl, refl), tt))))

compaction-IsTurn : IsTurn store ("s" ∷ "c" ∷ [])
unfolding get
compaction-IsTurn = (refl, ((refl, refl), tt))

no_children : open_turn_unresolved_children gated store ≡ []
unfolding status_runs
no_children = refl

no_children_posted : open_turn_unresolved_children (gated ++ "p" ∷ []) store ≡ []
unfolding status_runs
no_children_posted = refl

open_turn_index_iff_example : (open_turn_index gated store ≡ some 0) ↔ IsOpenBefore gated store 4 0
open_turn_index_iff_example = open_turn_index_iff gated store 0

-- A turn that waits for a subagent, whose own turn is open.
abbrev parent : AgentSession
parent =
    record (session
      (("s", start_entry "s")
        ∷ (
          "k",
          Entry.child_conversation (record {
            base = base "k" none;
            conversation_id = "sub";
            tool_execution_id = "x";
            execution_result = none;
            result_execution_id = none;
          }),
        )
        ∷ ("t", start_entry "t")
        ∷ [])
      ("s" ∷ "k" ∷ [])) {
        conversations =
            ("main", conversation "main" ("s" ∷ "k" ∷ []))
            ∷ ("sub", conversation "sub" ("t" ∷ []))
            ∷ [];
      }

abbrev rank : String → ℕ
rank id = if id == "main" then 1 else 0

parent-IsRanked : IsRanked parent rank
unfolding get status_runs
parent-IsRanked = record {
  below = λ id c found. elim (Bool-cases ("main" == id)) [
    | inl is_main ↦
        let same : conversation "main" ("s" ∷ "k" ∷ []) ≡ c = ground (arith, found) in
        let named : "main" ≡ id = (eq_iff "main" id).0 is_main in
        subst
          (λ (x : Conversation).
            All (λ child. rank child.conversation_id < rank id)
              (open_turn_unresolved_children x.nodes parent.entries))
          same
          (subst
            (λ k.
              All (λ (child : ChildConversation). rank child.conversation_id < rank k)
                (open_turn_unresolved_children ("s" ∷ "k" ∷ []) parent.entries))
            named (omega arith, tt))
    | inr other ↦ elim (Bool-cases ("sub" == id)) [
      | inl is_sub ↦
          let same : conversation "sub" ("t" ∷ []) ≡ c = ground (arith, found) in
          subst
            (λ (x : Conversation).
              All (λ child. rank child.conversation_id < rank id)
                (open_turn_unresolved_children x.nodes parent.entries))
            same tt
      | inr neither ↦ absurd (ground (arith, found))
    ]
  ];
}

get_conversation_status_total_example :
    (s : ConversationRuntimeStatus) × (get_conversation_status 2 parent "main" ≡ some (some s))
unfolding get
get_conversation_status_total_example =
    get_conversation_status_total parent rank parent-IsRanked 2 "main"
      (conversation "main" ("s" ∷ "k" ∷ [])) (omega arith) refl

-- The parent is busy while its subagent is; without fuel for the child there is no answer.
parent_is_busy : derive_status 2 parent ("s" ∷ "k" ∷ []) ≡ some busy
unfolding status_runs
parent_is_busy = refl

parent_needs_child : derive_status 1 parent ("s" ∷ "k" ∷ []) ≡ none
unfolding status_runs
parent_needs_child = refl

derive_status-append_example :
    derive_status 1 (demo gated) (("u" ∷ "f" ∷ []) ++ gated) ≡ derive_status 1 (demo gated) gated
derive_status-append_example =
    derive_status-append ("u" ∷ "f" ∷ []) gated (demo gated) gated-IsTurn 1

closed_compaction_transparent_example :
    derive_status 1 (demo gated) (("u" ∷ []) ++ (("s" ∷ "c" ∷ []) ++ "f" ∷ []))
    ≡ derive_status 1 (demo gated) ("u" ∷ [])
unfolding status_runs
closed_compaction_transparent_example =
    closed_compaction_transparent ("u" ∷ []) ("s" ∷ "c" ∷ []) "f" (demo gated) compaction-IsTurn
      refl 0 refl refl

post_wakes_example :
    (s : ConversationRuntimeStatus) × (get_conversation_status 1 (demo (gated ++ "p" ∷ [])) "main"
      ≡ some (some s))
    × (s.status ≡ busy)
unfolding status_runs
post_wakes_example =
    post_wakes (demo (gated ++ "p" ∷ [])) gated "p" gated-IsTurn refl 2 refl refl (λ id. 0)
      (demo-IsRanked (gated ++ "p" ∷ []) no_children_posted) 1 "main"
      (conversation "main" (gated ++ "p" ∷ [])) [] (omega arith) refl refl
