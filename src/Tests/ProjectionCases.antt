-- ===== src/Tests/ProjectionCases.antt =====
-- agent/core/projection.py on a turn with a gated call, and on one with a compaction behind it.
use luca_py.Base.{
  ℕ, zero, suc, String, ◌≡◌, refl, inr, true, false, List, [], ◌∷◌, ◌++◌, All, arith,
}
use luca_py.Base.Dict.{Dict, get}
use luca_py.Models.Entries.{Entry}
use luca_py.Models.Path.{is_compaction_bracket, open_turn_index, open_turn_before, entry_at}
use luca_py.Projection.{Block, Message, Texts}
use luca_py.Projection.Wording.{awaiting_approval_output}
use luca_py.Projection.Entries.{project_user_message, project_tool_execution, project_entry}
use luca_py.Projection.Walk.{link_by_result, project_node, project_from, project}
use luca_py.Projection.Roles.{IsCorrelated}
use luca_py.Projection.Correlation.{project-IsCorrelated}
use luca_py.Projection.Brackets.{closed_bracket_projects_nothing}
use luca_py.Projection.Resting.{Rests, project-Rests}
use luca_py.Samples.{start_entry, user_entry, finish_entry, compaction_entry, gated_entry}

abbrev texts : Texts
texts = record {
  str = λ v. "task";
  repr = λ t. t;
  dumps = λ v. "";
  truth = λ v. true;
  iso_utc = λ ms. "then";
}

abbrev store : Dict Entry
store =
    ("s", start_entry "s")
    ∷ ("u", user_entry "u")
    ∷ ("x", gated_entry "x")
    ∷ ("f", finish_entry "f")
    ∷ ("c", compaction_entry "c")
    ∷ []

abbrev gated : List String
gated = "s" ∷ "u" ∷ "x" ∷ []

abbrev asked : List Message
asked =
    Message.user [] ∷ Message.tool "call" (Block.text awaiting_approval_output [] ∷ []) false ∷ []

gated_projects : project texts gated store ≡ inr asked
unfolding project project_from project_node link_by_result project_entry project_user_message
    project_tool_execution open_turn_index open_turn_before entry_at is_compaction_bracket get
gated_projects = refl

project-IsCorrelated_example : All (IsCorrelated store) asked
project-IsCorrelated_example = project-IsCorrelated texts store gated asked gated_projects

no_compaction : (index : ℕ) → is_compaction_bracket gated store index ≡ false
unfolding is_compaction_bracket entry_at get
no_compaction zero = refl
no_compaction (suc zero) = refl
no_compaction (suc (suc n)) = ground arith

project-Rests_example : All (λ id. Rests store (get store id)) gated
project-Rests_example = project-Rests texts store gated asked no_compaction gated_projects

-- A finished turn, and a compaction that has been closed.
abbrev closed : List String
closed = "s" ∷ "u" ∷ "f" ∷ []

closed_bracket_projects_nothing_example :
    project texts (closed ++ ("s" ∷ "c" ∷ []) ++ "f" ∷ []) store ≡ project texts closed store
unfolding get open_turn_index open_turn_before entry_at
closed_bracket_projects_nothing_example =
    closed_bracket_projects_nothing closed ("s" ∷ "c" ∷ []) "f" store texts
      (refl, ((refl, refl), tt)) (refl, (refl, tt)) refl refl refl
