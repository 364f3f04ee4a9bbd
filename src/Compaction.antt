-- ===== src/Compaction.antt =====
-- agent/core/compaction.py: the plan that a context manager returns, the snapshot that it is checked
-- against, and the checks. The values that an error quotes are left out, and `str.strip` is a
-- parameter. The child Commit has `_commit` of agent/core/runner.py, Step the rest of the operation.
pub mod Members
pub mod Plan
pub mod Commit
pub mod Step
use Prim.Native.String.{len}
use text.Mathlib.Text.{◌==◌}
use luca_py.Base.{
  ℕ, suc, String, ◌⊎◌, inl, inr, Bool, true, false, ◌&&◌, Option, none, some, List, [], ◌∷◌, ◌++◌,
  if◌then◌else◌, any, take, drop, ltb,
}
use luca_py.Base.Dict.{Dict, get, contains}
use luca_py.Models.Content.{ContentPart}
use luca_py.Models.Entries.{Entry, CompactionEntry}
use luca_py.Models.Path.{open_turn_index}
use luca_py.Models.Session.{AgentSession, Conversation}
use luca_py.Ledger.Records.{Counters}

-- An id is carried over; an entry is created in its place.
pub data PlanNode : Type 0 where
  carried : String → PlanNode
  created : Entry → PlanNode

pub record CompactionPlan : Type 0 where
  pub entry : CompactionEntry
  pub nodes : List PlanNode
  pub usage : Counters

pub record ConversationSnapshot : Type 0 where
  pub id : String
  pub nodes : List String
  pub offered : List String

-- One constructor for each `raise CompactionPlanError`.
pub data PlanError : Type 0 where
  conversation_changed conversation_absent path_changed empty_plan unknown_entry not_offered
        repeated omits_entry no_content :
      PlanError

abbrev pub is_member : String → List String → Bool
is_member id ids = any (λ x. x == id) ids

abbrev pub same_path : List String → List String → Bool
same_path [] [] = true
same_path [] (y ∷ ys) = false
same_path (x ∷ xs) [] = false
same_path (x ∷ xs) (y ∷ ys) = x == y && same_path xs ys

-- The path of a conversation, and that path with the node of its open turn removed. The source has
-- an open bracket here; without one it fails, and the model offers the whole path.
abbrev pub without : Option ℕ → List String → List String
without none nodes = nodes
without (some bracket) nodes = take bracket nodes ++ drop (suc bracket) nodes

unfoldable pub snapshot_conversation : AgentSession → Conversation → ConversationSnapshot
snapshot_conversation session c = record {
  id = c.id;
  nodes = c.nodes;
  offered = without (open_turn_index c.nodes session.entries) c.nodes;
}

unfoldable pub check_snapshot : AgentSession → String → ConversationSnapshot → Option PlanError
check_snapshot session conversation_id snapshot =
    if snapshot.id == conversation_id
    then elim (get session.conversations conversation_id) [
      | none ↦ some PlanError.conversation_absent
      | some c ↦ if same_path snapshot.nodes c.nodes then none else some PlanError.path_changed
    ]
    else some PlanError.conversation_changed

-- The loop over `plan.nodes`, with the ids carried so far; it gives them all.
unfoldable pub check_nodes :
    Dict Entry → List String → List String → List PlanNode → PlanError ⊎ List String
check_nodes entries offered seen [] = inr seen
check_nodes entries offered seen (created entry ∷ rest) = check_nodes entries offered seen rest
check_nodes entries offered seen (carried node ∷ rest) =
    let later = check_nodes entries offered (seen ++ node ∷ []) rest in
    if contains entries node
    then if is_member node offered
      then if is_member node seen then inl PlanError.repeated else later
      else inl PlanError.not_offered
    else inl PlanError.unknown_entry

abbrev pub is_carried : Option String → List String → Bool
is_carried none ids = false
is_carried (some id) ids = is_member id ids

module _ (strip : String → String) where
  abbrev pub part_counts : ContentPart → Bool
  part_counts (ContentPart.text part) = ltb 0 (len (strip part.text))
  part_counts (ContentPart.image part) = true
  part_counts (ContentPart.audio part) = true
  part_counts (ContentPart.file part) = true

  unfoldable pub has_content : Option (List ContentPart) → Bool
  has_content none = false
  has_content (some parts) = any part_counts parts

  -- What follows the loop.
  abbrev pub check_rest :
      CompactionPlan → Option String → PlanError ⊎ List String → Option PlanError
  check_rest plan entry_id (inl e) = some e
  check_rest plan entry_id (inr ids) =
      if is_carried entry_id ids
      then if has_content plan.entry.parts then none else some PlanError.no_content
      else some PlanError.omits_entry

  abbrev pub check_plan :
      CompactionPlan
      → Option String
      → Dict Entry
      → ConversationSnapshot
      → List PlanNode
      → Option PlanError
  check_plan plan entry_id entries snapshot [] = some PlanError.empty_plan
  check_plan plan entry_id entries snapshot (node ∷ rest) =
      check_rest plan entry_id (check_nodes entries snapshot.offered [] (node ∷ rest))

  -- `none` is a plan that passes.
  unfoldable pub validate_plan :
      CompactionPlan
      → Option String
      → AgentSession
      → String
      → ConversationSnapshot
      → Option PlanError
  validate_plan plan entry_id session conversation_id snapshot =
      elim (check_snapshot session conversation_id snapshot) [
        | some e ↦ some e
        | none ↦ check_plan plan entry_id session.entries snapshot plan.nodes
      ]
