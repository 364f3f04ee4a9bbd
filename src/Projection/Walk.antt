-- ===== src/Projection/Walk.antt =====
-- The walk of a path (agent/core/projection.py): `project`.
use luca_py.Base.{
  ℕ, suc, String, Bool, true, false, not, ◌&&◌, Option, none, some, List, [], ◌∷◌, ◌⊎◌, inl, inr,
  if◌then◌else◌, ltb, is_none,
}
use luca_py.Base.Dict.{Dict, get}
use text.Mathlib.Text.{◌==◌}
use luca_py.Models.Entries.{
  Entry, ToolExecution, ChildConversation, as_child, is_turn_start, is_turn_finish,
}
use luca_py.Models.Path.{open_turn_index, is_compaction_bracket}
use luca_py.Projection.{Message, ProjectionError, Texts}
use luca_py.Projection.Entries.{Projected, project_entry, project_child_update}

abbrev pub names : ChildConversation → Option String → String → Bool
names link none id = false
names link (some result_id) id = result_id == id

abbrev pub link_if : Option ChildConversation → String → Option ChildConversation
link_if none id = none
link_if (some link) id = if names link link.result_execution_id id then some link else none

-- links_by_result.get(id): the last link of the store that names it.
unfoldable pub link_by_result : Dict Entry → String → Option ChildConversation
link_by_result [] id = none
link_by_result ((k, entry) ∷ rest) id =
    let later = link_by_result rest id in
    elim later [ some link ↦ some link | none ↦ link_if (as_child (some entry)) id ]

abbrev pub link_of : Dict Entry → Option String → Option ChildConversation
link_of entries none = none
link_of entries (some id) = link_by_result entries id

-- open_turn is None or index < open_turn
abbrev pub outside : Option ℕ → ℕ → Bool
outside none index = true
outside (some open_turn) index = ltb index open_turn

abbrev pub consed : Projected → ProjectionError ⊎ List Message → ProjectionError ⊎ List Message
consed (inl e) rest = inl e
consed (inr none) rest = rest
consed (inr (some message)) (inl e) = inl e
consed (inr (some message)) (inr messages) = inr (message ∷ messages)

module _ (texts : Texts) where
  abbrev pub execution_at : ToolExecution → Dict Entry → Option ChildConversation → Projected
  execution_at entry entries (some link) = project_child_update texts link entry entries
  execution_at entry entries none = project_entry texts (Entry.tool_execution entry) entries

  -- What an entry that opens no compaction bracket contributes at its place.
  unfoldable pub project_node : Dict Entry → Option ℕ → ℕ → Entry → Projected
  project_node entries open_turn index (Entry.tool_execution entry) =
      execution_at entry entries (link_of entries entry.id)
  project_node entries open_turn index (Entry.child_conversation entry) =
      if is_none entry.execution_result && outside open_turn index
      then inl ProjectionError.unresolved_child
      else project_entry texts (Entry.child_conversation entry) entries
  project_node entries open_turn index entry = project_entry texts entry entries

  -- The loops over the nodes from `index` on. The flag says that the inner one, which skips a
  -- compaction bracket up to its TurnFinish, is running.
  unfoldable pub project_from :
      List String → Dict Entry → Option ℕ → ℕ → Bool → List String → ProjectionError ⊎ List Message
  project_from nodes entries open_turn index skipping [] = inr []
  project_from nodes entries open_turn index true (node_id ∷ rest) =
      let after =
        λ (skipping : Bool). project_from nodes entries open_turn (suc index) skipping rest in
      elim (get entries node_id) [
        | none ↦ inl ProjectionError.missing_node
        | some entry ↦ after (not (is_turn_finish (some entry)))
      ]
  project_from nodes entries open_turn index false (node_id ∷ rest) =
      let after =
        λ (skipping : Bool). project_from nodes entries open_turn (suc index) skipping rest in
      elim (get entries node_id) [
        | none ↦ inl ProjectionError.missing_node
        | some entry ↦
            if is_turn_start (some entry) && is_compaction_bracket nodes entries index
            then after true
            else consed (project_node entries open_turn index entry) (after false)
      ]

  unfoldable pub project : List String → Dict Entry → ProjectionError ⊎ List Message
  project nodes entries = project_from nodes entries (open_turn_index nodes entries) 0 false nodes
