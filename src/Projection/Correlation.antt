-- ===== src/Projection/Correlation.antt =====
-- The call ids of the tool results that agent/core/projection.py sends.
use luca_py.Base.{
  ℕ, suc, String, ◌≡◌, refl, subst, ◌⊎◌, inl, inr, Bool, true, false, not, ◌&&◌, Option, none, some,
  List, [], ◌∷◌, if◌then◌else◌, All, if-P,
}
use luca_py.Base.Dict.{Dict, get}
use luca_py.Models.Entries.{Entry, is_turn_start, is_turn_finish}
use luca_py.Models.Path.{open_turn_index, is_compaction_bracket}
use luca_py.Projection.{Message, ProjectionError, Texts}
use luca_py.Projection.Entries.{Projected}
use luca_py.Projection.Walk.{consed, project_node, project_from, project}
use luca_py.Projection.Roles.{IsCorrelated, Fine, project_node-Fine}

module _ (texts : Texts) (entries : Dict Entry) where
  abbrev AllFine : ProjectionError ⊎ List Message → Type 0
  AllFine (inl e) = Unit {0}
  AllFine (inr messages) = All (IsCorrelated entries) messages

  consed-AllFine :
      (out : Projected) (rest : ProjectionError ⊎ List Message)
      → Fine entries out
      → AllFine rest
      → AllFine (consed out rest)
  consed-AllFine (inl e) rest h k = tt
  consed-AllFine (inr none) rest h k = k
  consed-AllFine (inr (some message)) (inl e) h k = tt
  consed-AllFine (inr (some message)) (inr messages) h k = (h, k)

  module _ (nodes : List String) (open_turn : Option ℕ) where
    project_from-AllFine :
        (index : ℕ) (skipping : Bool) (rest : List String)
        → AllFine (project_from texts nodes entries open_turn index skipping rest)
    unfolding project_from
    project_from-AllFine index skipping [] = tt
    project_from-AllFine index true (id ∷ rest) =
        found (get entries id) (λ skipping. project_from-AllFine (suc index) skipping rest)
      where
        found :
            (o : Option Entry)
            → ((skipping : Bool)
                → AllFine (project_from texts nodes entries open_turn (suc index) skipping rest))
            → AllFine (elim o [
              | none ↦ inl ProjectionError.missing_node
              | some entry ↦
                  project_from texts nodes entries open_turn
                    (suc index)
                    (not (is_turn_finish (some entry)))
                    rest
            ])
        found none h = tt
        found (some entry) h = h (not (is_turn_finish (some entry)))
    project_from-AllFine index false (id ∷ rest) =
        found (get entries id) refl (λ skipping. project_from-AllFine (suc index) skipping rest)
      where
        found :
            (o : Option Entry)
            → get entries id ≡ o
            → ((skipping : Bool)
                → AllFine (project_from texts nodes entries open_turn (suc index) skipping rest))
            → AllFine (elim o [
              | none ↦ inl ProjectionError.missing_node
              | some entry ↦
                  if is_turn_start (some entry) && is_compaction_bracket nodes entries index
                  then project_from texts nodes entries open_turn (suc index) true rest
                  else consed
                      (project_node texts entries open_turn index entry)
                      (project_from texts nodes entries open_turn (suc index) false rest)
            ])
        found none e h = tt
        found (some entry) e h =
            if-P AllFine (is_turn_start (some entry) && is_compaction_bracket nodes entries index)
              (h true)
              (consed-AllFine (project_node texts entries open_turn index entry)
                (project_from texts nodes entries open_turn (suc index) false rest)
                (project_node-Fine entries texts open_turn index id entry e) (h false))

  -- Every tool result among the messages of a projection carries the call id of an execution that is
  -- stored and whose tool is not private.
  pub project-IsCorrelated :
      (nodes : List String) (messages : List Message)
      → project texts nodes entries ≡ inr messages
      → All (IsCorrelated entries) messages
  unfolding project
  project-IsCorrelated nodes messages h =
      subst AllFine h (project_from-AllFine nodes (open_turn_index nodes entries) 0 false nodes)
