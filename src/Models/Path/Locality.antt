-- ===== src/Models/Path/Locality.antt =====
-- The path derivations of agent/core/models.py read nothing in front of the open turn.
use luca_py.Base.{
  ℕ, zero, suc, ◌+◌, String, ◌≡◌, refl, Bool, Option, none, some, List, ◌++◌, arith, Option-cases,
  inl, inr, length, drop, drop-append_length, length-append,
}
use luca_py.Base.Dict.{Dict}
use luca_py.Models.Entries.{Entry}
use luca_py.Models.Path.{
  open_turn_index, open_turn_executions, open_turn_cancel_requested, open_turn_unresolved_children,
  last_assistant_before, last_assistant_index, open_turn_unseen_material, open_turn_unseen_post,
}
use luca_py.Models.Path.OpenTurn.{
  IsTurn, entry_at-append, open_turn_index-append, open_turn_index_turn,
}

abbrev pub shift : ℕ → Option ℕ → Option ℕ
shift n none = none
shift n (some i) = some (n + i)

last_assistant_before_start :
    (nodes : List String) (entries : Dict Entry) (n : ℕ)
    → last_assistant_before nodes entries n n ≡ none
unfolding last_assistant_before
last_assistant_before_start nodes entries zero = refl
last_assistant_before_start nodes entries (suc n) = ground arith

last_assistant_before-append :
    (before turn : List String) (entries : Dict Entry) (k : ℕ)
    → last_assistant_before (before ++ turn) entries (length before + 0) (length before + k)
      ≡ shift (length before) (last_assistant_before turn entries 0 k)
unfolding last_assistant_before
last_assistant_before-append before turn entries zero =
    last_assistant_before_start (before ++ turn) entries (length before + 0)
last_assistant_before-append before turn entries (suc k) =
    let e : length before + suc k ≡ suc (length before + k) = omega arith in
    rw e (
      ground (
        arith,
        entry_at-append before turn entries k,
        last_assistant_before-append before turn entries k,
      ))

module _ (before turn : List String) (entries : Dict Entry) (h : IsTurn entries turn) where
  index_before : open_turn_index (before ++ turn) entries ≡ some (length before + 0)
  index_before = open_turn_index-append before turn entries h

  index_turn : open_turn_index turn entries ≡ some 0
  index_turn = open_turn_index_turn turn entries h

  drop_before : drop (length before + 0) (before ++ turn) ≡ turn
  drop_before = drop-append_length before turn 0

  pub last_assistant_index-append :
      last_assistant_index (before ++ turn) entries (length before + 0)
      ≡ shift (length before) (last_assistant_index turn entries 0)
  unfolding last_assistant_index
  last_assistant_index-append =
      rw (length-append before turn)
        (last_assistant_before-append before turn entries (length turn))

  drop_last : (i : ℕ) → drop (length before + i + 1) (before ++ turn) ≡ drop (i + 1) turn
  drop_last i =
      let e : length before + i + 1 ≡ length before + (i + 1) = omega arith in
      rw e (drop-append_length before turn (i + 1))

  pub open_turn_executions-append :
      open_turn_executions (before ++ turn) entries ≡ open_turn_executions turn entries
  unfolding open_turn_executions
  open_turn_executions-append = rw (index_before, index_turn, open_turn_executions) (rw drop_before)

  pub open_turn_cancel_requested-append :
      open_turn_cancel_requested (before ++ turn) entries ≡ open_turn_cancel_requested turn entries
  unfolding open_turn_cancel_requested
  open_turn_cancel_requested-append =
      rw (index_before, index_turn, open_turn_cancel_requested) (rw drop_before)

  pub open_turn_unresolved_children-append :
      open_turn_unresolved_children (before ++ turn) entries
      ≡ open_turn_unresolved_children turn entries
  unfolding open_turn_unresolved_children
  open_turn_unresolved_children-append =
      rw (index_before, index_turn, open_turn_unresolved_children) (rw drop_before)

  pub open_turn_unseen_post-append :
      open_turn_unseen_post (before ++ turn) entries ≡ open_turn_unseen_post turn entries
  unfolding open_turn_unseen_post
  open_turn_unseen_post-append = elim (Option-cases (last_assistant_index turn entries 0)) [
    | inl e ↦ ground (arith, index_before, index_turn, last_assistant_index-append)
    | inr (i, e) ↦
        ground (arith, index_before, index_turn, last_assistant_index-append, drop_last i)
  ]

  pub open_turn_unseen_material-append :
      (include : Bool)
      → open_turn_unseen_material (before ++ turn) entries include
        ≡ open_turn_unseen_material turn entries include
  unfolding open_turn_unseen_material
  open_turn_unseen_material-append include =
      elim (Option-cases (last_assistant_index turn entries 0)) [
        | inl e ↦ ground (arith, index_before, index_turn, last_assistant_index-append)
        | inr (i, e) ↦
            ground (
              arith,
              index_before,
              index_turn,
              last_assistant_index-append,
              drop_last i,
              drop_before,
            )
      ]
