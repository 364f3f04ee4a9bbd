-- ===== src/Models/Status/Queueing.antt =====
-- A user message behind a path with no open turn (agent/core/models.py).
use luca_py.Base.{
  ℕ, zero, suc, String, ◌≡◌, refl, ap, ◌∙◌, true, false, none, some, List, [], ◌∷◌, ◌++◌, arith,
  length, length-append,
}
use luca_py.Base.Dict.{Dict, get}
use luca_py.Models.Entries.{Entry, is_turn_finish, is_turn_start, is_user}
use luca_py.Models.Path.{
  entry_at, open_turn_index, open_turn_before, closed_bracket_start, skip_brackets,
  end_before_closed_compaction_brackets,
}
use luca_py.Models.Path.Brackets.{open_turn_before-append_left}
use luca_py.Models.Session.{AgentSession}
use luca_py.Models.Status.{busy, closed_status, derive_step, derive_status}
use luca_py.Models.Status.Closing.{last_at}
use luca_py.Models.Status.Posting.{user-IsInside}

-- The derivation reads the store at the nodes of the path only.
pub open_turn_before-agree :
    (nodes : List String) (e₁ e₂ : Dict Entry)
    → ((k : ℕ) → entry_at nodes e₁ k ≡ entry_at nodes e₂ k)
    → (n : ℕ) → open_turn_before nodes e₁ n ≡ open_turn_before nodes e₂ n
unfolding open_turn_before
open_turn_before-agree nodes e₁ e₂ h zero = refl
open_turn_before-agree nodes e₁ e₂ h (suc n) = rw (h n, open_turn_before-agree nodes e₁ e₂ h n) refl

module _ (nodes : List String) (post : String) (entries : Dict Entry)
    (u : is_user (get entries post) ≡ true) where
  length-posted : length (nodes ++ post ∷ []) ≡ suc (length nodes)
  length-posted = omega (arith, length-append nodes (post ∷ []))

  last_not_finish : is_turn_finish (entry_at (nodes ++ post ∷ []) entries (length nodes)) ≡ false
  last_not_finish = rw (last_at nodes post entries) (user-IsInside _ u).1

  last_not_start : is_turn_start (entry_at (nodes ++ post ∷ []) entries (length nodes)) ≡ false
  last_not_start = rw (last_at nodes post entries) (user-IsInside _ u).0

  open_turn_index_queued :
      open_turn_index nodes entries ≡ none → open_turn_index (nodes ++ post ∷ []) entries ≡ none
  unfolding open_turn_index open_turn_before
  open_turn_index_queued closed = rw length-posted (
      rw (last_not_finish, last_not_start, open_turn_before)
        (open_turn_before-append_left nodes (post ∷ []) entries (length nodes) (omega arith)
          ∙ closed))

  closed_status_queued : closed_status entries (nodes ++ post ∷ []) ≡ busy
  unfolding closed_status end_before_closed_compaction_brackets skip_brackets closed_bracket_start
  closed_status_queued = rw length-posted (
      rw (last_not_finish, skip_brackets, closed_bracket_start)
        (rw (last_at nodes post entries) (rw u refl)))

module _ (nodes : List String) (post : String) (session : AgentSession)
    (u : is_user (get session.entries post) ≡ true)
    (closed : open_turn_index nodes session.entries ≡ none) where
  -- A user message behind a path with no open turn makes the status busy, with any fuel but none.
  pub post_queues : (fuel : ℕ) → derive_status (suc fuel) session (nodes ++ post ∷ []) ≡ some busy
  unfolding derive_status derive_step
  post_queues fuel =
      rw (open_turn_index_queued nodes post session.entries u closed, derive_step)
        (ap some (closed_status_queued nodes post session.entries u))
