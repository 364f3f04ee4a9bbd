-- ===== src/Models/Status/Locality.antt =====
-- The status of a conversation with an open turn (agent/core/models.py) depends on that turn alone.
use luca_py.Base.{ℕ, zero, suc, String, ◌≡◌, refl, Option, List, [], ◌∷◌, ◌++◌}
use luca_py.Models.Entries.{ChildConversation}
use luca_py.Models.Path.{
  open_turn_has_advanceable_executions, open_turn_has_awaiting_executions,
  open_turn_has_parked_executions, open_turn_is_runnable,
}
use luca_py.Models.Path.OpenTurn.{IsTurn, open_turn_index-append, open_turn_index_turn}
use luca_py.Models.Path.Locality.{
  open_turn_executions-append, open_turn_cancel_requested-append,
  open_turn_unresolved_children-append, open_turn_unseen_post-append,
  open_turn_unseen_material-append,
}
use luca_py.Models.Session.{AgentSession}
use luca_py.Models.Status.{
  ConversationStatus, parent_waits, open_turn_alone, open_status, derive_step, derive_status,
}

module _ (before turn : List String) (session : AgentSession)
    (h : IsTurn session.entries turn) where
  open_turn_alone-append :
      open_turn_alone session.entries (before ++ turn) ≡ open_turn_alone session.entries turn
  unfolding open_turn_alone open_turn_is_runnable open_turn_has_advanceable_executions
  open_turn_alone-append = simp (
    open_turn_executions-append before turn session.entries h,
    open_turn_unseen_post-append before turn session.entries h,
  )

  parent_waits-append : parent_waits session (before ++ turn) ≡ parent_waits session turn
  unfolding parent_waits open_turn_has_awaiting_executions open_turn_has_parked_executions
  parent_waits-append = simp (
    open_turn_executions-append before turn session.entries h,
    open_turn_unseen_post-append before turn session.entries h,
    open_turn_unseen_material-append before turn session.entries h,
  )

  open_status-append :
      (derive : List String → Option ConversationStatus) (children : List ChildConversation)
      → open_status derive session (before ++ turn) children
        ≡ open_status derive session turn children
  unfolding open_status open_turn_has_advanceable_executions
  open_status-append derive [] = simp open_turn_alone-append
  open_status-append derive (child ∷ rest) =
      simp (open_turn_executions-append before turn session.entries h, parent_waits-append)

  derive_step-append :
      (derive : List String → Option ConversationStatus)
      → derive_step derive session (before ++ turn) ≡ derive_step derive session turn
  unfolding derive_step
  derive_step-append derive = rw (
    open_turn_index-append before turn session.entries h,
    open_turn_index_turn turn session.entries h,
    open_turn_cancel_requested-append before turn session.entries h,
    open_turn_unresolved_children-append before turn session.entries h,
    open_status-append derive _,
    derive_step,
  )

  -- While the turn `turn` is open, the conversation's status does not depend on what stands before it.
  pub derive_status-append :
      (fuel : ℕ) → derive_status fuel session (before ++ turn) ≡ derive_status fuel session turn
  unfolding derive_status
  derive_status-append zero = refl
  derive_status-append (suc fuel) = derive_step-append (λ child. derive_status fuel session child)
