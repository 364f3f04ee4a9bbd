-- ===== src/Models/Status.antt =====
-- `AgentSession.get_conversation_status` (agent/core/models.py). A parent's status reads its
-- children's, so the derivation takes fuel: `none` is a run that goes deeper than the fuel.
pub mod Termination
pub mod Posting
pub mod Queueing
pub mod Closing
pub mod Locality
use luca_py.Base.{
  ℕ, zero, suc, String, Bool, true, false, not, ◌&&◌, ◌||◌, Option, none, some, List, [], ◌∷◌,
  if◌then◌else◌, is_some,
}
use luca_py.Base.Dict.{Dict, get}
use luca_py.Models.Entries.{Entry, ChildConversation, is_user}
use luca_py.Models.Path.{
  entry_at, open_turn_index, open_turn_cancel_requested, open_turn_unresolved_children,
  open_turn_has_advanceable_executions, open_turn_has_awaiting_executions,
  open_turn_has_parked_executions, open_turn_unseen_post, open_turn_unseen_material,
  open_turn_is_runnable, end_before_closed_compaction_brackets, conversational_turn_count,
  open_turn_step_count,
}
use luca_py.Models.Session.{AgentSession, Conversation}

pub data ConversationStatus : Type 0 where
  idle busy blocked cancelling : ConversationStatus

pub record ConversationRuntimeStatus : Type 0 where
  pub status : ConversationStatus
  pub turn_count : ℕ
  pub step_count : ℕ

-- `status in (BUSY, IDLE, CANCELLING)`
abbrev pub lets_parent_advance : ConversationStatus → Bool
lets_parent_advance blocked = false
lets_parent_advance _ = true

-- `any(… for child in children if child.conversation_id in self.conversations)`, which stops at the
-- first child that counts. `derive` gives the status of a path.
unfoldable pub any_child_advances :
    (List String → Option ConversationStatus)
    → Dict Conversation
    → List ChildConversation
    → Option Bool
any_child_advances derive conversations [] = some false
any_child_advances derive conversations (child ∷ rest) =
    let later = any_child_advances derive conversations rest in
    elim (get conversations child.conversation_id) [
      | none ↦ later
      | some conversation ↦ elim (derive conversation.nodes) [
        | none ↦ none
        | some status ↦ if lets_parent_advance status then some true else later
      ]
    ]

-- Steps 3 to 5 of the branch for an open turn with unresolved children.
unfoldable pub parent_waits : AgentSession → List String → ConversationStatus
parent_waits session nodes =
    if (open_turn_has_awaiting_executions nodes session.entries
        || open_turn_has_parked_executions nodes session.entries)
      && not (open_turn_unseen_post nodes session.entries)
    then blocked
    else if open_turn_unseen_material nodes session.entries
        session.session_config.runtime_config.wake_parent_on_subagent_completion
    then busy
    else blocked

abbrev after_children : Option Bool → ConversationStatus → Option ConversationStatus
after_children none waits = none
after_children (some true) waits = some busy
after_children (some false) waits = some waits

unfoldable pub open_turn_alone : Dict Entry → List String → ConversationStatus
open_turn_alone entries nodes =
    if open_turn_is_runnable nodes entries
    then busy
    else if open_turn_unseen_post nodes entries
    then busy
    else blocked

abbrev leaf_status : List String → Dict Entry → ℕ → ConversationStatus
leaf_status nodes entries zero = idle
leaf_status nodes entries (suc i) = if is_user (entry_at nodes entries i) then busy else idle

unfoldable pub closed_status : Dict Entry → List String → ConversationStatus
closed_status entries nodes =
    leaf_status nodes entries (end_before_closed_compaction_brackets nodes entries)

unfoldable pub open_status :
    (List String → Option ConversationStatus)
    → AgentSession
    → List String
    → List ChildConversation
    → Option ConversationStatus
open_status derive session nodes [] = some (open_turn_alone session.entries nodes)
open_status derive session nodes (child ∷ rest) =
    if open_turn_has_advanceable_executions nodes session.entries
    then some busy
    else after_children (any_child_advances derive session.conversations (child ∷ rest))
        (parent_waits session nodes)

-- The body of `_derive_status`, over the statuses of the paths below.
unfoldable pub derive_step :
    (List String → Option ConversationStatus)
    → AgentSession
    → List String
    → Option ConversationStatus
derive_step derive session nodes = elim (open_turn_index nodes session.entries) [
  | none ↦ some (closed_status session.entries nodes)
  | some index ↦
      if is_some (open_turn_cancel_requested nodes session.entries)
      then some cancelling
      else open_status derive session nodes (open_turn_unresolved_children nodes session.entries)
]

unfoldable pub derive_status : ℕ → AgentSession → List String → Option ConversationStatus
derive_status zero session nodes = none
derive_status (suc fuel) session nodes =
    derive_step (λ child. derive_status fuel session child) session nodes

-- The outer `Option` is the KeyError of an unknown conversation, the inner one the fuel.
unfoldable pub get_conversation_status :
    ℕ → AgentSession → String → Option (Option ConversationRuntimeStatus)
get_conversation_status fuel session conversation_id =
    elim (get session.conversations conversation_id) [
      | none ↦ none
      | some conversation ↦ some (elim (derive_status fuel session conversation.nodes) [
        | none ↦ none
        | some status ↦ some (record {
          status = status;
          turn_count = conversational_turn_count conversation.nodes session.entries;
          step_count = open_turn_step_count conversation.nodes session.entries;
        })
      ])
    ]
