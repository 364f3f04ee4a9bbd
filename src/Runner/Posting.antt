-- ===== src/Runner/Posting.antt =====
-- `post_message` (agent/core/runner.py): its checks, and the append. The hooks `before_post_message`
-- and `before_entry_written`, with the token count in front of it, are parameters that return; the
-- drives that the call wakes are the set of conversations to look at again.
use text.Mathlib.Text.{◌==◌}
use luca_py.Base.{
  ℕ, String, Bool, true, false, Option, none, some, List, [], ◌∷◌, if◌then◌else◌, is_some, any,
}
use luca_py.Base.Dict.{get, values}
use luca_py.Models.Content.{ContentPart}
use luca_py.Models.Tools.{ToolSpec}
use luca_py.Models.Entries.{Entry, entry_id}
use luca_py.Models.Path.{is_compaction_bracket, open_turn_index, open_turn_cancel_requested}
use luca_py.Models.Session.{AgentSession, Conversation}
use luca_py.Models.Status.{
  ConversationStatus, busy, idle, blocked, cancelling, get_conversation_status,
}
use luca_py.Ledger.{LedgerError, Result, ok, err, Ledger, append}

-- One constructor for each raise in front of the append.
pub data PostError : Type 0 where
  unknown is_cancelling is_compacting archived finished empty_content : PostError

pub data PostOutcome : Type 0 where
  posted : Option String → PostOutcome
  rejected : PostError → PostOutcome
  failed : LedgerError → PostOutcome

pub record Runner : Type 0 where
  pub ledger : Ledger
  pub recheck : List String

unfoldable pub compaction_is_open : AgentSession → Conversation → Bool
compaction_is_open session c = elim (open_turn_index c.nodes session.entries) [
  | none ↦ false
  | some index ↦ is_compaction_bracket c.nodes session.entries index
]

abbrev is_named : String → Option String → Bool
is_named target none = false
is_named target (some id) = id == target

-- Some conversation has replaced this one.
unfoldable pub is_archived : AgentSession → String → Bool
is_archived session target =
    any (λ c. is_named target c.previous_conversation_id) (values session.conversations)

abbrev is_busy : ConversationStatus → Bool
is_busy busy = true
is_busy idle = false
is_busy blocked = false
is_busy cancelling = false

-- The last guard: a subagent with no open turn. The outer `none` is out of fuel.
unfoldable pub check_subagent : ℕ → AgentSession → String → Option (Option PostError)
check_subagent fuel session target = elim (get_conversation_status fuel session target) [
  | none ↦ some (some unknown)
  | some none ↦ none
  | some (some s) ↦ if is_busy s.status then some none else some (some finished)
]

unfoldable pub check_post : ℕ → AgentSession → String → Option (Option PostError)
check_post fuel session target = elim (get session.conversations target) [
  | none ↦ some (some unknown)
  | some c ↦
      let last_check = check_subagent fuel session target in
      if is_some (open_turn_cancel_requested c.nodes session.entries)
      then some (some is_cancelling)
      else if compaction_is_open session c
      then some (some is_compacting)
      else if is_archived session target
      then some (some archived)
      else if target == session.main_conversation_id
      then some none
      else if is_some (open_turn_index c.nodes session.entries)
      then some none
      else last_check
]

-- `self._recheck.add(target)`
unfoldable pub add_recheck : String → List String → List String
add_recheck target ids = if any (λ id. id == target) ids then ids else target ∷ ids

abbrev pub target_of : Option String → AgentSession → String
target_of none session = session.main_conversation_id
target_of (some id) session = id

abbrev pub user_message : List ContentPart → String → Option String → ℕ → Entry
user_message parts id parent ts = Entry.user (record {
  base = record { id = some id; parent_id = parent; created_at = some ts; context_tokens = 0 };
  parts = parts;
})

-- What follows the append.
unfoldable pub after_append : String → Runner → Result Entry × Ledger → PostOutcome × Runner
after_append target r (err e, ledger) = (failed e, record r { ledger = ledger })
after_append target r (ok message, ledger) =
    (posted (entry_id message), record { ledger = ledger; recheck = add_recheck target r.recheck })

module _ (digest : ToolSpec → String) (complete : String → Entry → Entry)
    (before_post : String → List ContentPart → List ContentPart) where
  unfoldable pub append_post : String → List ContentPart → Runner → PostOutcome × Runner
  append_post target parts r = after_append target r (
      append digest target
        (λ id parent ts. complete target (user_message (before_post target parts) id parent ts))
        r.ledger)

  abbrev pub post_parts : String → List ContentPart → Runner → PostOutcome × Runner
  post_parts target [] r = (rejected empty_content, r)
  post_parts target (part ∷ parts) r = append_post target (part ∷ parts) r

  -- `none` is out of fuel, here and below.
  unfoldable pub post_to : ℕ → List ContentPart → String → Runner → Option (PostOutcome × Runner)
  post_to fuel content target r = elim (check_post fuel r.ledger.session target) [
    | none ↦ none
    | some (some e) ↦ some (rejected e, r)
    | some none ↦ some (post_parts target content r)
  ]

  unfoldable pub post_message :
      ℕ → List ContentPart → Option String → Runner → Option (PostOutcome × Runner)
  post_message fuel content conversation_id r =
      post_to fuel content (target_of conversation_id r.ledger.session) r
