-- ===== src/Projection/Roles.antt =====
-- The message that agent/core/projection.py makes of one entry: a tool result only for a stored
-- execution that is not private, under the id of its call.
use luca_py.Base.{
  ℕ, String, ◌≡◌, refl, subst, ◌⊎◌, inl, inr, Bool, true, false, ◌&&◌, Option, none, some, List, [],
  ◌∷◌, arith, Bool-cases, if-P, is_none,
}
use luca_py.Base.Dict.{Dict, get}
use luca_py.Models.Json.{Json, Fields, get_field}
use luca_py.Models.Content.{ContentPart, ExecutionResult}
use luca_py.Models.Tools.{is_nonterminal, is_pending, is_awaiting_result, is_completed, is_deferred}
use luca_py.Models.Entries.{
  Entry, EntryType-discrete, entry_type, ToolExecution, ChildConversation, PrunedEntry, TurnFinish,
  as_tool_execution,
}
use luca_py.Models.Session.{spawn_payload}
use luca_py.Projection.{Block, Message, ProjectionError, Texts}
use luca_py.Projection.Entries.{
  Projected, is_private, completed_output, summary_message, pruned_under, project_compaction,
  project_turn_finish, pruned_message, pruned_from, project_pruned, project_tool_execution,
  task_message, task_payload, task_of, child_task_message, resolved_link,
  project_child_conversation, updated_link, project_child_update, some_message, execution_message,
  project_entry, project_user_message, project_assistant_message,
}
use luca_py.Projection.Walk.{link_of, outside, execution_at, project_node}

module _ (entries : Dict Entry) where
  -- A tool result is that of a stored execution whose tool is not private, under the id of its call.
  abbrev pub Answers : String → Type 0
  Answers tool_call_id =
      (id : String) × (e : ToolExecution) × (get entries id ≡ some (Entry.tool_execution e))
      × (is_private e.tool_spec ≡ false)
      × (e.tool_call_id ≡ tool_call_id)

  abbrev pub IsCorrelated : Message → Type 0
  IsCorrelated (Message.user blocks) = Unit {0}
  IsCorrelated (Message.assistant blocks provider model) = Unit {0}
  IsCorrelated (Message.tool tool_call_id blocks is_error) = Answers tool_call_id

  abbrev pub Fine : Projected → Type 0
  Fine (inl e) = Unit {0}
  Fine (inr none) = Unit {0}
  Fine (inr (some message)) = IsCorrelated message

  -- Messages that are not tool results.
  abbrev Spoken : Projected → Type 0
  Spoken (inl e) = Unit {0}
  Spoken (inr none) = Unit {0}
  Spoken (inr (some (Message.user blocks))) = Unit {0}
  Spoken (inr (some (Message.assistant blocks provider model))) = Unit {0}
  Spoken (inr (some (Message.tool id blocks is_error))) = ⊥

  Spoken-Fine : (out : Projected) → Spoken out → Fine out
  Spoken-Fine (inl e) h = tt
  Spoken-Fine (inr none) h = tt
  Spoken-Fine (inr (some (Message.user blocks))) h = tt
  Spoken-Fine (inr (some (Message.assistant blocks provider model))) h = tt
  Spoken-Fine (inr (some (Message.tool id blocks is_error))) h = absurd h

  abbrev Under : String → ProjectionError ⊎ Message → Type 0
  Under id (inl e) = Unit {0}
  Under id (inr (Message.user blocks)) = ⊥
  Under id (inr (Message.assistant blocks provider model)) = ⊥
  Under id (inr (Message.tool tool_call_id blocks is_error)) = id ≡ tool_call_id

  completed_output-Under :
      (id : String) (result : Option ExecutionResult) → Under id (completed_output id result)
  completed_output-Under id none = tt
  completed_output-Under id (some result) = refl

  summary-Spoken : (parts : Option (List ContentPart)) → Spoken (inr (summary_message parts))
  summary-Spoken none = tt
  summary-Spoken (some []) = tt
  summary-Spoken (some (part ∷ parts)) = tt

  finish-Spoken : (e : TurnFinish) → Spoken (inr (project_turn_finish e))
  unfolding project_turn_finish
  finish-Spoken e = ground arith

  pruned_message-Fine :
      (id : String) (original : Entry) (content : List Block)
      → get entries id ≡ some original
      → Fine (pruned_message original content)
  pruned_message-Fine id (Entry.tool_execution e) content h =
      elim (Bool-cases (is_private e.tool_spec)) [
        | inl p ↦ rw p tt
        | inr p ↦ rw p (id, e, h, p, refl)
      ]
  pruned_message-Fine id (Entry.user e) content h = tt
  pruned_message-Fine id (Entry.assistant e) content h = tt
  pruned_message-Fine id (Entry.turn_start e) content h = tt
  pruned_message-Fine id (Entry.turn_finish e) content h = tt
  pruned_message-Fine id (Entry.cancel_requested e) content h = tt
  pruned_message-Fine id (Entry.compaction e) content h = tt
  pruned_message-Fine id (Entry.child_conversation e) content h = tt
  pruned_message-Fine id (Entry.pruned e) content h = tt

  pruned_under-Fine {ℓ} :
      {A : Type ℓ} (d : Dec A) (id : String) (original : Entry) (content : List Block)
      → get entries id ≡ some original
      → Fine (pruned_under d original content)
  pruned_under-Fine (yes same) id original content h = pruned_message-Fine id original content h
  pruned_under-Fine (no other) id original content h = tt

  pruned_from-Fine :
      (entry : PrunedEntry) (o : Option Entry)
      → get entries entry.pruned_entry_id ≡ o
      → Fine (pruned_from entry o)
  pruned_from-Fine entry none h = tt
  pruned_from-Fine entry (some original) h =
      pruned_under-Fine (EntryType-discrete (entry_type original) entry.pruned_entry_type)
        entry.pruned_entry_id original _ h

  module _ (texts : Texts) where
    project_tool_execution-Under :
        (e : ToolExecution) → Under e.tool_call_id (project_tool_execution texts e)
    unfolding project_tool_execution
    project_tool_execution-Under e =
        let P = Under e.tool_call_id in
        if-P P (is_pending e.status && is_deferred e.approval_status) refl (
          if-P P (is_awaiting_result e.status) refl (
            if-P P (is_nonterminal e.status) tt (
              if-P P (is_completed e.status) (completed_output-Under e.tool_call_id e.result)
                refl)))

    task_message-Spoken :
        (result : ExecutionResult) (ms : Option ℕ) (id : Option Json)
        → Spoken (task_message texts result ms id)
    task_message-Spoken result ms none = tt
    task_message-Spoken result ms (some id) = tt

    task_payload-Spoken :
        (result : ExecutionResult) (ms : Option ℕ) (payload : Option Fields)
        → Spoken (task_payload texts result ms payload)
    task_payload-Spoken result ms none = tt
    task_payload-Spoken result ms (some payload) =
        task_message-Spoken result ms (get_field payload "task_id")

    task_of-Spoken :
        (result : ExecutionResult) (ms : Option ℕ) (spawn : Option ToolExecution)
        → Spoken (task_of texts result ms spawn)
    task_of-Spoken result ms none = tt
    task_of-Spoken result ms (some spawn) = task_payload-Spoken result ms (spawn_payload spawn)

    child_task_message-Spoken :
        (link : ChildConversation) (result : ExecutionResult) (ms : Option ℕ)
        → Spoken (child_task_message texts link entries result ms)
    unfolding child_task_message
    child_task_message-Spoken link result ms =
        task_of-Spoken result ms (as_tool_execution (get entries link.tool_execution_id))

    resolved_link-Spoken :
        (link : ChildConversation) (result : Option ExecutionResult) (id : Option String)
        → Spoken (resolved_link texts link entries result id)
    resolved_link-Spoken link none id = tt
    resolved_link-Spoken link (some result) (some id) = tt
    resolved_link-Spoken link (some result) none = child_task_message-Spoken link result none

    updated_link-Spoken :
        (link : ChildConversation) (e : ToolExecution) (result : Option ExecutionResult)
        → Spoken (updated_link texts link e entries result)
    updated_link-Spoken link e none = tt
    updated_link-Spoken link e (some result) = child_task_message-Spoken link result e.finished_at

    some_message-Fine :
        (id : String) (out : ProjectionError ⊎ Message)
        → Answers id
        → Under id out
        → Fine (some_message out)
    some_message-Fine id (inl e) a h = tt
    some_message-Fine id (inr (Message.user blocks)) a h = absurd h
    some_message-Fine id (inr (Message.assistant blocks provider model)) a h = absurd h
    some_message-Fine id (inr (Message.tool tool_call_id blocks is_error)) a h = subst Answers h a

    execution_message-Fine :
        (private : Bool) (id : String) (e : ToolExecution)
        → get entries id ≡ some (Entry.tool_execution e)
        → is_private e.tool_spec ≡ private
        → Fine (execution_message texts private e)
    execution_message-Fine true id e h p = tt
    execution_message-Fine false id e h p =
        some_message-Fine e.tool_call_id (project_tool_execution texts e) (id, e, h, p, refl)
          (project_tool_execution-Under e)

    project_entry-Fine :
        (id : String) (entry : Entry)
        → get entries id ≡ some entry
        → Fine (project_entry texts entry entries)
    unfolding project_entry project_child_conversation project_pruned project_compaction
        project_user_message project_assistant_message
    project_entry-Fine id (Entry.user e) h = tt
    project_entry-Fine id (Entry.assistant e) h = tt
    project_entry-Fine id (Entry.tool_execution e) h =
        execution_message-Fine (is_private e.tool_spec) id e h refl
    project_entry-Fine id (Entry.compaction e) h =
        Spoken-Fine (inr (summary_message e.parts)) (summary-Spoken e.parts)
    project_entry-Fine id (Entry.child_conversation e) h =
        Spoken-Fine (resolved_link texts e entries e.execution_result e.result_execution_id)
          (resolved_link-Spoken e e.execution_result e.result_execution_id)
    project_entry-Fine id (Entry.pruned e) h =
        pruned_from-Fine e (get entries e.pruned_entry_id) refl
    project_entry-Fine id (Entry.turn_finish e) h =
        Spoken-Fine (inr (project_turn_finish e)) (finish-Spoken e)
    project_entry-Fine id (Entry.turn_start e) h = tt
    project_entry-Fine id (Entry.cancel_requested e) h = tt

    execution_at-Fine :
        (id : String) (e : ToolExecution) (link : Option ChildConversation)
        → get entries id ≡ some (Entry.tool_execution e)
        → Fine (execution_at texts e entries link)
    unfolding project_child_update
    execution_at-Fine id e none h = project_entry-Fine id (Entry.tool_execution e) h
    execution_at-Fine id e (some link) h =
        Spoken-Fine (updated_link texts link e entries link.execution_result)
          (updated_link-Spoken link e link.execution_result)

    pub project_node-Fine :
        (open_turn : Option ℕ) (index : ℕ) (id : String) (entry : Entry)
        → get entries id ≡ some entry
        → Fine (project_node texts entries open_turn index entry)
    unfolding project_node
    project_node-Fine open_turn index id (Entry.tool_execution e) h =
        execution_at-Fine id e (link_of entries e.id) h
    project_node-Fine open_turn index id (Entry.child_conversation e) h =
        if-P Fine (is_none e.execution_result && outside open_turn index) tt
          (project_entry-Fine id (Entry.child_conversation e) h)
    project_node-Fine open_turn index id entry h = project_entry-Fine id entry h
