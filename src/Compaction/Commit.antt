-- ===== src/Compaction/Commit.antt =====
-- `_commit` of agent/core/runner.py: everything that can fail, then the transition of the ledger. The
-- completion of an entry (its token count and the hooks `before_entry_written`) reads the session and
-- gives the entry or raises; it is a parameter. An entry that a hook leaves without an id adds no
-- node here, and the transition refuses it.
pub mod Refusing
pub mod Archived
pub mod Laying
pub mod Installing
pub mod Landing
use text.Mathlib.Text.{◌==◌}
use luca_py.Base.{
  ℕ, String, ◌⊎◌, inl, inr, Bool, not, Option, none, some, List, [], ◌∷◌, filter, take, last?,
}
use luca_py.Base.Dict.{get}
use luca_py.Models.Tools.{ToolSpec}
use luca_py.Models.Entries.{Entry, EntryBase, CompactionEntry, TurnOutcome, entry_id}
use luca_py.Models.Session.{AgentSession, Conversation}
use luca_py.Ledger.{LedgerError, Result, ok, err, Ledger, now, next_id, ticked, advanced}
use luca_py.Ledger.Reads.{open_turn_index}
use luca_py.Ledger.Transition.{Transition, append_id, transition_conversation}
use luca_py.Compaction.{
  PlanNode, carried, created, CompactionPlan, ConversationSnapshot, PlanError, is_member,
  validate_plan,
}
use luca_py.Compaction.Plan.{carried_ids}

-- `hook` is what a hook raised.
pub data CommitError : Type 0 where
  rejected : PlanError → CommitError
  hook : String → CommitError
  ledger : LedgerError → CommitError

-- entry.model_copy(update={"id": …, "parent_id": …, "created_at": …})
abbrev stamp : String → Option String → ℕ → EntryBase → EntryBase
stamp id parent ts base = record base { id = some id; parent_id = parent; created_at = some ts }

abbrev pub stamped : String → Option String → ℕ → Entry → Entry
stamped id parent ts (Entry.user e) = Entry.user (record e { base = stamp id parent ts e.base })
stamped id parent ts (Entry.assistant e) =
    Entry.assistant (record e { base = stamp id parent ts e.base })
stamped id parent ts (Entry.tool_execution e) =
    Entry.tool_execution (record e { base = stamp id parent ts e.base })
stamped id parent ts (Entry.turn_start e) =
    Entry.turn_start (record e { base = stamp id parent ts e.base })
stamped id parent ts (Entry.turn_finish e) =
    Entry.turn_finish (record e { base = stamp id parent ts e.base })
stamped id parent ts (Entry.cancel_requested e) =
    Entry.cancel_requested (record e { base = stamp id parent ts e.base })
stamped id parent ts (Entry.compaction e) =
    Entry.compaction (record e { base = stamp id parent ts e.base })
stamped id parent ts (Entry.child_conversation e) =
    Entry.child_conversation (record e { base = stamp id parent ts e.base })
stamped id parent ts (Entry.pruned e) = Entry.pruned (record e { base = stamp id parent ts e.base })

abbrev pub finish_entry : TurnOutcome → Option String → String → Option String → ℕ → Entry
finish_entry outcome error id parent ts = Entry.turn_finish (record {
  base = record { id = some id; parent_id = parent; created_at = some ts; context_tokens = 0 };
  outcome = outcome;
  error = error;
})

-- snapshot.nodes[:bracket]
abbrev pub before : Option ℕ → List String → List String
before none nodes = nodes
before (some bracket) nodes = take bracket nodes

-- The nodes of the path in front of the bracket that the plan does not carry over.
unfoldable pub compacted_of : CompactionPlan → Option ℕ → ConversationSnapshot → List String
compacted_of plan bracket snapshot =
    filter (λ node. not (is_member node (carried_ids plan.nodes))) (before bracket snapshot.nodes)

unfoldable pub filled_entry : CompactionPlan → List String → ℕ → CompactionEntry → CompactionEntry
filled_entry plan compacted ts entry = record entry {
  parts = plan.entry.parts;
  llm_config = plan.entry.llm_config;
  metadata = plan.entry.metadata;
  compacted_nodes = some compacted;
  ended_at = some ts;
}

-- The new path and the new entries.
abbrev pub Laid : Type 0
Laid = (String ⊎ (List String × List Entry)) × Ledger

abbrev pub lay_carried : String → Laid → Laid
lay_carried id (inl text, l) = (inl text, l)
lay_carried id (inr (nodes, entries), l) = (inr (id ∷ nodes, entries), l)

abbrev pub node_of : Option String → List String → List String
node_of none nodes = nodes
node_of (some id) nodes = id ∷ nodes

abbrev pub lay_created : Entry → Laid → Laid
lay_created entry (inl text, l) = (inl text, l)
lay_created entry (inr (nodes, entries), l) =
    (inr (node_of (entry_id entry) nodes, entry ∷ entries), l)

-- The rest of the path, behind a new entry.
abbrev pub lay_after : String ⊎ Entry → (Option String → Laid) → Ledger → Laid
lay_after (inl text) rest l = (inl text, l)
lay_after (inr built) rest l = lay_created built (rest (entry_id built))

abbrev pub Committed : Type 0
Committed = (CommitError ⊎ (Conversation × Entry × List Entry)) × Ledger

-- conversation.nodes[-1], of the conversation with this id
abbrev pub leaf_of : Option Conversation → Option String
leaf_of none = none
leaf_of (some c) = last? c.nodes

module _ (digest : ToolSpec → String) (strip : String → String)
    (complete : AgentSession → String → Entry → String ⊎ Entry) where
  -- The loop over `plan.nodes`, with the parent so far.
  unfoldable pub lay_path : String → ℕ → Option String → List PlanNode → Ledger → Laid
  lay_path conversation_id ts parent [] l = (inr ([], []), l)
  lay_path conversation_id ts parent (carried id ∷ rest) l =
      lay_carried id (lay_path conversation_id ts (some id) rest l)
  lay_path conversation_id ts parent (created entry ∷ rest) l =
      lay_after (complete l.session conversation_id (stamped (next_id l) parent ts entry))
        (λ parent'. lay_path conversation_id ts parent' rest (advanced l)) (advanced l)

  abbrev pub transition_of : Entry → List Entry → Entry → List String → ℕ → Transition
  transition_of final entries closing nodes ts = record {
    updates = final ∷ [];
    created = entries;
    closing = some closing;
    nodes = nodes;
    ts = ts;
  }

  abbrev pub committed : Entry → List Entry → Result Conversation × Ledger → Committed
  committed final entries (err e, l) = (inl (ledger e), l)
  committed final entries (ok c, l) = (inr (c, final, entries), l)

  abbrev pub install :
      String → ℕ → Entry → List String → List Entry → String ⊎ Entry → Ledger → Committed
  install conversation_id ts final nodes entries (inl text) l = (inl (hook text), l)
  install conversation_id ts final nodes entries (inr closing) l = committed final entries (
      transition_conversation digest conversation_id (transition_of final entries closing nodes ts)
        l)

  -- The closing marker, and the transition.
  abbrev pub close_path : String → ℕ → Entry → Laid → Committed
  close_path conversation_id ts final (inl text, l) = (inl (hook text), l)
  close_path conversation_id ts final (inr (nodes, entries), l) =
      install conversation_id ts final nodes entries
        (complete l.session conversation_id (
          finish_entry TurnOutcome.completed none (next_id l)
            (leaf_of (get l.session.conversations conversation_id)) ts))
        (advanced l)

  abbrev pub commit_completed : String → CompactionPlan → ℕ → String ⊎ Entry → Ledger → Committed
  commit_completed conversation_id plan ts (inl text) l = (inl (hook text), l)
  commit_completed conversation_id plan ts (inr final) l =
      close_path conversation_id ts final (lay_path conversation_id ts none plan.nodes l)

  -- From the read of the bracket on.
  abbrev pub commit_at :
      String
      → CompactionEntry
      → CompactionPlan
      → ConversationSnapshot
      → ℕ
      → Result (Option ℕ)
      → Ledger
      → Committed
  commit_at conversation_id entry plan snapshot ts (err e) l = (inl (ledger e), l)
  commit_at conversation_id entry plan snapshot ts (ok bracket) l =
      commit_completed conversation_id plan ts
        (complete l.session conversation_id
          (Entry.compaction (filled_entry plan (compacted_of plan bracket snapshot) ts entry)))
        l

  unfoldable pub commit :
      String → CompactionEntry → CompactionPlan → ConversationSnapshot → Ledger → Committed
  commit conversation_id entry plan snapshot l =
      elim (validate_plan strip plan entry.id l.session l.session.main_conversation_id snapshot) [
        | some e ↦ (inl (rejected e), l)
        | none ↦
            commit_at conversation_id entry plan snapshot (now l)
              (open_turn_index l.session conversation_id) (ticked l)
      ]
