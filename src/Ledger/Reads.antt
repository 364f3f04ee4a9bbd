-- ===== src/Ledger/Reads.antt =====
-- The reads of `SessionLedger` (agent/core/ledger.py), each scoped to one conversation.
use luca_py.Base.{ℕ, String, Bool, ◌&&◌, ◌||◌, Option, List, any, filter, is_none}
use luca_py.Models.Tools.{
  is_received, is_pending, is_running, is_awaiting_result, is_deferred, is_allowed,
}
use luca_py.Models.Entries.{ToolExecution, CancelRequested, CompactionEntry}
use luca_py.Models.Path
use luca_py.Models.Session.{AgentSession, Conversation}
use luca_py.Ledger.{Result, ok, err, conversation}

-- A read of the path and the entries of the named conversation.
abbrev pub reading {ℓ} : {A : Type ℓ} → (Conversation → A) → AgentSession → String → Result A
reading read session id = elim (conversation session id) [ err e ↦ err e | ok c ↦ ok (read c) ]

unfoldable pub open_turn_index : AgentSession → String → Result (Option ℕ)
open_turn_index session = reading (λ c. Path.open_turn_index c.nodes session.entries) session

abbrev pub executions : AgentSession → Conversation → List ToolExecution
executions session c = Path.open_turn_executions c.nodes session.entries

-- The executions of the open turn that pass a test, in path order.
abbrev pub open_turn_filter :
    (ToolExecution → Bool) → AgentSession → String → Result (List ToolExecution)
open_turn_filter test session = reading (λ c. filter test (executions session c)) session

unfoldable pub open_turn_executions : AgentSession → String → Result (List ToolExecution)
open_turn_executions session = reading (λ c. executions session c) session

unfoldable pub is_received_execution : ToolExecution → Bool
is_received_execution e = is_received e.status

unfoldable pub is_pending_execution : ToolExecution → Bool
is_pending_execution e = is_pending e.status

unfoldable pub is_undispatched_execution : ToolExecution → Bool
is_undispatched_execution e = is_received e.status || is_pending e.status

unfoldable pub is_running_execution : ToolExecution → Bool
is_running_execution e = is_running e.status

unfoldable pub is_undecided_execution : ToolExecution → Bool
is_undecided_execution e =
    is_pending e.status && (is_none e.approval_status || is_deferred e.approval_status)

unfoldable pub is_awaiting_execution : ToolExecution → Bool
is_awaiting_execution e = is_pending e.status && is_deferred e.approval_status

unfoldable pub is_ready_execution : ToolExecution → Bool
is_ready_execution e =
    (is_pending e.status || is_awaiting_result e.status) && is_allowed e.approval_status

unfoldable pub is_parked_execution : ToolExecution → Bool
is_parked_execution e = is_awaiting_result e.status

abbrev pub open_turn_received_executions : AgentSession → String → Result (List ToolExecution)
open_turn_received_executions = open_turn_filter is_received_execution

abbrev pub open_turn_pending_executions : AgentSession → String → Result (List ToolExecution)
open_turn_pending_executions = open_turn_filter is_pending_execution

abbrev pub open_turn_undispatched_executions : AgentSession → String → Result (List ToolExecution)
open_turn_undispatched_executions = open_turn_filter is_undispatched_execution

abbrev pub open_turn_running_executions : AgentSession → String → Result (List ToolExecution)
open_turn_running_executions = open_turn_filter is_running_execution

abbrev pub open_turn_undecided_executions : AgentSession → String → Result (List ToolExecution)
open_turn_undecided_executions = open_turn_filter is_undecided_execution

abbrev pub open_turn_awaiting_executions : AgentSession → String → Result (List ToolExecution)
open_turn_awaiting_executions = open_turn_filter is_awaiting_execution

abbrev pub open_turn_ready_executions : AgentSession → String → Result (List ToolExecution)
open_turn_ready_executions = open_turn_filter is_ready_execution

abbrev pub open_turn_parked_executions : AgentSession → String → Result (List ToolExecution)
open_turn_parked_executions = open_turn_filter is_parked_execution

unfoldable pub has_awaiting_approval : AgentSession → String → Result Bool
has_awaiting_approval session =
    reading (λ c. any is_awaiting_execution (executions session c)) session

unfoldable pub has_parked_executions : AgentSession → String → Result Bool
has_parked_executions session =
    reading (λ c. any is_parked_execution (executions session c)) session

unfoldable pub open_turn_has_doom_loop_flagged : AgentSession → String → Result Bool
open_turn_has_doom_loop_flagged session =
    reading (λ c. any (λ e. e.is_doom_loop_flagged) (executions session c)) session

unfoldable pub open_turn_cancel_requested : AgentSession → String → Result (Option CancelRequested)
open_turn_cancel_requested session =
    reading (λ c. Path.open_turn_cancel_requested c.nodes session.entries) session

unfoldable pub open_compaction_entry : AgentSession → String → Result (Option CompactionEntry)
open_compaction_entry session =
    reading (λ c. Path.open_compaction_entry c.nodes session.entries) session
