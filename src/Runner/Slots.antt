-- ===== src/Runner/Slots.antt =====
-- The subagent worker pool (agent/core/runner.py): its state, the tests that it makes and its single
-- writes. Doors has the methods.
pub mod Doors
pub mod Members
pub mod Stable
pub mod Bounds
pub mod Settled
pub mod Granting
pub mod Calm
pub mod Pumping
use text.Mathlib.Text.{◌==◌}
use luca_py.Base.{
  ℕ, String, Bool, true, false, not, ◌||◌, Option, none, some, List, [], ◌∷◌, ◌++◌, if◌then◌else◌,
  length, any, filter, ltb, get_elem?,
}
use luca_py.Base.Dict.{get, contains}
use luca_py.Models.Entries.{CancelRequested}
use luca_py.Models.Session.{AgentSession, Limit, Conversation}
use luca_py.Models.Status.{
  ConversationStatus, ConversationRuntimeStatus, busy, idle, blocked, cancelling,
  get_conversation_status,
}
use luca_py.Ledger.{Result, ok, err}
use luca_py.Ledger.Reads.{open_turn_cancel_requested}

-- `_SlotWaiter`: the handle by its place among the runner's handles. What `grant` does is `callback`.
pub record Waiter : Type 0 where
  pub conversation_id : String
  pub handle : Option ℕ
  pub announce : Bool
  pub resume : Bool

-- The fields of an `AgentRun` that the pool reads: `_abandoned`, and whether `_task` is done.
pub record Handle : Type 0 where
  pub abandoned : Bool
  pub task : Option Bool

-- The rest of the runner: the session, the keys of `_runs` and `_wakes`, the handles.
pub record World : Type 0 where
  pub session : AgentSession
  pub runs : List String
  pub wakes : List String
  pub handles : List Handle

-- `announced` is what `SubagentStarted` was published for.
pub record Pool : Type 0 where
  pub working : List String
  pub waiters : List Waiter
  pub admission_errors : List String
  pub announced : List String
  pub world : World

unfoldable pub is_member : String → List String → Bool
is_member x xs = any (λ y. y == x) xs

-- A set: xs.add(x), xs.discard(x)
unfoldable pub add_member : String → List String → List String
add_member x xs = if is_member x xs then xs else xs ++ (x ∷ [])

unfoldable pub discard : String → List String → List String
discard x [] = []
discard x (y ∷ ys) = if y == x then discard x ys else y ∷ discard x ys

abbrev pub slot_limit : World → Limit
slot_limit world = world.session.session_config.runtime_config.subagents_max_workers

-- `none` is the KeyError of a conversation that the session lacks; `Inf` looks nothing up.
abbrev pub needs_under : Limit → Option Conversation → Option Bool
needs_under Limit.inf c = some false
needs_under (Limit.at n) none = none
needs_under (Limit.at n) (some c) = some (ltb 0 c.depth)

unfoldable pub needs_slot : World → String → Option Bool
needs_slot world conversation_id =
    needs_under (slot_limit world) (get world.session.conversations conversation_id)

abbrev pub has_room : Limit → ℕ → Bool
has_room Limit.inf n = true
has_room (Limit.at m) n = ltb n m

abbrev pub handle_of : World → Option ℕ → Option Handle
handle_of world none = none
handle_of world (some i) = get_elem? world.handles i

abbrev pub is_abandoned : Option Handle → Bool
is_abandoned none = false
is_abandoned (some h) = h.abandoned

abbrev pub is_done : Option Bool → Bool
is_done none = true
is_done (some done) = done

-- `_task is not None and not _task.done()`
abbrev pub is_driving : Option Handle → Bool
is_driving none = false
is_driving (some h) = not (is_done h.task)

abbrev pub is_idle : ConversationStatus → Bool
is_idle idle = true
is_idle busy = false
is_idle blocked = false
is_idle cancelling = false

abbrev pub unless_cancelled : Result (Option CancelRequested) → Option Bool
unless_cancelled (ok none) = some true
unless_cancelled (ok (some c)) = some false
unless_cancelled (err e) = none

abbrev pub unless_idle :
    AgentSession → String → Option (Option ConversationRuntimeStatus) → Option Bool
unless_idle session conversation_id none = none
unless_idle session conversation_id (some none) = none
unless_idle session conversation_id (some (some status)) =
    if is_idle status.status
    then some false
    else unless_cancelled (open_turn_cancel_requested session conversation_id)

-- `none` is a derivation of the status that goes deeper than the fuel.
unfoldable pub still_wants_slot : ℕ → World → Waiter → Option Bool
still_wants_slot fuel world waiter =
    let id = waiter.conversation_id in
    let handle = handle_of world waiter.handle in
    if is_abandoned handle
    then some false
    else if is_driving handle
    then some false
    else if not (contains world.session.conversations id)
    then some false
    else if waiter.resume
    then some (is_member id world.runs || is_member id world.wakes)
    else if is_member id world.runs
    then some false
    else unless_idle world.session id (get_conversation_status fuel world.session id)

-- self._waiters.append(waiter)
abbrev pub enqueue : Waiter → Pool → Pool
enqueue waiter p = record p { waiters = p.waiters ++ (waiter ∷ []) }

abbrev pub drop_waiter : String → Pool → Pool
drop_waiter conversation_id p = record p {
  waiters = filter (λ w. not (w.conversation_id == conversation_id)) p.waiters;
}

abbrev pub give_back : String → Pool → Pool
give_back conversation_id p = record p { working = discard conversation_id p.working }

abbrev pub counts_in : Option Bool → Bool
counts_in none = false
counts_in (some needs) = needs

-- if self._needs_slot(…): self._working.add(…)
abbrev pub admit : Waiter → Pool → Pool
admit waiter p =
    if counts_in (needs_slot p.world waiter.conversation_id)
    then record p { working = add_member waiter.conversation_id p.working }
    else p

abbrev pub publish : Waiter → Pool → Pool
publish waiter p =
    if waiter.announce
    then record p { announced = p.announced ++ (waiter.conversation_id ∷ []) }
    else p

abbrev pub abandon_at : Option ℕ → List Handle → List Handle
abandon_at none handles = handles
abandon_at (some i) [] = []
abandon_at (some ℕ.zero) (h ∷ handles) = record h { abandoned = true } ∷ handles
abandon_at (some (ℕ.suc i)) (h ∷ handles) = h ∷ abandon_at (some i) handles

-- The grant has raised.
unfoldable pub fail : Waiter → Pool → Pool
fail waiter p = record p {
  working = discard waiter.conversation_id p.working;
  admission_errors = add_member waiter.conversation_id p.admission_errors;
  world = record p.world { handles = abandon_at waiter.handle p.world.handles };
}
