-- ===== src/Tests/SlotCases.antt =====
-- The worker pool of agent/core/runner.py with one slot: two requests, and the slot given back.
use luca_py.Base.{ℕ, ◌≤◌, String, ◌≡◌, refl, ◌⊎◌, true, false, none, some, [], ◌∷◌, length, All}
use luca_py.Base.Dict.{get}
use luca_py.Models.Path
use luca_py.Models.Path.{
  open_turn_before, entry_at, select, end_before_closed_compaction_brackets, skip_brackets,
  closed_bracket_start, is_compaction_bracket, conversational_turn_count, open_turn_step_count,
}
use luca_py.Models.Session.{AgentSession, Limit, Conversation}
use luca_py.Models.Status.{
  get_conversation_status, derive_status, derive_step, open_status, open_turn_alone, closed_status,
  parent_waits, any_child_advances,
}
use luca_py.Ledger.{conversation}
use luca_py.Ledger.Reads.{open_turn_cancel_requested}
use luca_py.Runner.Slots.{
  Waiter, World, Pool, needs_slot, still_wants_slot, has_room, enqueue, give_back, admit, is_member,
  add_member, discard,
}
use luca_py.Runner.Slots.Doors.{
  Step, request, release, pump, callback, requested, released, pump_empty, pump_full, pump_grants,
  granted, called_back, called_request, called_release,
}
use luca_py.Runner.Slots.Bounds.{within_limit}
use luca_py.Runner.Slots.Settled.{nobody_waits_for_nothing}
use luca_py.Runner.Slots.Calm.{Calm}
use luca_py.Runner.Slots.Pumping.{release_reaches}
use luca_py.Samples
use luca_py.Samples.{user_entry, runtime}

abbrev child : String → Conversation
child id = record (Samples.conversation id ("u" ∷ [])) { depth = 1 }

abbrev one_slot : AgentSession
one_slot =
    let s = Samples.session (("u", user_entry "u") ∷ []) [] in
    record s {
      conversations =
          ("main", Samples.conversation "main" []) ∷ ("a", child "a") ∷ ("b", child "b") ∷ [];
      session_config = record s.session_config {
        runtime_config = record runtime { subagents_max_workers = Limit.at 1 };
      };
    }

abbrev world : World
world = record { session = one_slot; runs = []; wakes = []; handles = [] }

abbrev waiter : String → Waiter
waiter id = record { conversation_id = id; handle = none; announce = true; resume = false }

abbrev empty : Pool
empty = record { working = []; waiters = []; admission_errors = []; announced = []; world = world }

abbrev a_works : Pool
a_works = record empty { working = "a" ∷ []; announced = "a" ∷ [] }

abbrev b_waits : Pool
b_waits = enqueue (waiter "b") a_works

abbrev b_works : Pool
b_works = record empty { working = "b" ∷ []; announced = "a" ∷ "b" ∷ [] }

-- Opens the functions that the tests of the pool call.
abbrev pool_runs : ℕ
unfolding derive_status derive_step open_status open_turn_alone closed_status parent_waits
    Path.open_turn_index open_turn_before entry_at get Path.open_turn_cancel_requested select
    end_before_closed_compaction_brackets skip_brackets closed_bracket_start is_compaction_bracket
    any_child_advances get_conversation_status conversational_turn_count open_turn_step_count
    open_turn_cancel_requested conversation still_wants_slot needs_slot is_member add_member discard
pool_runs = 0

wants_a : still_wants_slot 5 world (waiter "a") ≡ some true
unfolding pool_runs
wants_a = refl

gone_is_stale : still_wants_slot 5 world (waiter "gone") ≡ some false
unfolding pool_runs
gone_is_stale = refl

a_granted : Step pump (enqueue (waiter "a") empty) a_works
unfolding pool_runs
a_granted =
    pump_grants 5 (waiter "a") [] (enqueue (waiter "a") empty) a_works a_works refl refl refl
      (granted (waiter "a") empty (admit (waiter "a") empty)
        (called_back (admit (waiter "a") empty)))
      (pump_empty a_works refl)

b_granted : Step pump (give_back "a" b_waits) b_works
unfolding pool_runs
b_granted =
    let freed : Pool = record empty { announced = "a" ∷ [] } in
    pump_grants 5 (waiter "b") [] (give_back "a" b_waits) b_works b_works refl refl refl
      (granted (waiter "b") freed (admit (waiter "b") freed)
        (called_back (admit (waiter "b") freed)))
      (pump_empty b_works refl)

a_requested : Step (request (waiter "a")) empty a_works
unfolding pool_runs
a_requested = requested (waiter "a") empty a_works refl a_granted

b_requested : Step (request (waiter "b")) a_works b_waits
unfolding pool_runs
b_requested = requested (waiter "b") a_works b_waits refl (pump_full b_waits refl)

-- One gets the only slot, the other waits until it is given back.
taking_turns : Step callback empty b_works
taking_turns = called_request (waiter "a") empty a_works b_works a_requested (
    called_request (waiter "b") a_works b_waits b_works b_requested (
      called_release "a" b_waits b_works b_works (released "a" b_waits b_works b_granted)
        (called_back b_works)))

both_asked : Step callback empty b_waits
both_asked =
    called_request (waiter "a") empty a_works b_waits a_requested
      (called_request (waiter "b") a_works b_waits b_waits b_requested (called_back b_waits))

within_limit_example :
    (length b_works.working ≤ 1)
    × All (λ id. needs_slot b_works.world id ≡ some true) b_works.working
within_limit_example = within_limit 1 empty b_works refl refl taking_turns

nobody_waits_for_nothing_example : (b_waits.waiters ≡ []) ⊎ (length b_waits.working ≡ 1)
nobody_waits_for_nothing_example =
    nobody_waits_for_nothing 1 empty b_waits refl refl refl both_asked

abbrev crowded : Pool
crowded = record a_works { waiters = waiter "gone" ∷ waiter "b" ∷ waiter "a" ∷ [] }

wants_b : still_wants_slot 5 world (waiter "b") ≡ some true
unfolding pool_runs
wants_b = refl

needs_b : needs_slot world "b" ≡ some true
unfolding pool_runs
needs_b = refl

room_left : has_room (Limit.at 1) (length (discard "a" crowded.working)) ≡ true
unfolding pool_runs
room_left = refl

release_reaches_example :
    ((p' : Pool) (s : Step (release "a") crowded p')
      → Calm (release "a") crowded p' s
      → is_member "b" p'.working ≡ true)
    × ((p' : Pool) × (s : Step (release "a") crowded p') × Calm (release "a") crowded p' s)
release_reaches_example =
    release_reaches 5 (waiter "b") (waiter "a" ∷ []) "a" (waiter "gone" ∷ []) crowded refl
      (gone_is_stale, tt) wants_b needs_b ((true, wants_a), tt) room_left
