-- ===== src/Runner/Slots/Doors.antt =====
-- The doors of the worker pool (agent/core/runner.py). A grant calls back into a handle of the runner,
-- and what is called may use the pool again before it returns or raises, so the doors are a relation
-- between the state in front of a call and the state behind it: one constructor for each path through
-- a method. `callback` is any run of code: calls of the doors, and changes of the world between them.
use luca_py.Base.{ℕ, String, ◌≡◌, true, false, some, List, [], ◌∷◌, length}
use luca_py.Base.Dict.{get}
use luca_py.Models.Session.{Conversation}
use luca_py.Runner.Slots.{
  Waiter, World, Pool, slot_limit, needs_slot, has_room, still_wants_slot, enqueue, drop_waiter,
  give_back, admit, publish, fail,
}

-- What the rest of the runner leaves alone: the limit, and the depth of a conversation.
pub record Steady (world world' : World) : Type 0 where
  pub limit : slot_limit world' ≡ slot_limit world
  pub depths :
      (id : String) (c : Conversation)
      → get world.session.conversations id ≡ some c
      → (c' : Conversation) × (get world'.session.conversations id ≡ some c') × (c'.depth ≡ c.depth)

pub data Act : Type 0 where
  request : Waiter → Act
  release : String → Act
  drop : String → Act
  pump callback : Act
  grant : Waiter → Act

pub data Step : Act → Pool → Pool → Type 0 where
  requested_at_once :
      (w : Waiter) (p p' : Pool)
      → needs_slot p.world w.conversation_id ≡ some false
      → Step (grant w) p p'
      → Step (request w) p p'
  requested :
      (w : Waiter) (p p' : Pool)
      → needs_slot p.world w.conversation_id ≡ some true
      → Step pump (enqueue w p) p'
      → Step (request w) p p'
  released : (id : String) (p p' : Pool) → Step pump (give_back id p) p' → Step (release id) p p'
  dropped : (id : String) (p : Pool) → Step (drop id) p (drop_waiter id p)
  pump_empty : (p : Pool) → p.waiters ≡ [] → Step pump p p
  pump_full : (p : Pool) → has_room (slot_limit p.world) (length p.working) ≡ false → Step pump p p
  pump_skips :
      (fuel : ℕ) (w : Waiter) (rest : List Waiter) (p p' : Pool)
      → p.waiters ≡ w ∷ rest
      → has_room (slot_limit p.world) (length p.working) ≡ true
      → still_wants_slot fuel p.world w ≡ some false
      → Step pump (record p { waiters = rest }) p'
      → Step pump p p'
  pump_grants :
      (fuel : ℕ) (w : Waiter) (rest : List Waiter) (p q p' : Pool)
      → p.waiters ≡ w ∷ rest
      → has_room (slot_limit p.world) (length p.working) ≡ true
      → still_wants_slot fuel p.world w ≡ some true
      → Step (grant w) (record p { waiters = rest }) q
      → Step pump q p'
      → Step pump p p'
  granted : (w : Waiter) (p q : Pool) → Step callback (admit w p) q → Step (grant w) p (publish w q)
  grant_failed :
      (w : Waiter) (p q p' : Pool)
      → Step callback (admit w p) q
      → Step callback (fail w q) p'
      → Step (grant w) p p'
  called_back : (p : Pool) → Step callback p p
  changed_world :
      (world : World) (p p' : Pool)
      → Steady p.world world
      → Step callback (record p { world = world }) p'
      → Step callback p p'
  called_request :
      (w : Waiter) (p q p' : Pool) → Step (request w) p q → Step callback q p' → Step callback p p'
  called_release :
      (id : String) (p q p' : Pool)
      → Step (release id) p q
      → Step callback q p'
      → Step callback p p'
  called_drop :
      (id : String) (p q p' : Pool) → Step (drop id) p q → Step callback q p' → Step callback p p'
