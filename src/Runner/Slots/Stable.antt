-- ===== src/Runner/Slots/Stable.antt =====
-- Through all that happens at the worker pool (agent/core/runner.py) the limit stays, and so does
-- whether a conversation competes for a slot.
use luca_py.Base.{String, ◌≡◌, refl, ap, ◌∙◌, Bool, Option, none, some, ltb, arith, if-P}
use luca_py.Base.Dict.{get}
use luca_py.Models.Session.{Limit, Conversation}
use luca_py.Runner.Slots.{
  Waiter, World, Pool, slot_limit, needs_under, needs_slot, enqueue, give_back, admit, publish,
  fail, counts_in,
}
use luca_py.Runner.Slots.Doors.{
  Steady, Act, Step, request, release, drop, pump, callback, grant, requested_at_once, requested,
  released, dropped, pump_empty, pump_full, pump_skips, pump_grants, granted, grant_failed,
  called_back, changed_world, called_request, called_release, called_drop,
}

-- Whether a conversation competes for a slot does not change.
abbrev pub Stable : Pool → Pool → Type 0
Stable p p' =
    (slot_limit p'.world ≡ slot_limit p.world)
    × ((id : String) (b : Bool) → needs_slot p.world id ≡ some b → needs_slot p'.world id ≡ some b)

Stable-refl : (p : Pool) → Stable p p
Stable-refl p = (refl, λ id b h. h)

Stable-trans : (p q r : Pool) → Stable p q → Stable q r → Stable p r
Stable-trans p q r h k = (k.0 ∙ h.0, λ id b e. k.1 id b (h.1 id b e))

needs_under-steady :
    (limit : Limit) (o o' : Option Conversation) (b : Bool)
    → ((c : Conversation)
        → o ≡ some c
        → (c' : Conversation) × (o' ≡ some c') × (c'.depth ≡ c.depth))
    → needs_under limit o ≡ some b
    → needs_under limit o' ≡ some b
needs_under-steady Limit.inf o o' b f h = h
needs_under-steady (Limit.at n) none o' b f h = absurd (ground (arith, h))
needs_under-steady (Limit.at n) (some c) o' b f h =
    let (c', there, same) = f c refl in
    ap (needs_under (Limit.at n)) there ∙ (ap (λ d. some (ltb 0 d)) same ∙ h)

pub Steady-Stable :
    (world : World) (p : Pool) → Steady p.world world → Stable p (record p { world = world })
unfolding needs_slot
Steady-Stable world p steady = (
  steady.limit,
  λ id b h.
      needs_under-steady (slot_limit world) (get p.world.session.conversations id)
        (get world.session.conversations id) b (steady.depths id)
        (ap (λ l. needs_under l (get p.world.session.conversations id)) steady.limit ∙ h),
)

pub fail-Stable : (w : Waiter) (p : Pool) → Stable p (fail w p)
unfolding fail needs_slot
fail-Stable w p = (refl, λ id b h. h)

-- Admitting and announcing leave the world as it is.
pub admit_world : (w : Waiter) (p : Pool) → (admit w p).world ≡ p.world
admit_world w p =
    if-P (λ (q : Pool). q.world ≡ p.world) (counts_in (needs_slot p.world w.conversation_id)) refl
      refl

pub publish_world : (w : Waiter) (p : Pool) → (publish w p).world ≡ p.world
publish_world w p = if-P (λ (q : Pool). q.world ≡ p.world) w.announce refl refl

pub publish_working : (w : Waiter) (p : Pool) → (publish w p).working ≡ p.working
publish_working w p = if-P (λ (q : Pool). q.working ≡ p.working) w.announce refl refl

Stable-same : (p q : Pool) → q.world ≡ p.world → Stable p q
Stable-same p q e = (ap slot_limit e, λ id b h. ap (λ v. needs_slot v id) e ∙ h)

pub Step-Stable : (act : Act) (p p' : Pool) → Step act p p' → Stable p p'
Step-Stable _ _ _ (requested_at_once w p p' h s) = Step-Stable (grant w) p p' s
Step-Stable _ _ _ (requested w p p' h s) = Step-Stable pump (enqueue w p) p' s
Step-Stable _ _ _ (released id p p' s) = Step-Stable pump (give_back id p) p' s
Step-Stable _ _ _ (dropped id p) = Stable-refl p
Step-Stable _ _ _ (pump_empty p h) = Stable-refl p
Step-Stable _ _ _ (pump_full p h) = Stable-refl p
Step-Stable _ _ _ (pump_skips fuel w rest p p' h r n s) =
    Step-Stable pump (record p { waiters = rest }) p' s
Step-Stable _ _ _ (pump_grants fuel w rest p q p' h r y g s) =
    Stable-trans p q p' (Step-Stable (grant w) (record p { waiters = rest }) q g)
      (Step-Stable pump q p' s)
Step-Stable _ _ _ (granted w p q s) =
    Stable-trans p (admit w p) (publish w q) (Stable-same p (admit w p) (admit_world w p)) (
      Stable-trans (admit w p) q (publish w q) (Step-Stable callback (admit w p) q s)
        (Stable-same q (publish w q) (publish_world w q)))
Step-Stable _ _ _ (grant_failed w p q p' s t) =
    Stable-trans p (admit w p) p' (Stable-same p (admit w p) (admit_world w p)) (
      Stable-trans (admit w p) q p' (Step-Stable callback (admit w p) q s)
        (Stable-trans q (fail w q) p' (fail-Stable w q) (Step-Stable callback (fail w q) p' t)))
Step-Stable _ _ _ (called_back p) = Stable-refl p
Step-Stable _ _ _ (changed_world world p p' steady s) =
    Stable-trans p (record p { world = world }) p' (Steady-Stable world p steady)
      (Step-Stable callback (record p { world = world }) p' s)
Step-Stable _ _ _ (called_request w p q p' s t) =
    Stable-trans p q p' (Step-Stable (request w) p q s) (Step-Stable callback q p' t)
Step-Stable _ _ _ (called_release id p q p' s t) =
    Stable-trans p q p' (Step-Stable (release id) p q s) (Step-Stable callback q p' t)
Step-Stable _ _ _ (called_drop id p q p' s t) =
    Stable-trans p q p' (Step-Stable (drop id) p q s) (Step-Stable callback q p' t)
