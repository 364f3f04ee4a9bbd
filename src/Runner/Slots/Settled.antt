-- ===== src/Runner/Slots/Settled.antt =====
-- The worker pool of agent/core/runner.py leaves no waiter behind while a slot is free.
use luca_py.Base.{
  ℕ, ◌≤◌, String, ◌≡◌, refl, sym, ap, ◌∙◌, subst, ◌⊎◌, inl, inr, true, false, not, some, List, [],
  length, filter, ltb, arith, if-P,
}
use text.Mathlib.Text.{◌==◌}
use luca_py.Models.Session.{Limit}
use luca_py.Runner.Slots.{
  Waiter, Pool, slot_limit, needs_slot, has_room, enqueue, drop_waiter, give_back, admit, publish,
  fail,
}
use luca_py.Runner.Slots.Doors.{
  Act, Step, request, release, drop, pump, callback, grant, requested_at_once, requested, released,
  dropped, pump_empty, pump_full, pump_skips, pump_grants, granted, grant_failed, called_back,
  changed_world, called_request, called_release, called_drop,
}
use luca_py.Runner.Slots.Members.{discard-absent}
use luca_py.Runner.Slots.Stable.{Step-Stable, admit_world}
use luca_py.Runner.Slots.Bounds.{
  Kept, Kept-same, Kept-world, Kept-give_back, Kept-fail, Kept-admit, Roomy, Step-Kept, start-Kept,
  has_room-lt,
}

publish_kept :
    (w : Waiter) (p : Pool)
    → ((publish w p).working ≡ p.working) × ((publish w p).waiters ≡ p.waiters)
publish_kept w p =
    if-P (λ (q : Pool). (q.working ≡ p.working) × (q.waiters ≡ p.waiters)) w.announce (refl, refl)
      (refl, refl)

module _ (n : ℕ) where
  -- No waiter, or no room.
  abbrev pub Settled : Pool → Type 0
  Settled p = (p.waiters ≡ []) ⊎ (n ≤ length p.working)

  Settled-same :
      (p q : Pool) → q.working ≡ p.working → q.waiters ≡ p.waiters → Settled p → Settled q
  Settled-same p q e f (inl h) = inl (f ∙ h)
  Settled-same p q e f (inr h) = inr (subst (λ (xs : List String). n ≤ length xs) (sym e) h)

  Settled-drop : (id : String) (p : Pool) → Settled p → Settled (drop_waiter id p)
  Settled-drop id p (inl h) = inl (ap (filter (λ (w : Waiter). not (w.conversation_id == id))) h)
  Settled-drop id p (inr h) = inr h

  no_room : (l : Limit) (m : ℕ) → l ≡ Limit.at n → has_room l m ≡ false → n ≤ m
  no_room l m e h =
      let h' : ltb m n ≡ false = subst (λ l. has_room l m ≡ false) e h in ground (arith, h')

  admit_at_once :
      (w : Waiter) (p : Pool) → needs_slot p.world w.conversation_id ≡ some false → admit w p ≡ p
  admit_at_once w p h = rw h refl

  -- Where the conversation does not compete, a failed grant takes no slot from anyone.
  fail_at_once :
      (w : Waiter) (q : Pool)
      → Kept n q
      → needs_slot q.world w.conversation_id ≡ some false
      → (fail w q).working ≡ q.working
  unfolding fail
  fail_at_once w q k h =
      discard-absent (λ id. needs_slot q.world id ≡ some true) w.conversation_id q.working k.needy
        (λ t. absurd (ground (arith, h, t)))

  Settled-fail :
      (w : Waiter) (q : Pool) → (fail w q).working ≡ q.working → Settled q → Settled (fail w q)
  unfolding fail
  Settled-fail w q e h = Settled-same q (fail w q) e refl h

  -- What a pool must be like in front of each act.
  abbrev Ready : Act → Pool → Type 0
  Ready (request w) p = Settled p
  Ready (release id) p = Unit {0}
  Ready (drop id) p = Settled p
  Ready pump p = Unit {0}
  Ready callback p = Settled p
  Ready (grant w) p = Settled p × (needs_slot p.world w.conversation_id ≡ some false)

  abbrev Leaves : Act → Pool → Pool → Type 0
  Leaves act p p' = Kept n p → Roomy n act p → Ready act p → Settled p'

  Step-Settled : (act : Act) (p p' : Pool) → Step act p p' → Leaves act p p'
  Step-Settled _ _ _ (requested_at_once w p p' h s) k r ready =
      Step-Settled (grant w) p p' s k (λ e. absurd (ground (arith, h, e))) (ready, h)
  Step-Settled _ _ _ (requested w p p' h s) k r ready =
      Step-Settled pump (enqueue w p) p' s (Kept-same n p (enqueue w p) refl refl k) tt tt
  Step-Settled _ _ _ (released id p p' s) k r ready =
      Step-Settled pump (give_back id p) p' s (Kept-give_back n id p k) tt tt
  Step-Settled _ _ _ (dropped id p) k r ready = Settled-drop id p ready
  Step-Settled _ _ _ (pump_empty p h) k r ready = inl h
  Step-Settled _ _ _ (pump_full p h) k r ready =
      inr (no_room (slot_limit p.world) (length p.working) k.limit h)
  Step-Settled _ _ _ (pump_skips fuel w rest p p' h room stale s) k r ready =
      Step-Settled pump (record p { waiters = rest }) p' s (Kept-same n p _ refl refl k) tt tt
  Step-Settled _ _ _ (pump_grants fuel w rest p q p' h room fresh g s) k r ready =
      Step-Settled pump q p' s
        (Step-Kept n (grant w) (record p { waiters = rest }) q g
          (λ e. has_room-lt n (slot_limit p.world) (length p.working) k.limit room)
          (Kept-same n p _ refl refl k))
        tt tt
  Step-Settled _ _ _ (granted w p q s) k r (settled, free) =
      let k' = Kept-admit n w p r k in
      let (e, f) = publish_kept w q in
      Settled-same q (publish w q) e f (
        Step-Settled callback (admit w p) q s k' tt
          (subst Settled (sym (admit_at_once w p free)) settled))
  Step-Settled _ _ _ (grant_failed w p q p' s t) k r (settled, free) =
      let k' = Kept-admit n w p r k in
      let kq = Step-Kept n callback (admit w p) q s tt k' in
      let free' : needs_slot (admit w p).world w.conversation_id ≡ some false =
        ap (λ v. needs_slot v w.conversation_id) (admit_world w p) ∙ free in
      let settled' =
        Step-Settled callback (admit w p) q s k' tt
          (subst Settled (sym (admit_at_once w p free)) settled) in
      Step-Settled callback (fail w q) p' t (Kept-fail n w q kq) tt (
        Settled-fail w q
          (fail_at_once w q kq
            ((Step-Stable callback (admit w p) q s).1 w.conversation_id false free'))
          settled')
  Step-Settled _ _ _ (called_back p) k r ready = ready
  Step-Settled _ _ _ (changed_world world p p' steady s) k r ready =
      Step-Settled callback (record p { world = world }) p' s (Kept-world n world p steady k) tt
        ready
  Step-Settled _ _ _ (called_request w p q p' s t) k r ready =
      Step-Settled callback q p' t (Step-Kept n (request w) p q s tt k) tt
        (Step-Settled (request w) p q s k tt ready)
  Step-Settled _ _ _ (called_release id p q p' s t) k r ready =
      Step-Settled callback q p' t (Step-Kept n (release id) p q s tt k) tt
        (Step-Settled (release id) p q s k tt tt)
  Step-Settled _ _ _ (called_drop id p q p' s t) k r ready =
      Step-Settled callback q p' t (Step-Kept n (drop id) p q s tt k) tt
        (Step-Settled (drop id) p q s k tt ready)

  -- From a pool with the finite limit `n` that nobody works in or waits for, any sequence of requests,
  -- releases and dropped waiters, with callbacks that use the pool again or fail and with any change
  -- of the world that leaves the limit and the depths alone, leads to a pool in which nobody waits or
  -- exactly `n` conversations hold a slot.
  pub nobody_waits_for_nothing :
      (p p' : Pool)
      → slot_limit p.world ≡ Limit.at n
      → p.working ≡ []
      → p.waiters ≡ []
      → Step callback p p'
      → (p'.waiters ≡ []) ⊎ (length p'.working ≡ n)
  nobody_waits_for_nothing p p' l e f s =
      let k = start-Kept n p l e in
      let k' = Step-Kept n callback p p' s tt k in
      elim (Step-Settled callback p p' s k tt (inl f)) [
        | inl h ↦ inl h
        | inr h ↦ inr (omega (arith, h, k'.bounded))
      ]
