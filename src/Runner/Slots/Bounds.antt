-- ===== src/Runner/Slots/Bounds.antt =====
-- The worker pool of agent/core/runner.py never hands out more slots than its limit.
use luca_py.Base.{
  ℕ, suc, ◌≤◌, String, ◌≡◌, refl, sym, ap, ◌∙◌, subst, Bool, true, false, Option, none, some, List,
  [], if◌then◌else◌, length, ltb, All, All-map, arith,
}
use luca_py.Models.Session.{Limit}
use luca_py.Runner.Slots.{
  Waiter, World, Pool, slot_limit, needs_slot, has_room, enqueue, drop_waiter, give_back, admit,
  publish, fail, add_member, discard, counts_in,
}
use luca_py.Runner.Slots.Doors.{
  Steady, Act, Step, request, release, drop, pump, callback, grant, requested_at_once, requested,
  released, dropped, pump_empty, pump_full, pump_skips, pump_grants, granted, grant_failed,
  called_back, changed_world, called_request, called_release, called_drop,
}
use luca_py.Runner.Slots.Members.{length-add_member, length-discard, All-add_member, All-discard}
use luca_py.Runner.Slots.Stable.{Steady-Stable, publish_world, publish_working, fail-Stable}

module _ (n : ℕ) where
  -- What holds of a pool with the limit `n`, between any two writes.
  pub record Kept (p : Pool) : Type 0 where
    pub limit : slot_limit p.world ≡ Limit.at n
    pub bounded : length p.working ≤ n
    pub needy : All (λ id. needs_slot p.world id ≡ some true) p.working

  pub Kept-same : (p q : Pool) → q.world ≡ p.world → q.working ≡ p.working → Kept p → Kept q
  Kept-same p q e f k = record {
    limit = ap slot_limit e ∙ k.limit;
    bounded = subst (λ (xs : List String). length xs ≤ n) (sym f) k.bounded;
    needy =
        subst (λ xs. All (λ id. needs_slot q.world id ≡ some true) xs) (sym f)
          (All-map _ _ p.working (λ id h. ap (λ v. needs_slot v id) e ∙ h) k.needy);
  }

  pub Kept-world :
      (world : World) (p : Pool) → Steady p.world world → Kept p → Kept (record p { world = world })
  Kept-world world p steady k =
      let (l, f) = Steady-Stable world p steady in
      record {
        limit = l ∙ k.limit;
        bounded = k.bounded;
        needy = All-map _ _ p.working (λ id h. f id true h) k.needy;
      }

  pub Kept-give_back : (id : String) (p : Pool) → Kept p → Kept (give_back id p)
  Kept-give_back id p k = record {
    limit = k.limit;
    bounded = omega (arith, length-discard id p.working, k.bounded);
    needy = All-discard _ id p.working k.needy;
  }

  pub Kept-fail : (w : Waiter) (p : Pool) → Kept p → Kept (fail w p)
  unfolding fail
  Kept-fail w p k = record {
    limit = k.limit;
    bounded = omega (arith, length-discard w.conversation_id p.working, k.bounded);
    needy =
        All-map _ _ (discard w.conversation_id p.working) (λ id h. (fail-Stable w p).1 id true h)
          (All-discard (λ id. needs_slot p.world id ≡ some true) w.conversation_id p.working
            k.needy);
  }

  -- A grant to a conversation that competes needs room.
  abbrev pub Roomy : Act → Pool → Type 0
  Roomy (grant w) p = needs_slot p.world w.conversation_id ≡ some true → suc (length p.working) ≤ n
  Roomy (request w) p = Unit {0}
  Roomy (release id) p = Unit {0}
  Roomy (drop id) p = Unit {0}
  Roomy pump p = Unit {0}
  Roomy callback p = Unit {0}

  counted : (o : Option Bool) → counts_in o ≡ true → o ≡ some true
  counted none h = absurd (ground (arith, h))
  counted (some b) h = ap some h

  pub Kept-admit : (w : Waiter) (p : Pool) → Roomy (grant w) p → Kept p → Kept (admit w p)
  Kept-admit w p room k =
      go (counts_in (needs_slot p.world w.conversation_id))
        (counted (needs_slot p.world w.conversation_id))
    where
      go :
          (b : Bool)
          → (b ≡ true → needs_slot p.world w.conversation_id ≡ some true)
          → Kept (if b then record p { working = add_member w.conversation_id p.working } else p)
      go false f = k
      go true f = record {
        limit = k.limit;
        bounded = omega (arith, length-add_member w.conversation_id p.working, room (f refl));
        needy = All-add_member _ w.conversation_id p.working (f refl) k.needy;
      }

  pub has_room-lt : (l : Limit) (m : ℕ) → l ≡ Limit.at n → has_room l m ≡ true → suc m ≤ n
  has_room-lt l m e h =
      let h' : ltb m n ≡ true = subst (λ l. has_room l m ≡ true) e h in ground (arith, h')

  pub Step-Kept : (act : Act) (p p' : Pool) → Step act p p' → Roomy act p → Kept p → Kept p'
  Step-Kept _ _ _ (requested_at_once w p p' h s) r k =
      Step-Kept (grant w) p p' s (λ e. absurd (ground (arith, h, e))) k
  Step-Kept _ _ _ (requested w p p' h s) r k =
      Step-Kept pump (enqueue w p) p' s tt (Kept-same p (enqueue w p) refl refl k)
  Step-Kept _ _ _ (released id p p' s) r k =
      Step-Kept pump (give_back id p) p' s tt (Kept-give_back id p k)
  Step-Kept _ _ _ (dropped id p) r k = Kept-same p (drop_waiter id p) refl refl k
  Step-Kept _ _ _ (pump_empty p h) r k = k
  Step-Kept _ _ _ (pump_full p h) r k = k
  Step-Kept _ _ _ (pump_skips fuel w rest p p' h room stale s) r k =
      Step-Kept pump (record p { waiters = rest }) p' s tt (Kept-same p _ refl refl k)
  Step-Kept _ _ _ (pump_grants fuel w rest p q p' h room fresh g s) r k = Step-Kept pump q p' s tt (
      Step-Kept (grant w) (record p { waiters = rest }) q g
        (λ e. has_room-lt (slot_limit p.world) (length p.working) k.limit room)
        (Kept-same p _ refl refl k))
  Step-Kept _ _ _ (granted w p q s) r k =
      Kept-same q (publish w q) (publish_world w q) (publish_working w q)
        (Step-Kept callback (admit w p) q s tt (Kept-admit w p r k))
  Step-Kept _ _ _ (grant_failed w p q p' s t) r k =
      Step-Kept callback (fail w q) p' t tt
        (Kept-fail w q (Step-Kept callback (admit w p) q s tt (Kept-admit w p r k)))
  Step-Kept _ _ _ (called_back p) r k = k
  Step-Kept _ _ _ (changed_world world p p' steady s) r k =
      Step-Kept callback (record p { world = world }) p' s tt (Kept-world world p steady k)
  Step-Kept _ _ _ (called_request w p q p' s t) r k =
      Step-Kept callback q p' t tt (Step-Kept (request w) p q s tt k)
  Step-Kept _ _ _ (called_release id p q p' s t) r k =
      Step-Kept callback q p' t tt (Step-Kept (release id) p q s tt k)
  Step-Kept _ _ _ (called_drop id p q p' s t) r k =
      Step-Kept callback q p' t tt (Step-Kept (drop id) p q s tt k)

  pub start-Kept : (p : Pool) → slot_limit p.world ≡ Limit.at n → p.working ≡ [] → Kept p
  start-Kept p l e = record {
    limit = l;
    bounded = subst (λ (xs : List String). length xs ≤ n) (sym e) (omega arith);
    needy = subst (λ xs. All (λ id. needs_slot p.world id ≡ some true) xs) (sym e) tt;
  }

  -- From a pool with the finite limit `n` in which nobody works, any sequence of requests, releases
  -- and dropped waiters, with callbacks that use the pool again or fail and with any change of the
  -- world that leaves the limit and the depths alone, leads to at most `n` conversations that hold a
  -- slot, and to none that is the main conversation.
  pub within_limit :
      (p p' : Pool)
      → slot_limit p.world ≡ Limit.at n
      → p.working ≡ []
      → Step callback p p'
      → (length p'.working ≤ n) × All (λ id. needs_slot p'.world id ≡ some true) p'.working
  within_limit p p' l e s =
      let k = Step-Kept callback p p' s tt (start-Kept p l e) in (k.bounded, k.needy)
