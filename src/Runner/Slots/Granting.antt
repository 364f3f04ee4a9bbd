-- ===== src/Runner/Slots/Granting.antt =====
-- A grant of the worker pool (agent/core/runner.py) whose callback returns and does nothing else.
use luca_py.Base.{
  String, ◌≡◌, refl, ap, ◌∙◌, Bool, true, false, ◌||◌, some, List, [], ◌∷◌, ◌++◌, if◌then◌else◌,
  any, arith, if-P,
}
use text.Mathlib.Text.{◌==◌}
use text.Mathlib.TextPositions.{eq_refl}
use luca_py.Runner.Slots.{
  Waiter, Pool, needs_slot, admit, publish, is_member, add_member, counts_in,
}
use luca_py.Runner.Slots.Doors.{Step, grant, granted, called_back}

any-append :
    (x : String) (xs ys : List String)
    → any (λ y. y == x) (xs ++ ys) ≡ (any (λ y. y == x) xs || any (λ y. y == x) ys)
any-append x [] ys = refl
any-append x (y ∷ xs) ys = ground (arith, any-append x xs ys)

is_member-add_member :
    (x y : String) (xs : List String) → is_member x xs ≡ true → is_member x (add_member y xs) ≡ true
unfolding is_member add_member
is_member-add_member x y xs h =
    if-P (λ ys. is_member x ys ≡ true) (is_member y xs) h
      (any-append x xs (y ∷ []) ∙ ground (arith, h))

is_member-add_member_self : (x : String) (xs : List String) → is_member x (add_member x xs) ≡ true
unfolding is_member add_member
is_member-add_member_self x xs = chosen (is_member x xs) (λ h. h)
  where
    chosen :
        (b : Bool)
        → (b ≡ true → is_member x xs ≡ true)
        → is_member x (if b then xs else xs ++ (x ∷ [])) ≡ true
    chosen true f = f refl
    chosen false f = any-append x xs (x ∷ []) ∙ ground (arith, eq_refl x)

-- A grant whose callback returns and does nothing else.
abbrev pub quiet : (w : Waiter) (p : Pool) → Step (grant w) p (publish w (admit w p))
quiet w p = granted w p (admit w p) (called_back (admit w p))

-- What such a grant does to a pool.
pub record Granted (w : Waiter) (p q : Pool) : Type 0 where
  pub world : q.world ≡ p.world
  pub waiters : q.waiters ≡ p.waiters
  pub kept : (x : String) → is_member x p.working ≡ true → is_member x q.working ≡ true

admit-Granted : (w : Waiter) (p : Pool) → Granted w p (admit w p)
admit-Granted w p =
    if-P (Granted w p) (counts_in (needs_slot p.world w.conversation_id))
      (record {
        world = refl;
        waiters = refl;
        kept = λ x. is_member-add_member x w.conversation_id p.working;
      })
      (record { world = refl; waiters = refl; kept = λ x h. h })

publish-Granted : (w : Waiter) (p q : Pool) → Granted w p q → Granted w p (publish w q)
publish-Granted w p q g =
    if-P (Granted w p) w.announce (record { world = g.world; waiters = g.waiters; kept = g.kept }) g

pub quiet-Granted : (w : Waiter) (p : Pool) → Granted w p (publish w (admit w p))
quiet-Granted w p = publish-Granted w p (admit w p) (admit-Granted w p)

admit_member :
    (w : Waiter) (p : Pool)
    → needs_slot p.world w.conversation_id ≡ some true
    → is_member w.conversation_id (admit w p).working ≡ true
admit_member w p h = counted (counts_in (needs_slot p.world w.conversation_id)) (ap counts_in h)
  where
    counted :
        (b : Bool)
        → b ≡ true
        → is_member w.conversation_id
            (if b then record p { working = add_member w.conversation_id p.working } else p).working
          ≡ true
    counted true e = is_member-add_member_self w.conversation_id p.working
    counted false e = absurd (ground (arith, e))

pub quiet_member :
    (w : Waiter) (p : Pool)
    → needs_slot p.world w.conversation_id ≡ some true
    → is_member w.conversation_id (publish w (admit w p)).working ≡ true
quiet_member w p h =
    if-P (λ (q : Pool). is_member w.conversation_id q.working ≡ true) w.announce
      (admit_member w p h) (admit_member w p h)
