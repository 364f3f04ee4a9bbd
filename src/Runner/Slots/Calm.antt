-- ===== src/Runner/Slots/Calm.antt =====
-- Calls of the worker pool (agent/core/runner.py) in which each callback just returns: what the pump and
-- a grant then do.
use mathlib.Core.Option.{some-injective}
use luca_py.Base.{
  ℕ, String, ◌≡◌, refl, sym, ap, ◌∙◌, subst, Bool, true, false, Option, none, some, List, [], ◌∷◌,
  ◌++◌, length, All, arith,
}
use luca_py.Models.Session.{AgentSession}
use luca_py.Models.Status.{ConversationRuntimeStatus, get_conversation_status}
use luca_py.Models.Status.Termination.{get_conversation_status_agrees}
use luca_py.Runner.Slots.{
  Waiter, World, Pool, slot_limit, needs_slot, has_room, enqueue, still_wants_slot, give_back,
  admit, publish, is_member, unless_idle,
}
use luca_py.Runner.Slots.Doors.{
  Act, Step, request, release, drop, pump, callback, grant, requested_at_once, requested, released,
  dropped, pump_empty, pump_full, pump_skips, pump_grants, granted, grant_failed, called_back,
  changed_world, called_request, called_release, called_drop,
}
use luca_py.Runner.Slots.Granting.{Granted, quiet-Granted, quiet_member}

-- Every callback in the call returns, and does nothing else.
unfoldable pub Calm : (act : Act) (p p' : Pool) → Step act p p' → Type 0
Calm _ _ _ (requested_at_once w p p' h s) = Calm (grant w) p p' s
Calm _ _ _ (requested w p p' h s) = Calm pump (enqueue w p) p' s
Calm _ _ _ (released id p p' s) = Calm pump (give_back id p) p' s
Calm _ _ _ (dropped id p) = Unit {0}
Calm _ _ _ (pump_empty p h) = Unit {0}
Calm _ _ _ (pump_full p h) = Unit {0}
Calm _ _ _ (pump_skips fuel w rest p p' h room stale s) =
    Calm pump (record p { waiters = rest }) p' s
Calm _ _ _ (pump_grants fuel w rest p q p' h room fresh g s) =
    Calm (grant w) (record p { waiters = rest }) q g × Calm pump q p' s
Calm _ _ _ (granted w p q s) = Calm callback (admit w p) q s
Calm _ _ _ (grant_failed w p q p' s t) = ⊥
Calm _ _ _ (called_back p) = Unit {0}
Calm _ _ _ (changed_world world p p' steady s) = ⊥
Calm _ _ _ (called_request w p q p' s t) = ⊥
Calm _ _ _ (called_release id p q p' s t) = ⊥
Calm _ _ _ (called_drop id p q p' s t) = ⊥

unless_idle_agrees :
    (session : AgentSession) (id : String) (o u : Option (Option ConversationRuntimeStatus))
    (a b : Bool)
    → ((s t : ConversationRuntimeStatus) → o ≡ some (some s) → u ≡ some (some t) → s ≡ t)
    → unless_idle session id o ≡ some a
    → unless_idle session id u ≡ some b
    → a ≡ b
unless_idle_agrees session id none u a b same h k = absurd (ground (arith, h))
unless_idle_agrees session id (some none) u a b same h k = absurd (ground (arith, h))
unless_idle_agrees session id (some (some s)) none a b same h k = absurd (ground (arith, k))
unless_idle_agrees session id (some (some s)) (some none) a b same h k = absurd (ground (arith, k))
unless_idle_agrees session id (some (some s)) (some (some t)) a b same h k =
    some-injective _ _
      (sym h ∙ (ap (λ x. unless_idle session id (some (some x))) (same s t refl refl) ∙ k))

-- The test of a waiter does not depend on the fuel that settles it.
still_wants_agrees :
    (f g : ℕ) (world : World) (w : Waiter) (a b : Bool)
    → still_wants_slot f world w ≡ some a
    → still_wants_slot g world w ≡ some b
    → a ≡ b
unfolding still_wants_slot
still_wants_agrees f g world w a b h k =
    let id = w.conversation_id in
    ground (
      arith,
      h,
      k,
      unless_idle_agrees world.session id (get_conversation_status f world.session id)
          (get_conversation_status g world.session id) a b
          (get_conversation_status_agrees world.session f g id),
    )

module _ (fuel : ℕ) where
  abbrev pub Unwanted : World → Waiter → Type 0
  Unwanted world w = still_wants_slot fuel world w ≡ some false

  -- The first waiter that still wants its slot has it behind the call.
  abbrev Reaches : Pool → Pool → Type 0
  Reaches p p' =
      (stale : List Waiter) (w : Waiter) (rest : List Waiter)
      → p.waiters ≡ stale ++ (w ∷ rest)
      → All (Unwanted p.world) stale
      → still_wants_slot fuel p.world w ≡ some true
      → needs_slot p.world w.conversation_id ≡ some true
      → has_room (slot_limit p.world) (length p.working) ≡ true
      → is_member w.conversation_id p'.working ≡ true

  abbrev pub Pumps : Pool → Pool → Type 0
  Pumps p p' =
      ((x : String) → is_member x p.working ≡ true → is_member x p'.working ≡ true) × Reaches p p'

  -- What a call does where each callback just returns.
  abbrev Does : Act → Pool → Pool → Type 0
  Does (request w) p p' = Unit {0}
  Does (release id) p p' = Pumps (give_back id p) p'
  Does (drop id) p p' = Unit {0}
  Does pump p p' = Pumps p p'
  Does callback p p' = p' ≡ p
  Does (grant w) p p' = p' ≡ publish w (admit w p)

  empty-Reaches : (p p' : Pool) → p.waiters ≡ [] → Reaches p p'
  empty-Reaches p p' e [] w rest h stale wants needs room = absurd (ground (arith, e, h))
  empty-Reaches p p' e (v ∷ stale') w rest h stale wants needs room = absurd (ground (arith, e, h))

  skips-Reaches :
      (f : ℕ) (v : Waiter) (rest : List Waiter) (p p' : Pool)
      → p.waiters ≡ v ∷ rest
      → still_wants_slot f p.world v ≡ some false
      → Reaches (record p { waiters = rest }) p'
      → Reaches p p'
  skips-Reaches f v rest p p' e gone go [] w rest' h stale wants needs room =
      let same : v ≡ w = ground (arith, e, h) in
      absurd (
        ground (
          arith,
          still_wants_agrees f fuel p.world v false true gone
              (subst (λ x. still_wants_slot fuel p.world x ≡ some true) (sym same) wants),
        ))
  skips-Reaches f v rest p p' e gone go (x ∷ stale') w rest' h stale wants needs room =
      go stale' w rest' (ground (arith, e, h)) stale.1 wants needs room

  grants-Pumps :
      (f : ℕ) (v : Waiter) (rest : List Waiter) (p p' : Pool)
      → p.waiters ≡ v ∷ rest
      → still_wants_slot f p.world v ≡ some true
      → Pumps (publish v (admit v (record p { waiters = rest }))) p'
      → Pumps p p'
  grants-Pumps f v rest p p' e fresh (keeps, go) = (λ x m. keeps x (g.kept x m), reaches)
    where
      g :
          Granted v
            (record p { waiters = rest })
            (publish v (admit v (record p { waiters = rest })))
      g = quiet-Granted v (record p { waiters = rest })

      reaches : Reaches p p'
      reaches [] w rest' h stale wants needs room =
          let same : v ≡ w = ground (arith, e, h) in
          subst (λ (x : Waiter). is_member x.conversation_id p'.working ≡ true) same
            (keeps v.conversation_id (
              quiet_member v (record p { waiters = rest })
                (subst (λ (x : Waiter). needs_slot p.world x.conversation_id ≡ some true) (sym same)
                  needs)))
      reaches (x ∷ stale') w rest' h stale wants needs room =
          let same : v ≡ x = ground (arith, e, h) in
          absurd (
            ground (
              arith,
              still_wants_agrees f fuel p.world v true false fresh
                  (subst (Unwanted p.world) (sym same) stale.0),
            ))

  pub Calm-Does : (act : Act) (p p' : Pool) (s : Step act p p') → Calm act p p' s → Does act p p'
  unfolding Calm
  Calm-Does _ _ _ (requested_at_once w p p' h s) calm = tt
  Calm-Does _ _ _ (requested w p p' h s) calm = tt
  Calm-Does _ _ _ (released id p p' s) calm = Calm-Does pump (give_back id p) p' s calm
  Calm-Does _ _ _ (dropped id p) calm = tt
  Calm-Does _ _ _ (pump_empty p h) calm = (λ x m. m, empty-Reaches p p h)
  Calm-Does _ _ _ (pump_full p h) calm =
      (λ x m. m, λ stale w rest e u wants needs room. absurd (ground (arith, h, room)))
  Calm-Does _ _ _ (pump_skips f w rest p p' h room gone s) calm =
      let (keeps, go) = Calm-Does pump (record p { waiters = rest }) p' s calm in
      (keeps, skips-Reaches f w rest p p' h gone go)
  Calm-Does _ _ _ (pump_grants f w rest p q p' h room fresh g s) calm =
      let same = Calm-Does (grant w) (record p { waiters = rest }) q g calm.0 in
      grants-Pumps f w rest p p' h fresh
        (subst (λ x. Pumps x p') same (Calm-Does pump q p' s calm.1))
  Calm-Does _ _ _ (granted w p q s) calm = ap (publish w) (Calm-Does callback (admit w p) q s calm)
  Calm-Does _ _ _ (grant_failed w p q p' s t) calm = absurd calm
  Calm-Does _ _ _ (called_back p) calm = refl
  Calm-Does _ _ _ (changed_world world p p' steady s) calm = absurd calm
  Calm-Does _ _ _ (called_request w p q p' s t) calm = absurd calm
  Calm-Does _ _ _ (called_release id p q p' s t) calm = absurd calm
  Calm-Does _ _ _ (called_drop id p q p' s t) calm = absurd calm
