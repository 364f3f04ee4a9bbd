-- ===== src/Runner/Slots/Pumping.antt =====
-- A slot of the worker pool (agent/core/runner.py) that is given back, where the callbacks just return.
use luca_py.Base.{
  ℕ, String, ◌≡◌, refl, sym, subst, inl, inr, Bool, true, false, some, List, [], ◌∷◌, ◌++◌, length,
  All, Bool-cases,
}
use luca_py.Runner.Slots.{
  Waiter, World, Pool, slot_limit, needs_slot, has_room, still_wants_slot, give_back, admit,
  publish, is_member, discard,
}
use luca_py.Runner.Slots.Doors.{
  Step, release, pump, grant, released, pump_empty, pump_full, pump_skips, pump_grants,
}
use luca_py.Runner.Slots.Granting.{quiet, quiet-Granted}
use luca_py.Runner.Slots.Calm.{Calm, Calm-Does, Unwanted}

quiet-Calm : (w : Waiter) (p : Pool) → Calm (grant w) p (publish w (admit w p)) (quiet w p)
unfolding Calm
quiet-Calm w p = tt

module _ (fuel : ℕ) where
  -- Whether a waiter still wants its slot is settled within the fuel.
  abbrev pub Decided : World → Waiter → Type 0
  Decided world w = (b : Bool) × (still_wants_slot fuel world w ≡ some b)

  abbrev Pumped : Pool → Type 0
  Pumped p = (p' : Pool) × (s : Step pump p p') × Calm pump p p' s

  pump_returns :
      (ws : List Waiter) (p : Pool) → p.waiters ≡ ws → All (Decided p.world) ws → Pumped p
  unfolding Calm
  pump_returns [] p e d = (p, pump_empty p e, tt)
  pump_returns (w ∷ ws) p e d =
      elim (Bool-cases (has_room (slot_limit p.world) (length p.working))) [
        | inr full ↦ (p, pump_full p full, tt)
        | inl room ↦
            decided d.0.0 d.0.1 room (pump_returns ws (record p { waiters = ws }) refl d.1)
              (λ q world waiters.
                pump_returns ws q waiters (subst (λ v. All (Decided v) ws) (sym world) d.1))
      ]
    where
      decided :
          (b : Bool)
          → still_wants_slot fuel p.world w ≡ some b
          → has_room (slot_limit p.world) (length p.working) ≡ true
          → Pumped (record p { waiters = ws })
          → ((q : Pool) → q.world ≡ p.world → q.waiters ≡ ws → Pumped q)
          → Pumped p
      decided false h room (p', s, calm) go = (p', pump_skips fuel w ws p p' e room h s, calm)
      decided true h room skipped go =
          let popped : Pool = record p { waiters = ws } in
          let g = quiet-Granted w popped in
          let (p', s, calm) = go (publish w (admit w popped)) g.world g.waiters in
          (
            p',
            pump_grants fuel w ws p (publish w (admit w popped)) p' e room h (quiet w popped) s,
            (quiet-Calm w popped, calm),
          )

  settled_ahead :
      (world : World) (stale : List Waiter) (w : Waiter) (rest : List Waiter)
      → All (Unwanted fuel world) stale
      → still_wants_slot fuel world w ≡ some true
      → All (Decided world) rest
      → All (Decided world) (stale ++ (w ∷ rest))
  settled_ahead world [] w rest u wants d = ((true, wants), d)
  settled_ahead world (v ∷ stale) w rest u wants d =
      ((false, u.0), settled_ahead world stale w rest u.1 wants d)

  -- A waiter `w` that still wants its slot, behind waiters that no longer do: when a conversation
  -- gives its slot back and that makes room, then `w`'s conversation holds a slot behind every call of
  -- `_release_slot` in which each callback returns and does nothing else, and there is such a call
  -- that comes to its end. It takes that the status behind each waiter's test is derived within the
  -- fuel.
  pub release_reaches :
      (w : Waiter) (rest : List Waiter) (id : String) (stale : List Waiter) (p : Pool)
      → p.waiters ≡ (stale ++ (w ∷ rest))
      → All (Unwanted fuel p.world) stale
      → still_wants_slot fuel p.world w ≡ some true
      → needs_slot p.world w.conversation_id ≡ some true
      → All (Decided p.world) rest
      → has_room (slot_limit p.world) (length (discard id p.working)) ≡ true
      → ((p' : Pool) (s : Step (release id) p p')
          → Calm (release id) p p' s
          → is_member w.conversation_id p'.working ≡ true)
        × ((p' : Pool) × (s : Step (release id) p p') × Calm (release id) p p' s)
  unfolding Calm
  release_reaches w rest id stale p e u wants needs d room =
      let (p', s, calm) =
        pump_returns (stale ++ (w ∷ rest)) (give_back id p) e
          (settled_ahead p.world stale w rest u wants d) in
      (
        λ q t still. (Calm-Does fuel (release id) p q t still).1 stale w rest e u wants needs room,
        (p', released id p p' s, calm),
      )
