-- ===== src/Compaction/Commit/Laying.antt =====
-- The new path that `_commit` of agent/core/runner.py lays out.
use luca_py.Base.{
  ℕ, String, ◌≡◌, ◌⊎◌, inl, inr, Bool, false, Option, none, some, List, [], ◌∷◌, subst, filter,
  Bool-cases,
}
use luca_py.Models.Tools.{ToolSpec}
use luca_py.Models.Entries.{Entry, entry_id}
use luca_py.Models.Session.{AgentSession}
use luca_py.Ledger.{Ledger, next_id, advanced}
use luca_py.Compaction.{PlanNode, carried, created}
use luca_py.Compaction.Members.{In}
use luca_py.Compaction.Plan.{carried_ids}
use luca_py.Compaction.Commit.{
  Laid, lay_carried, lay_created, lay_after, lay_path, stamped, node_of,
}

-- Every node carried over is laid on the new path.
abbrev pub Lays : List PlanNode → Laid → Type 0
Lays plan (inl text, l) = Unit {0}
Lays plan (inr (nodes, entries), l) = (id : String) → In id (carried_ids plan) → In id nodes

In-node_of :
    (id : String) (o : Option String) (nodes : List String) → In id nodes → In id (node_of o nodes)
In-node_of id none nodes h = h
In-node_of id (some n) nodes h = inr h

lay_carried-Lays :
    (id : String) (rest : List PlanNode) (p : Laid)
    → Lays rest p
    → Lays (carried id ∷ rest) (lay_carried id p)
lay_carried-Lays id rest (inl text, l) h = tt
lay_carried-Lays id rest (inr (nodes, entries), l) h =
    λ k m. elim m [ inl e ↦ inl e | inr m' ↦ inr (h k m') ]

lay_created-Lays :
    (entry built : Entry) (rest : List PlanNode) (p : Laid)
    → Lays rest p
    → Lays (created entry ∷ rest) (lay_created built p)
lay_created-Lays entry built rest (inl text, l) h = tt
lay_created-Lays entry built rest (inr (nodes, entries), l) h =
    λ k m. In-node_of k (entry_id built) nodes (h k m)

-- A node is kept by a filter, or fails its test.
pub In-filter :
    (p : String → Bool) (n : String) (xs : List String)
    → In n xs
    → In n (filter p xs) ⊎ (p n ≡ false)
In-filter p n [] h = absurd h
In-filter p n (x ∷ xs) (inl e) = elim (Bool-cases (p x)) [
  | inl y ↦ inl (rw (y, filter) (inl e))
  | inr n' ↦ inr (subst (λ k. p k ≡ false) e n')
]
In-filter p n (x ∷ xs) (inr h) = elim (In-filter p n xs h) [
  | inr out ↦ inr out
  | inl m ↦
      inl (elim (Bool-cases (p x)) [ inl y ↦ rw (y, filter) (inr m) | inr z ↦ rw (z, filter) m ])
]

module _ (digest : ToolSpec → String) (strip : String → String)
    (complete : AgentSession → String → Entry → String ⊎ Entry) where
  pub lay_path-Lays :
      (cid : String) (ts : ℕ) (parent : Option String) (nodes : List PlanNode) (l : Ledger)
      → Lays nodes (lay_path digest strip complete cid ts parent nodes l)
  unfolding lay_path
  lay_path-Lays cid ts parent [] l = λ id h. h
  lay_path-Lays cid ts parent (carried id ∷ rest) l =
      lay_carried-Lays id rest _ (lay_path-Lays cid ts (some id) rest l)
  lay_path-Lays cid ts parent (created entry ∷ rest) l =
      behind (complete l.session cid (stamped (next_id l) parent ts entry))
        (λ parent'. lay_path-Lays cid ts parent' rest (advanced l))
    where
      behind :
          (out : String ⊎ Entry)
          → ((parent' : Option String)
              → Lays rest (lay_path digest strip complete cid ts parent' rest (advanced l)))
          → Lays (created entry ∷ rest) (
              lay_after out
                (λ parent'. lay_path digest strip complete cid ts parent' rest (advanced l))
                (advanced l))
      behind (inl text) h = tt
      behind (inr built) h = lay_created-Lays entry built rest _ (h (entry_id built))
