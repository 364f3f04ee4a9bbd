-- ===== src/Compaction/Commit/Archived.antt =====
-- The transition under `_commit` of agent/core/runner.py, where it returns.
use luca_py.Base.{
  String, ◌≡◌, sym, ap, ◌∙◌, ◌⊎◌, inl, inr, true, false, some, List, ◌∷◌, arith, subst,
}
use luca_py.Base.Dict.{get, contains}
use luca_py.Models.Tools.{ToolSpec}
use luca_py.Models.Entries.{Entry, entry_id}
use luca_py.Models.Session.{AgentSession, Conversation}
use luca_py.Ledger.{Result, ok, err, Ledger}
use luca_py.Ledger.Transition.{Transition, transition_conversation}
use luca_py.Ledger.Invariant.Contents.{StoredAs}
use luca_py.Ledger.Archiving.Batch.{Names}
use luca_py.Ledger.Archiving.Fates.{Fate, Among-Names}
use luca_py.Ledger.Archiving.Moving.{Moved, Transitioned, transition-Transitioned}

module _ (digest : ToolSpec → String) where
  -- What a transition that returns has done.
  abbrev pub Archived : String → AgentSession → Transition → Result Conversation × Ledger → Type 0
  Archived cid session t (err e, l) = Unit {0}
  Archived cid session t (ok c, l) = Moved digest cid t session c l.session

  returned-Archived :
      (cid : String) (t : Transition) (l : Ledger) (out : Result Conversation × Ledger)
      → Transitioned digest cid t l out
      → Archived cid l.session t out
  returned-Archived cid t l (err e, l') h = tt
  returned-Archived cid t l (ok c, l') h = h.0

  pub transition-Archived :
      (cid : String) (t : Transition) (l : Ledger)
      → Archived cid l.session t (transition_conversation digest cid t l)
  transition-Archived cid t l = returned-Archived cid t l _ (transition-Transitioned digest cid t l)

  module _ (final : Entry) (rest : List Entry) (s s' : AgentSession)
      (fates : (n : String) → Fate digest n (final ∷ rest) s s')
      (new : (n : String) → Names n rest → contains s.entries n ≡ false) where
    -- A stored entry is kept, but for the one that is updated.
    pub kept_but_final :
        (n : String) (e : Entry)
        → get s.entries n ≡ some e
        → (get s'.entries n ≡ some e) ⊎ (entry_id final ≡ some n)
    kept_but_final n e at = elim (fates n) [
      | inr (other, same) ↦ inl (same ∙ at)
      | inl (entry, among, named, stored) ↦ elim among [
        | inl is ↦ inr (ap entry_id (sym is) ∙ named)
        | inr more ↦ absurd (ground (arith, new n (Among-Names entry rest n more named), at))
      ]
    ]

    -- The updated one is stored under its id.
    pub final_stored :
        (n : String)
        → entry_id final ≡ some n
        → contains s.entries n ≡ true
        → (stored : Entry) × (get s'.entries n ≡ some stored) × StoredAs digest final stored
    final_stored n named there = elim (fates n) [
      | inr (other, same) ↦ absurd (other (inl named))
      | inl (entry, among, is, stored) ↦ elim among [
        | inl e ↦
            subst
              (λ x. (stored : Entry) × (get s'.entries n ≡ some stored) × StoredAs digest x stored)
              e stored
        | inr more ↦ absurd (ground (arith, new n (Among-Names entry rest n more is), there))
      ]
    ]
