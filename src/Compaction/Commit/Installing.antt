-- ===== src/Compaction/Commit/Installing.antt =====
-- The transition of a `_commit` of agent/core/runner.py that returns, behind its checks.
use luca_py.Base.{
  ℕ, String, ◌≡◌, refl, sym, ◌∙◌, ◌⊎◌, inl, inr, true, false, Bool-cases, some, List, [], ◌∷◌, ◌++◌,
  arith, subst,
}
use luca_py.Base.Dict.{get, contains}
use luca_py.Models.Tools.{ToolSpec}
use luca_py.Models.Entries.{Entry, entry_id, is_turn_finish}
use luca_py.Models.Session.{AgentSession, Conversation}
use luca_py.Ledger.{Result, ok, err, Ledger, advanced}
use luca_py.Ledger.Transition.{transition_conversation}
use luca_py.Ledger.Invariant.Contents.{StoredAs}
use luca_py.Ledger.Archiving.Moving.{Closed}
use text.Mathlib.Text.{◌==◌}
use text.Mathlib.TextEquality.{eq_iff}
use text.Mathlib.TextPositions.{eq_refl}
use luca_py.Compaction.{CompactionPlan}
use luca_py.Compaction.Members.{In}
use luca_py.Compaction.Plan.{carried_ids}
use luca_py.Compaction.Commit.{Laid, install, Committed, transition_of, committed, close_path}
use luca_py.Compaction.Commit.Archived.{Archived, transition-Archived, kept_but_final, final_stored}
use luca_py.Compaction.Commit.Laying.{Lays}

module _ (digest : ToolSpec → String) (strip : String → String)
    (complete : AgentSession → String → Entry → String ⊎ Entry) where
  -- Each stored entry is kept, but for the one that is filled in, which is stored under its id.
  abbrev pub Keeps : Entry → AgentSession → AgentSession → Type 0
  Keeps final s s' =
      ((n : String) (e : Entry)
        → get s.entries n ≡ some e
        → (get s'.entries n ≡ some e) ⊎ (entry_id final ≡ some n))
      × ((n : String)
          → entry_id final ≡ some n
          → (stored : Entry) × (get s'.entries n ≡ some stored) × StoredAs digest final stored)

  -- The entry is what the hook made of a closing marker.
  abbrev pub Hooked : String → Entry → Type 0
  Hooked cid closing =
      (session : AgentSession) × (built : Entry) × (is_turn_finish (some built) ≡ true)
      × (complete session cid built ≡ inr closing)

  -- What stands at the old name: the old path, and the stored closing marker behind it.
  abbrev pub Behind : String → Conversation → AgentSession → Type 0
  Behind cid outgoing s =
      (archived : Conversation) × (closing : Entry) × (get s.conversations cid ≡ some archived)
      × Hooked cid closing
      × Closed digest (some closing) outgoing.nodes archived.nodes s

  -- What a commit of `plan` that returns has done to `session`, where the successor keeps the nodes
  -- that the plan carries over.
  abbrev pub Installs : String → AgentSession → CompactionPlan → Entry → Committed → Type 0
  Installs cid session plan final (inl e, l) = Unit {0}
  Installs cid session plan final (inr (c, final', entries), l) =
      (outgoing : Conversation) × (get session.conversations cid ≡ some outgoing)
      × (cid ≡ session.main_conversation_id)
      × (final' ≡ final)
      × (c.previous_conversation_id ≡ some outgoing.id)
      × (l.session.main_conversation_id ≡ c.id)
      × (get l.session.conversations c.id ≡ some c)
      × Behind cid outgoing l.session
      × Keeps final session l.session
      × ((n : String) → In n (carried_ids plan.nodes) → In n c.nodes)

  other_id :
      (session : AgentSession) (cid id : String) (c : Conversation)
      → get session.conversations cid ≡ some c
      → contains session.conversations id ≡ false
      → (id == cid) ≡ false
  other_id session cid id c found free = elim (Bool-cases (id == cid)) [
    | inr n ↦ n
    | inl e ↦
        let same : id ≡ cid = (eq_iff id cid).0 e in
        absurd
          (ground (arith, found, subst (λ k. contains session.conversations k ≡ false) same free))
  ]

  committed-Installs :
      (cid : String) (session : AgentSession) (plan : CompactionPlan) (final closing : Entry)
      (nodes : List String) (entries : List Entry) (ts : ℕ) (p : Result Conversation × Ledger)
      → ((id : String) → In id (carried_ids plan.nodes) → In id nodes)
      → Hooked cid closing
      → Archived digest cid session
          (transition_of digest strip complete final entries closing nodes ts)
          p
      → Installs cid session plan final (committed digest strip complete final entries p)
  committed-Installs cid session plan final closing nodes entries ts (err e, l) lays hooked h = tt
  committed-Installs cid session plan final closing nodes entries ts (ok c, l) lays hooked h =
      let (outgoing, found, main, free, path, previous, depth, moved, rows, fates, known, new) =
        h in
      let (archived, at, closed) = rows in
      (
        outgoing,
        found,
        main,
        refl,
        previous,
        moved,
        at c.id ∙ rw (eq_refl c.id) refl,
        (
          archived,
          closing,
          at cid ∙ rw (other_id session cid c.id outgoing found free) (rw (eq_refl cid) refl),
          hooked,
          closed,
        ),
        (
          kept_but_final digest final (entries ++ closing ∷ []) session l.session fates new,
          λ n named.
              final_stored digest final (entries ++ closing ∷ []) session l.session fates new n
                named (known n (inl named)),
        ),
        λ n m. subst (In n) (sym path) (lays n m),
      )

  install-Installs :
      (cid : String) (session : AgentSession) (plan : CompactionPlan) (final : Entry)
      (nodes : List String) (entries : List Entry) (ts : ℕ) (out : String ⊎ Entry) (l : Ledger)
      → l.session ≡ session
      → ((id : String) → In id (carried_ids plan.nodes) → In id nodes)
      → ((closing : Entry) → out ≡ inr closing → Hooked cid closing)
      → Installs cid session plan final
          (install digest strip complete cid ts final nodes entries out l)
  install-Installs cid session plan final nodes entries ts (inl text) l e lays hooked = tt
  install-Installs cid session plan final nodes entries ts (inr closing) l e lays hooked =
      let t = transition_of digest strip complete final entries closing nodes ts in
      committed-Installs cid session plan final closing nodes entries ts _ lays
        (hooked closing refl)
        (subst (λ s. Archived digest cid s t (transition_conversation digest cid t l)) e
          (transition-Archived digest cid t l))

  pub close_path-Installs :
      (cid : String) (session : AgentSession) (plan : CompactionPlan) (final : Entry) (ts : ℕ)
      (p : Laid)
      → p.1.session ≡ session
      → Lays plan.nodes p
      → Installs cid session plan final (close_path digest strip complete cid ts final p)
  close_path-Installs cid session plan final ts (inl text, l) e lays = tt
  close_path-Installs cid session plan final ts (inr (nodes, entries), l) e lays =
      install-Installs cid session plan final nodes entries ts _ (advanced l) e lays
        (λ closing h. (l.session, _, refl, h))
