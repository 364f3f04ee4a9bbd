-- ===== src/Compaction/Commit/Refusing.antt =====
-- A `_commit` of agent/core/runner.py that fails.
use luca_py.Base.{
  ℕ, String, ◌≡◌, refl, ap, ◌∙◌, ◌⊎◌, inl, inr, Option, none, some, List, [], ◌∷◌, subst,
}
use luca_py.Models.Tools.{ToolSpec}
use luca_py.Models.Entries.{Entry, CompactionEntry, entry_id}
use luca_py.Models.Session.{AgentSession, Conversation}
use luca_py.Ledger.{LedgerError, Result, ok, err, Ledger, now, next_id, ticked, advanced}
use luca_py.Ledger.Archiving.{transition_atomic}
use luca_py.Ledger.Reads.{open_turn_index}
use luca_py.Compaction.{
  PlanNode, carried, created, CompactionPlan, ConversationSnapshot, PlanError, validate_plan,
}
use luca_py.Compaction.Commit.{
  CommitError, Laid, lay_carried, lay_created, lay_after, install, Committed, lay_path, stamped,
  committed, close_path, commit_completed, commit_at, commit,
}

-- Nothing is written where an error is given.
abbrev Atomic : AgentSession → Committed → Type 0
Atomic session (inl e, l) = l.session ≡ session
Atomic session (inr c, l) = Unit {0}

module _ (digest : ToolSpec → String) (strip : String → String)
    (complete : AgentSession → String → Entry → String ⊎ Entry) where
  lay_carried_session : (id : String) (p : Laid) → (lay_carried id p).1 ≡ p.1
  lay_carried_session id (inl text, l) = refl
  lay_carried_session id (inr laid, l) = refl

  lay_created_session : (entry : Entry) (p : Laid) → (lay_created entry p).1 ≡ p.1
  lay_created_session entry (inl text, l) = refl
  lay_created_session entry (inr laid, l) = refl

  -- Laying out a path only mints ids.
  pub lay_path_session :
      (cid : String) (ts : ℕ) (parent : Option String) (nodes : List PlanNode) (l : Ledger)
      → (lay_path digest strip complete cid ts parent nodes l).1.session ≡ l.session
  unfolding lay_path
  lay_path_session cid ts parent [] l = refl
  lay_path_session cid ts parent (carried id ∷ rest) l =
      ap (λ (m : Ledger). m.session) (lay_carried_session id _)
      ∙ lay_path_session cid ts (some id) rest l
  lay_path_session cid ts parent (created entry ∷ rest) l =
      built (complete l.session cid (stamped (next_id l) parent ts entry))
        (λ parent'. lay_path_session cid ts parent' rest (advanced l))
    where
      built :
          (out : String ⊎ Entry)
          → ((parent' : Option String)
              → (lay_path digest strip complete cid ts parent' rest (advanced l)).1.session
                ≡ l.session)
          → (lay_after out
              (λ parent'. lay_path digest strip complete cid ts parent' rest (advanced l))
              (advanced l)).1.session
            ≡ l.session
      built (inl text) h = refl
      built (inr entry') h =
          ap (λ (m : Ledger). m.session) (lay_created_session entry' _) ∙ h (entry_id entry')

  module _ (session : AgentSession) (cid : String) (ts : ℕ) (final : Entry) where
    committed-Atomic :
        (entries : List Entry) (p : Result Conversation × Ledger)
        → ((e : LedgerError) → p.0 ≡ err e → p.1.session ≡ session)
        → Atomic session (committed digest strip complete final entries p)
    committed-Atomic entries (err e, l) h = h e refl
    committed-Atomic entries (ok c, l) h = tt

    install-Atomic :
        (nodes : List String) (entries : List Entry) (out : String ⊎ Entry) (l : Ledger)
        → l.session ≡ session
        → Atomic session (install digest strip complete cid ts final nodes entries out l)
    install-Atomic nodes entries (inl text) l h = h
    install-Atomic nodes entries (inr closing) l h =
        committed-Atomic entries _ (λ e k. transition_atomic digest cid _ l e k ∙ h)

    close_path-Atomic :
        (p : Laid)
        → p.1.session ≡ session
        → Atomic session (close_path digest strip complete cid ts final p)
    close_path-Atomic (inl text, l) h = h
    close_path-Atomic (inr (nodes, entries), l) h = install-Atomic nodes entries _ (advanced l) h

  commit_completed-Atomic :
      (cid : String) (plan : CompactionPlan) (ts : ℕ) (out : String ⊎ Entry) (l : Ledger)
      → Atomic l.session (commit_completed digest strip complete cid plan ts out l)
  commit_completed-Atomic cid plan ts (inl text) l = refl
  commit_completed-Atomic cid plan ts (inr final) l =
      close_path-Atomic l.session cid ts final _ (lay_path_session cid ts none plan.nodes l)

  commit-Atomic :
      (cid : String) (entry : CompactionEntry) (plan : CompactionPlan)
      (snapshot : ConversationSnapshot) (l : Ledger)
      → Atomic l.session (commit digest strip complete cid entry plan snapshot l)
  unfolding commit
  commit-Atomic cid entry plan snapshot l =
      validated
        (validate_plan strip plan entry.id l.session l.session.main_conversation_id snapshot)
        (open_turn_index l.session cid)
    where
      validated :
          (refused : Option PlanError) (bracket : Result (Option ℕ))
          → Atomic l.session (elim refused [
            | some e ↦ (inl (CommitError.rejected e), l)
            | none ↦
                commit_at digest strip complete cid entry plan snapshot (now l) bracket (ticked l)
          ])
      validated (some e) bracket = refl
      validated none (err e) = refl
      validated none (ok bracket) = commit_completed-Atomic cid plan (now l) _ (ticked l)

  -- A compaction that cannot be committed, because the plan is refused, a hook raises or the ledger
  -- refuses the transition, has changed nothing in the session.
  pub commit_atomic :
      (cid : String) (entry : CompactionEntry) (plan : CompactionPlan)
      (snapshot : ConversationSnapshot) (l l' : Ledger) (e : CommitError)
      → commit digest strip complete cid entry plan snapshot l ≡ (inl e, l')
      → l'.session ≡ l.session
  commit_atomic cid entry plan snapshot l l' e h =
      subst (Atomic l.session) h (commit-Atomic cid entry plan snapshot l)
