-- ===== src/Runner/Outcomes/Settling.antt =====
-- What the outcome machinery of agent/core/runner.py writes: ended executions, under the ids of
-- executions, and nothing else.
pub mod Chosen
pub mod Left
pub mod Closed
pub mod Winding
use text.Mathlib.Text.{◌==◌}
use text.Mathlib.TextEquality.{eq_iff}
use luca_py.Base.{
  ℕ, String, ◌≡◌, refl, sym, ap, ◌∙◌, subst, ◌⊎◌, inl, inr, Bool, true, false, Option, none, some,
  List, [], ◌∷◌, if◌then◌else◌, arith, Option-cases, Bool-cases, All, All-map, last?, last?,
}
use luca_py.Base.Dict.{Dict, get, put, contains, get-put}
use luca_py.Models.Tools.{
  ToolSpec, ExecutionStatus, ExecutionAttempt, ExecutionAttemptOutcome, is_nonterminal,
}
use luca_py.Models.Entries.{Entry, ToolExecution}
use luca_py.Models.Session.{AgentSession, Conversation}
use luca_py.Ledger.{Result, ok, err, Ledger, now, ticked, put_entry}
use luca_py.Ledger.Executions.{PathKept, Writes, Put, put_entry-Put}
use luca_py.Runner.Outcomes.{
  Fault, hook, ledger, Work, Out, chain, on_ledger, close_last, close_attempt, counted, store,
  persist_execution, persist_after, finalize_outcome, finalize_all, told, or_outcome,
  attempt_outcome_of,
}
use luca_py.Runner.Outcomes.Ended.{
  IsExecution, Terminal, Tame, Tame-trans, Terminal-Tame, IsExecution-Tame, Sits, Sits-PathKept,
  there, PathKept-trans, Writes-Tame, KeepsOutcome, Known, Finished, Stamps,
}

close_last_keeps :
    (e : ToolExecution) (attempt : Option ExecutionAttempt)
    (outcome : Option ExecutionAttemptOutcome) (l : Ledger)
    → let (e', l') = close_last e attempt outcome l in
      (e'.id ≡ e.id) × (e'.status ≡ e.status) × (l'.session ≡ l.session)
close_last_keeps e none outcome l = (refl, refl, refl)
close_last_keeps e (some attempt) none l = (refl, refl, refl)
close_last_keeps e (some attempt) (some outcome) l = elim (Option-cases attempt.outcome) [
  | inl h ↦ rw (h, close_last) (refl, refl, refl)
  | inr (settled, h) ↦ rw (h, close_last) (refl, refl, refl)
]

module _ (digest : ToolSpec → String) (calculate_context : AgentSession → Entry → ℕ)
    (after : AgentSession → String → ToolExecution → String ⊎ ToolExecution)
    (before : AgentSession → String → Entry → String ⊎ Entry) (keeps : KeepsOutcome after before)
    (cid : String) where
  -- A hook raised the text.
  abbrev pub Raised : String → Type 0
  Raised text =
      (s : AgentSession) × (((e : ToolExecution) × (after s cid e ≡ inl text))
        ⊎ ((entry : Entry) × (before s cid entry ≡ inl text)))

  -- A run raises what a hook raised and nothing else, or returns with the session in the relation.
  abbrev pub Ran : {A : Type 0} → (AgentSession → Type 0) → Out A → Type 0
  Ran P (inl (hook text), w) = Raised text
  Ran P (inl (ledger e), w) = ⊥
  Ran P (inr a, w) = P w.ledger.session

  on_ledger-Ran :
      (id : String) (s : AgentSession) (out : Result Entry × Ledger) (w : Work)
      → Put cid id s out
      → Ran (Writes cid id s) (on_ledger out w)
  on_ledger-Ran id s (err e, l) w h = h
  on_ledger-Ran id s (ok stored, l) w h = h

  store-Ran :
      (id : String) (e : ToolExecution) (w : Work) (out : String ⊎ Entry)
      → before w.ledger.session cid (Entry.tool_execution e) ≡ out
      → e.id ≡ some id
      → is_nonterminal e.status ≡ false
      → IsExecution (get w.ledger.session.entries id)
      → Sits cid w.ledger.session
      → Ran (Writes cid id w.ledger.session) (
          store digest calculate_context after before cid out
            (record w { ledger = ticked w.ledger }))
  store-Ran id e w (inl text) h named over was sits =
      (w.ledger.session, inr (Entry.tool_execution e, h))
  store-Ran id e w (inr entry) h named over was (c, found) =
      let (e', same, alike, status) = keeps.1 w.ledger.session cid e entry h in
      subst
        (λ x. Ran (Writes cid id w.ledger.session) (
          store digest calculate_context after before cid (inr x)
            (record w { ledger = ticked w.ledger })))
        (sym same)
        (on_ledger-Ran id w.ledger.session _ _ (
          put_entry-Put digest cid id e' (ticked w.ledger) (alike ∙ named)
            (ap is_nonterminal status ∙ over) (there w.ledger.session.entries id was) c found))

  persist_after-Ran :
      (id : String) (e : ToolExecution) (w : Work) (out : String ⊎ ToolExecution)
      → after w.ledger.session cid e ≡ out
      → e.id ≡ some id
      → is_nonterminal e.status ≡ false
      → IsExecution (get w.ledger.session.entries id)
      → Sits cid w.ledger.session
      → Ran
          (Writes cid id w.ledger.session)
          (persist_after digest calculate_context after before cid out w)
  unfolding persist_execution
  persist_after-Ran id e w (inl text) h named over was sits = (w.ledger.session, inl (e, h))
  persist_after-Ran id e w (inr e') h named over was sits =
      let (alike, status) = keeps.0 w.ledger.session cid e e' h in
      store-Ran id (record e' { updated_at = some (now w.ledger) }) w _ refl (alike ∙ named)
        (ap is_nonterminal status ∙ over) was sits

  finalize_outcome-Ran :
      (id : String) (outcome : Option ExecutionAttemptOutcome) (e : ToolExecution) (w : Work)
      → e.id ≡ some id
      → is_nonterminal e.status ≡ false
      → IsExecution (get w.ledger.session.entries id)
      → Sits cid w.ledger.session
      → Ran
          (Writes cid id w.ledger.session)
          (finalize_outcome digest calculate_context after before cid outcome e w)
  unfolding finalize_outcome close_attempt
  finalize_outcome-Ran id outcome e w named over was sits =
      let closed =
        close_last e (last? e.attempts) (or_outcome outcome (attempt_outcome_of e.status))
          w.ledger in
      let kept =
        close_last_keeps e (last? e.attempts) (or_outcome outcome (attempt_outcome_of e.status))
          w.ledger in
      let tokens = calculate_context closed.1.session (Entry.tool_execution closed.0) in
      subst
        (λ s.
          Ran (Writes cid id s)
            (finalize_outcome digest calculate_context after before cid outcome e w))
        kept.2
        (persist_after-Ran id (counted tokens closed.0) (record w { ledger = closed.1 }) _ refl
          (kept.0 ∙ named) (ap is_nonterminal kept.1 ∙ over)
          (subst (λ s. IsExecution (get s.entries id)) (sym kept.2) was)
          (subst (Sits cid) (sym kept.2) sits))

  pub chain-Ran :
      {A B : Type 0} (P Q : AgentSession → Type 0) (out : Out A) (f : A → Work → Out B)
      → Ran P out
      → ((a : A) (w : Work) → P w.ledger.session → Ran Q (f a w))
      → Ran Q (chain out f)
  chain-Ran P Q (inl (hook text), w) f h k = h
  chain-Ran P Q (inl (ledger e), w) f h k = h
  chain-Ran P Q (inr a, w) f h k = k a w h

  told-Ran :
      (P Q : AgentSession → Type 0) (event : Entry) (w : Work) (out : Out (List Entry))
      → Ran P out
      → ((s : AgentSession) → P s → Q s)
      → Ran Q (told digest calculate_context after before event w out)
  told-Ran P Q event w (inl (hook text), w') h k = h
  told-Ran P Q event w (inl (ledger e), w') h k = h
  told-Ran P Q event w (inr events, w') h k = k w'.ledger.session h

  pub finalize_all-Ran :
      (outcome : Option ExecutionAttemptOutcome) (stamp : ℕ → ToolExecution → ToolExecution)
      → Stamps stamp
      → (es : List ToolExecution) (w : Work) → Known w.ledger.session es
      → Sits cid w.ledger.session
      → Ran
          (Finished cid es w.ledger.session)
          (finalize_all digest calculate_context after before cid outcome stamp es w)
  unfolding finalize_all
  finalize_all-Ran outcome stamp stamps [] w known sits =
      ((λ n. inl refl), (λ c found. (c, found, refl)), tt)
  finalize_all-Ran outcome stamp stamps (e ∷ rest) w ((id, named, was), known) sits =
      let s = w.ledger.session in
      let ts = now w.ledger in
      chain-Ran (Writes cid id s) (Finished cid (e ∷ rest) s) _ _
        (finalize_outcome-Ran id outcome (stamp ts e) (record w { ledger = ticked w.ledger })
          ((stamps ts e).0 ∙ named) (stamps ts e).1 was sits)
        (λ event w' wrote.
          let t = w'.ledger.session in
          let (tame, over, kept) = Writes-Tame cid id s t was wrote in
          told-Ran (Finished cid rest t) (Finished cid (e ∷ rest) s) event w' _
            (finalize_all-Ran outcome stamp stamps rest w'
              (All-map _ _ rest (λ x (k, n, x_was). (k, n, IsExecution-Tame s t k tame x_was))
                known)
              (Sits-PathKept cid s t kept sits))
            (λ u (tame', kept', done). (
              Tame-trans s t u tame tame',
              PathKept-trans cid s t u kept kept',
              ((id, named, Terminal-Tame t u id tame' over), done),
            )))
