-- ===== src/Runner/Outcomes/Settling/Closed.antt =====
-- What `_settle_open_executions` of agent/core/runner.py leaves behind: an open turn with no
-- execution to dispatch and none that waits for its result.
use luca_py.Base.{
  ℕ, String, ◌≡◌, refl, sym, ◌∙◌, subst, ◌⊎◌, inl, inr, Bool, Option, none, some, List, [],
}
use luca_py.Base.Dict.{get}
use luca_py.Models.Tools.{ToolSpec, ExecutionStatus, ExecutionAttemptOutcome, is_nonterminal}
use luca_py.Models.Entries.{Entry, ToolExecution}
use luca_py.Models.Session.{AgentSession, Conversation}
use luca_py.Ledger.{ok}
use luca_py.Ledger.Executions.{PathKept}
use luca_py.Ledger.Invariant.{IsWellFormed}
use luca_py.Ledger.Reads.{
  is_undispatched_execution, is_parked_execution, is_running_execution, open_turn_filter,
  open_turn_running_executions, open_turn_undispatched_executions, open_turn_parked_executions,
}
use luca_py.Runner.Outcomes.{
  hook, ledger, Work, Out, chain, reads, finalize_all, settle_open_executions, settle_parked, more,
  settled_as, recover_orphans, orphaned,
}
use luca_py.Runner.Outcomes.Ended.{Tame, Tame-trans, PathKept-trans, KeepsOutcome, Finished, Stamps}
use luca_py.Runner.Outcomes.Settling.{Ran, chain-Ran, finalize_all-Ran}
use luca_py.Runner.Outcomes.Settling.Chosen.{Live, Keyed, chosen, selected-Known, selected-Quiet}
use luca_py.Runner.Outcomes.Settling.Left.{
  turn_nodes, Cleared, open_turn_filter_found, undispatched-Live, parked-Live, running-Live,
  Keyed-Tame, stays_cleared, reads_none,
}

-- Nothing of the open turn is left to dispatch, and nothing of it waits for its result. The path of
-- the conversation is the old one, and the entries are, but for executions that have ended since.
abbrev pub Settled : String → AgentSession → AgentSession → Type 0
Settled cid s t =
    (open_turn_undispatched_executions t cid ≡ ok [])
    × (open_turn_parked_executions t cid ≡ ok [])
    × Tame s t
    × PathKept cid s t

-- Nothing of the open turn runs, and the rest is as above.
abbrev pub Recovered : String → AgentSession → AgentSession → Type 0
Recovered cid s t = (open_turn_running_executions t cid ≡ ok []) × Tame s t × PathKept cid s t

module _ (digest : ToolSpec → String) (calculate_context : AgentSession → Entry → ℕ)
    (after : AgentSession → String → ToolExecution → String ⊎ ToolExecution)
    (before : AgentSession → String → Entry → String ⊎ Entry) (keeps : KeepsOutcome after before)
    (cid : String) where
  Ran-map :
      {A : Type 0} (P Q : AgentSession → Type 0) (out : Out A)
      → Ran digest calculate_context after before keeps cid P out
      → ((s : AgentSession) → P s → Q s)
      → Ran digest calculate_context after before keeps cid Q out
  Ran-map P Q (inl (hook text), w) h k = h
  Ran-map P Q (inl (ledger e), w) h k = h
  Ran-map P Q (inr a, w) h k = k w.ledger.session h

  loop_clears :
      (test : ToolExecution → Bool)
      → Live test
      → (outcome : Option ExecutionAttemptOutcome) (stamp : ℕ → ToolExecution → ToolExecution)
      → Stamps stamp
      → (w : Work) (c : Conversation) → get w.ledger.session.conversations cid ≡ some c
      → Keyed test w.ledger.session
      → Ran digest calculate_context after before keeps cid
          (Cleared test cid c.nodes w.ledger.session)
          (chain
            (reads (open_turn_filter test w.ledger.session cid) w)
            (finalize_all digest calculate_context after before cid outcome stamp))
  loop_clears test live outcome stamp stamps w c found keyed =
      let s = w.ledger.session in
      let nodes = turn_nodes c.nodes s in
      let es = chosen test s nodes in
      subst
        (λ r. Ran digest calculate_context after before keeps cid (Cleared test cid c.nodes s) (
          chain (reads r w) (finalize_all digest calculate_context after before cid outcome stamp)))
        (sym (open_turn_filter_found test s cid c found))
        (Ran-map (Finished cid es s) (Cleared test cid c.nodes s) _
          (finalize_all-Ran digest calculate_context after before keeps cid outcome stamp stamps es
            w (selected-Known test live s keyed nodes) (c, found))
          (λ t (tame, kept, ended).
            (tame, kept, selected-Quiet test live s keyed t tame nodes ended)))

  more-Ran :
      (P : AgentSession → Type 0) (events : List Entry) (out : Out (List Entry))
      → Ran digest calculate_context after before keeps cid P out
      → Ran digest calculate_context after before keeps cid P
          (more digest calculate_context after before events out)
  more-Ran P events (inl (hook text), w) h = h
  more-Ran P events (inl (ledger e), w) h = h
  more-Ran P events (inr later, w) h = h

  parked-Cleared :
      (s : AgentSession) (c : Conversation)
      → get s.conversations cid ≡ some c
      → IsWellFormed digest s
      → (events : List Entry) (w : Work)
      → Cleared is_undispatched_execution cid c.nodes s w.ledger.session
      → Ran digest calculate_context after before keeps cid
          (Settled cid s)
          (settle_parked digest calculate_context after before cid events w)
  unfolding is_nonterminal
  parked-Cleared s c found wf events w (tame, kept, quiet) =
      let t = w.ledger.session in
      let (d, there, same) = kept c found in
      more-Ran (Settled cid s) events _ (
        Ran-map (Cleared is_parked_execution cid d.nodes t) (Settled cid s) _
          (loop_clears is_parked_execution parked-Live none (settled_as ExecutionStatus.interrupted)
            (λ ts e. (refl, refl)) w d there
            (Keyed-Tame is_parked_execution parked-Live s t
              (λ k e at. wf.keyed k (Entry.tool_execution e) at) tame))
          (λ u (tame', kept', parked_quiet).
            let (f, at, alike) = kept' d there in
            (
              reads_none is_undispatched_execution s u cid c f (Tame-trans s t u tame tame') at
                  (alike ∙ same)
                  (stays_cleared is_undispatched_execution undispatched-Live t u
                    (turn_nodes c.nodes s) tame' quiet),
              reads_none is_parked_execution t u cid d f tame' at alike parked_quiet,
              Tame-trans s t u tame tame',
              PathKept-trans cid s t u kept kept',
            )))

  -- What `_settle_open_executions` does to a conversation that is there, in a well-formed session,
  -- where the hooks keep the id and the status of an execution: it raises nothing but what a hook
  -- raised, and where it returns the open turn has no execution to dispatch and none that waits for
  -- its result, the path is the old one, and each entry is as it was or was an execution and is one
  -- that has ended.
  pub settle_leaves_none_open :
      (w : Work) (c : Conversation)
      → get w.ledger.session.conversations cid ≡ some c
      → IsWellFormed digest w.ledger.session
      → Ran digest calculate_context after before keeps cid
          (Settled cid w.ledger.session)
          (settle_open_executions digest calculate_context after before cid w)
  unfolding settle_open_executions is_nonterminal
  settle_leaves_none_open w c found wf =
      let s = w.ledger.session in
      chain-Ran digest calculate_context after before keeps cid
        (Cleared is_undispatched_execution cid c.nodes s) (Settled cid s) _
        (settle_parked digest calculate_context after before cid)
        (loop_clears is_undispatched_execution undispatched-Live none
          (settled_as ExecutionStatus.cancelled) (λ ts e. (refl, refl)) w c found
          (λ k e at on. wf.keyed k (Entry.tool_execution e) at))
        (λ events w' cleared. parked-Cleared s c found wf events w' cleared)

  -- What `_recover_orphans` does to a conversation that is there, in a well-formed session, where the
  -- hooks keep the id and the status of an execution: it raises nothing but what a hook raised, and
  -- where it returns no execution of the open turn is running, the path is the old one, and each
  -- entry is as it was or was an execution and is one that has ended.
  pub recover_leaves_none_running :
      (w : Work) (c : Conversation)
      → get w.ledger.session.conversations cid ≡ some c
      → IsWellFormed digest w.ledger.session
      → Ran digest calculate_context after before keeps cid
          (Recovered cid w.ledger.session)
          (recover_orphans digest calculate_context after before cid w)
  unfolding recover_orphans is_nonterminal
  recover_leaves_none_running w c found wf =
      let s = w.ledger.session in
      Ran-map (Cleared is_running_execution cid c.nodes s) (Recovered cid s) _
        (loop_clears is_running_execution running-Live (some ExecutionAttemptOutcome.discarded)
          orphaned (λ ts e. (refl, refl)) w c found
          (λ k e at on. wf.keyed k (Entry.tool_execution e) at))
        (λ t (tame, kept, quiet).
          let (d, at, same) = kept c found in
          (reads_none is_running_execution s t cid c d tame at same quiet, tame, kept))
