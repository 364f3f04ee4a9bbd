-- ===== src/Compaction/Step/Ends.antt =====
-- What a piece of `_compaction_step` (agent/core/runner.py) may come to, and how pieces are joined.
use luca_py.Base.{String, ◌≡◌, ◌⊎◌, inl, inr}
use luca_py.Models.Entries.{CompactionSource}
use luca_py.Ledger.{Result, ok, err}
use luca_py.Compaction.Step.{
  StepError, failed, manager_raised, timed_out, not_compaction, Drive, Out, Door, chain,
}
use luca_py.Compaction.Step.{raise_for, reads}
use luca_py.Compaction.Step.Closing.{Ended, OnlyFails}

-- What a run that starts from `before` comes to: it has done nothing, or it has told its end, also
-- where a failure of the manager is raised. A hook or the ledger may stop it anywhere.
abbrev pub Ends : String → Drive → Out (Unit {0}) → Type 0
Ends cid before (inl (failed e), d) = Unit {0}
Ends cid before (inl (manager_raised is_timeout text), d) = Ended cid d
Ends cid before (inl (timed_out text), d) = Ended cid d
Ends cid before (inl not_compaction, d) = Unit {0}
Ends cid before (inr _, d) = (d ≡ before) ⊎ Ended cid d

module _ (cid : String) (before : Drive) where
  pub told-Ends : (out : Out (Unit {0})) → OnlyFails (λ _. Ended cid) out → Ends cid before out
  told-Ends (inl (failed e), d) h = tt
  told-Ends (inl (manager_raised is_timeout text), d) h = absurd h
  told-Ends (inl (timed_out text), d) h = absurd h
  told-Ends (inl not_compaction, d) h = tt
  told-Ends (inr _, d) h = inr h

  pub raise_for-Ends :
      (source : CompactionSource) (e : StepError) (d : Drive)
      → Ended cid d
      → Ends cid before (raise_for source e d)
  raise_for-Ends CompactionSource.policy e d h = inr h
  raise_for-Ends CompactionSource.user (failed e) d h = tt
  raise_for-Ends CompactionSource.user (manager_raised is_timeout text) d h = h
  raise_for-Ends CompactionSource.user (timed_out text) d h = h
  raise_for-Ends CompactionSource.user not_compaction d h = tt

  pub chain-Ends :
      {A : Type 0} (P : A → Drive → Type 0) (out : Out A) (f : A → Door (Unit {0}))
      → OnlyFails P out
      → ((a : A) (d : Drive) → P a d → Ends cid before (f a d))
      → Ends cid before (chain out f)
  chain-Ends P (inl (failed e), d) f h k = tt
  chain-Ends P (inl (manager_raised is_timeout text), d) f h k = absurd h
  chain-Ends P (inl (timed_out text), d) f h k = absurd h
  chain-Ends P (inl not_compaction, d) f h k = tt
  chain-Ends P (inr a, d) f h k = k a d h

  pub reads-Ends :
      {A : Type 0} (r : Result A) (d : Drive) (f : A → Door (Unit {0}))
      → ((a : A) → Ends cid before (f a d))
      → Ends cid before (chain (reads r d) f)
  reads-Ends (err e) d f h = tt
  reads-Ends (ok a) d f h = h a
