-- ===== src/Tests/StorageCases.antt =====
-- A session with one call, saved and built again (agent/core/models.py).
use text.Mathlib.TextEquality.{eq_iff}
use text.Mathlib.Text.{◌==◌}
use luca_py.Base.{String, ◌≡◌, refl, inl, inr, true, none, some, [], ◌∷◌, arith, subst, Bool-cases}
use luca_py.Base.Dict.{get, contains}
use luca_py.Models.Tools.{ToolSpec, ExecutionStatus, spec_id}
use luca_py.Models.Entries.{Entry, ToolExecution}
use luca_py.Models.Session.{AgentSession}
use luca_py.Models.Storage.{
  load, strip_inline_tool_specs, strip_entry, restore_tool_specs, restore_entries, restore_entry,
}
use luca_py.Ledger.Invariant.{IsWellFormed, IsFiled}
use luca_py.Ledger.Storage.{Distinct, load-strip, load-IsFiled}
use luca_py.Samples.{start_entry, execution, echo, session}

abbrev digest : ToolSpec → String
digest spec = spec.name

abbrev call : ToolExecution
call = record (execution "x" ExecutionStatus.pending none) {
  tool_spec = some echo;
  tool_spec_id = some "echo";
}

abbrev called : AgentSession
called =
    record (session (("s", start_entry "s") ∷ ("x", Entry.tool_execution call) ∷ [])
      ("s" ∷ "x" ∷ [])) { tool_specs = ("echo", echo) ∷ [] }

called-IsWellFormed : IsWellFormed digest called
unfolding get spec_id
called-IsWellFormed = record {
  paths = λ id c h. ground (arith, eq_iff "main" id);
  named = λ id c h. ground (arith, eq_iff "main" id);
  keyed = λ id e h. ground (arith, eq_iff "s" id, eq_iff "x" id);
  filed = λ id e h. elim (Bool-cases ("s" == id)) [
    | inl p ↦
        let same : start_entry "s" ≡ e = ground arith in subst (IsFiled called.tool_specs) same tt
    | inr p ↦ elim (Bool-cases ("x" == id)) [
      | inl q ↦
          let same : Entry.tool_execution call ≡ e = ground arith in
          subst (IsFiled called.tool_specs) same refl
      | inr q ↦ absurd (ground arith)
    ]
  ];
  hashed = λ id spec h. ground (arith, eq_iff "echo" id);
  main = refl;
  used = λ cid row id u h g. absurd (ground arith);
}

called-Distinct : Distinct called.entries
unfolding get
called-Distinct = (refl, (refl, tt))

load-strip_example : load (strip_inline_tool_specs called) ≡ inr called
load-strip_example = load-strip called digest called-IsWellFormed called-Distinct

called_loads : load (strip_inline_tool_specs called) ≡ inr called
unfolding load strip_inline_tool_specs strip_entry restore_tool_specs restore_entries restore_entry
    get
called_loads = refl

load-IsFiled_example :
    (contains called.conversations called.main_conversation_id ≡ true)
    × ((id : String) (e : Entry) → get called.entries id ≡ some e → IsFiled called.tool_specs e)
    × (record called { entries = (strip_inline_tool_specs called).entries }
        ≡ strip_inline_tool_specs called)
load-IsFiled_example = load-IsFiled (strip_inline_tool_specs called) called called_loads
