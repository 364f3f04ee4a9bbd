-- ===== src/Ledger/Invariant/Filing.antt =====
-- Filing a tool spec and an entry (agent/core/ledger.py) keeps the invariant.
use text.Mathlib.TextPositions.{eq_refl}
use luca_py.Base.{String, ◌≡◌, refl, sym, ap, subst, ◌∙◌, true, Option, none, some}
use luca_py.Base.Dict.{put, contains, get-set_default}
use luca_py.Models.Tools.{ToolSpec, spec_id}
use luca_py.Models.Entries.{Entry, ToolExecution, entry_id}
use luca_py.Models.Session.{AgentSession}
use luca_py.Ledger.{write_entry, file_spec, store_tool_spec, file_entry}
use luca_py.Ledger.Invariant.{
  IsFiled, Present, IsWellFormed, contains-put, contains-put_self, IsFiled-set_default,
  set_default-hashed, write_entry-IsWellFormed,
}

module _ (digest : ToolSpec → String) where
  file_spec-IsWellFormed :
      (e : ToolExecution) (spec : Option ToolSpec) (session : AgentSession)
      → IsWellFormed digest session
      → IsWellFormed digest (file_spec digest e spec session).1
  unfolding file_spec
  file_spec-IsWellFormed e none session wf = wf
  file_spec-IsWellFormed e (some spec) session wf = record {
    paths = wf.paths;
    named = wf.named;
    keyed = wf.keyed;
    filed = λ id x h.
        IsFiled-set_default session.tool_specs (spec_id digest spec) spec x (wf.filed id x h);
    hashed = set_default-hashed digest session.tool_specs spec wf.hashed;
    main = wf.main;
    used = wf.used;
  }

  file_spec-IsFiled :
      (e : ToolExecution) (spec : Option ToolSpec) (session : AgentSession)
      → e.tool_spec ≡ spec
      → IsFiled (file_spec digest e spec session).1.tool_specs (file_spec digest e spec session).0
  unfolding file_spec
  file_spec-IsFiled e none session h = rw h tt
  file_spec-IsFiled e (some spec) session h =
      get-set_default session.tool_specs (spec_id digest spec) (spec_id digest spec) spec
      ∙ simp eq_refl

  file_spec_keeps :
      (e : ToolExecution) (spec : Option ToolSpec) (session : AgentSession)
      → (entry_id (file_spec digest e spec session).0 ≡ e.id)
        × ((file_spec digest e spec session).1.entries ≡ session.entries)
        × ((file_spec digest e spec session).1.conversations ≡ session.conversations)
        × ((file_spec digest e spec session).1.usages ≡ session.usages)
        × ((file_spec digest e spec session).1.main_conversation_id ≡ session.main_conversation_id)
  unfolding file_spec
  file_spec_keeps e none session = (refl, refl, refl, refl, refl)
  file_spec_keeps e (some spec) session = (refl, refl, refl, refl, refl)

  store_tool_spec-IsWellFormed :
      (entry : Entry) (session : AgentSession)
      → IsWellFormed digest session
      → IsWellFormed digest (store_tool_spec digest entry session).1
  unfolding store_tool_spec
  store_tool_spec-IsWellFormed (Entry.tool_execution e) session wf =
      file_spec-IsWellFormed e e.tool_spec session wf
  store_tool_spec-IsWellFormed _ session wf = wf

  -- The stored execution points at the stored spec.
  pub store_tool_spec-IsFiled :
      (entry : Entry) (session : AgentSession)
      → IsFiled
          (store_tool_spec digest entry session).1.tool_specs
          (store_tool_spec digest entry session).0
  unfolding store_tool_spec
  store_tool_spec-IsFiled (Entry.tool_execution e) session =
      file_spec-IsFiled e e.tool_spec session refl
  store_tool_spec-IsFiled _ session = tt

  -- Filing a spec keeps the entry's id and every store but `tool_specs`.
  pub store_tool_spec_keeps :
      (entry : Entry) (session : AgentSession)
      → (entry_id (store_tool_spec digest entry session).0 ≡ entry_id entry)
        × ((store_tool_spec digest entry session).1.entries ≡ session.entries)
        × ((store_tool_spec digest entry session).1.conversations ≡ session.conversations)
        × ((store_tool_spec digest entry session).1.usages ≡ session.usages)
        × ((store_tool_spec digest entry session).1.main_conversation_id
            ≡ session.main_conversation_id)
  unfolding store_tool_spec
  store_tool_spec_keeps (Entry.tool_execution e) session = file_spec_keeps e e.tool_spec session
  store_tool_spec_keeps _ session = (refl, refl, refl, refl, refl)

  pub file_entry-IsWellFormed :
      (id : String) (entry : Entry) (session : AgentSession)
      → entry_id entry ≡ some id
      → IsWellFormed digest session
      → IsWellFormed digest (file_entry digest id entry session).1
  unfolding file_entry
  file_entry-IsWellFormed id entry session stamped wf =
      write_entry-IsWellFormed digest id (store_tool_spec digest entry session).0
        (store_tool_spec digest entry session).1 ((store_tool_spec_keeps entry session).0 ∙ stamped)
        (store_tool_spec-IsFiled entry session) (store_tool_spec-IsWellFormed entry session wf)

  pub file_entry_entries :
      (id : String) (entry : Entry) (session : AgentSession)
      → (file_entry digest id entry session).1.entries
        ≡ put session.entries id (file_entry digest id entry session).0
  unfolding file_entry write_entry
  file_entry_entries id entry session =
      ap (λ d. put d id (store_tool_spec digest entry session).0)
        (store_tool_spec_keeps entry session).1

  pub file_entry_id :
      (id : String) (entry : Entry) (session : AgentSession)
      → entry_id (file_entry digest id entry session).0 ≡ entry_id entry
  unfolding file_entry
  file_entry_id id entry session = (store_tool_spec_keeps entry session).0

  pub file_entry_keeps :
      (id : String) (entry : Entry) (session : AgentSession)
      → ((file_entry digest id entry session).1.conversations ≡ session.conversations)
        × ((file_entry digest id entry session).1.usages ≡ session.usages)
        × ((file_entry digest id entry session).1.main_conversation_id
            ≡ session.main_conversation_id)
  unfolding file_entry write_entry
  file_entry_keeps id entry session = let k = store_tool_spec_keeps entry session in (k.2, k.3, k.4)

  pub file_entry-IsFiled :
      (id : String) (entry : Entry) (session : AgentSession)
      → IsFiled
          (file_entry digest id entry session).1.tool_specs
          (file_entry digest id entry session).0
  unfolding file_entry write_entry
  file_entry-IsFiled id entry session = store_tool_spec-IsFiled entry session

  pub Present-file_entry :
      (id n : String) (entry : Entry) (session : AgentSession)
      → Present session n
      → Present (file_entry digest id entry session).1 n
  Present-file_entry id n entry session h =
      subst (λ d. contains d n ≡ true) (sym (file_entry_entries id entry session))
        (contains-put session.entries id n (file_entry digest id entry session).0 h)

  pub Present-file_entry_self :
      (id : String) (entry : Entry) (session : AgentSession)
      → Present (file_entry digest id entry session).1 id
  Present-file_entry_self id entry session =
      subst (λ d. contains d id ≡ true) (sym (file_entry_entries id entry session))
        (contains-put_self session.entries id (file_entry digest id entry session).0)
