-- ===== src/Ledger/Invariant.antt =====
-- What holds of a session between two calls of agent/core/ledger.py, and that each primitive write
-- keeps it: storing an entry, replacing a conversation. The child files specs and entries.
pub mod Filing
pub mod Contents
use text.Mathlib.Text.{◌==◌}
use text.Mathlib.TextEquality.{eq_iff}
use text.Mathlib.TextPositions.{eq_refl}
use luca_py.Base.{
  String, ◌≡◌, refl, sym, ap, subst, ◌∙◌, ◌⊎◌, inl, inr, true, Option, none, some, arith, All,
  All-map, Bool-cases, Option-cases,
}
use luca_py.Base.Dict.{
  Dict, get, put, contains, set_default, get-put, get-put_self, get-set_default,
}
use luca_py.Models.Content.{Usage}
use luca_py.Models.Tools.{ToolSpec, spec_id}
use luca_py.Models.Entries.{Entry, ToolExecution, entry_id}
use luca_py.Models.Session.{AgentSession, Conversation}
use luca_py.Ledger.{write_entry, write_conversation, file_spec, store_tool_spec, file_entry}

-- The spec of an execution is the stored one under its id, and both are missing together.
abbrev pub SpecLinked : Dict ToolSpec → Option ToolSpec → Option String → Type 0
SpecLinked specs none none = Unit {0}
SpecLinked specs none (some id) = ⊥
SpecLinked specs (some spec) none = ⊥
SpecLinked specs (some spec) (some id) = get specs id ≡ some spec

abbrev pub IsFiled : Dict ToolSpec → Entry → Type 0
IsFiled specs (Entry.tool_execution e) = SpecLinked specs e.tool_spec e.tool_spec_id
IsFiled specs entry = Unit {0}

abbrev pub Present : AgentSession → String → Type 0
Present session id = contains session.entries id ≡ true

pub record IsWellFormed (digest : ToolSpec → String) (session : AgentSession) : Type 0 where
  pub paths :
      (id : String) (c : Conversation)
      → get session.conversations id ≡ some c
      → All (Present session) c.nodes
  pub named : (id : String) (c : Conversation) → get session.conversations id ≡ some c → c.id ≡ id
  pub keyed : (id : String) (e : Entry) → get session.entries id ≡ some e → entry_id e ≡ some id
  pub filed :
      (id : String) (e : Entry) → get session.entries id ≡ some e → IsFiled session.tool_specs e
  pub hashed :
      (id : String) (spec : ToolSpec)
      → get session.tool_specs id ≡ some spec
      → spec_id digest spec ≡ id
  pub main : contains session.conversations session.main_conversation_id ≡ true
  pub used :
      (cid : String) (row : Dict Usage) (id : String) (u : Usage)
      → get session.usages cid ≡ some row
      → get row id ≡ some u
      → (u.conversation_id ≡ cid) × (u.entry_id ≡ id) × Present session id

-- A test of `get (put d k v) j` splits into the key that was written and the others.
pub get-put_cases {ℓ} :
    {V : Type ℓ} (d : Dict V) (k j : String) (v w : V)
    → get (put d k v) j ≡ some w
    → ((k ≡ j) × (v ≡ w)) ⊎ (get d j ≡ some w)
get-put_cases d k j v w h = elim (Bool-cases (k == j)) [
  | inl e ↦ inl ((eq_iff k j).0 e, ground (arith, get-put d k j v))
  | inr n ↦ inr (ground (arith, get-put d k j v))
]

pub contains-put {ℓ} :
    {V : Type ℓ} (d : Dict V) (k j : String) (v : V)
    → contains d j ≡ true
    → contains (put d k v) j ≡ true
contains-put d k j v h = ground (arith, get-put d k j v)

pub contains-put_self {ℓ} :
    {V : Type ℓ} (d : Dict V) (k : String) (v : V) → contains (put d k v) k ≡ true
contains-put_self d k v = rw (get-put_self d k v)

pub get-set_default_old {ℓ} :
    {V : Type ℓ} (d : Dict V) (k j : String) (v w : V)
    → get d j ≡ some w
    → get (set_default d k v).1 j ≡ some w
unfolding set_default
get-set_default_old d k j v w h = ground (arith, get-put d k j v, eq_iff k j)

SpecLinked-set_default :
    (specs : Dict ToolSpec) (k : String) (spec : ToolSpec) (s : Option ToolSpec)
    (id : Option String)
    → SpecLinked specs s id
    → SpecLinked (set_default specs k spec).1 s id
SpecLinked-set_default specs k spec none none h = h
SpecLinked-set_default specs k spec none (some id) h = h
SpecLinked-set_default specs k spec (some s) none h = h
SpecLinked-set_default specs k spec (some s) (some id) h = get-set_default_old specs k id spec s h

IsFiled-set_default :
    (specs : Dict ToolSpec) (k : String) (spec : ToolSpec) (e : Entry)
    → IsFiled specs e
    → IsFiled (set_default specs k spec).1 e
IsFiled-set_default specs k spec (Entry.tool_execution e) h =
    SpecLinked-set_default specs k spec e.tool_spec e.tool_spec_id h
IsFiled-set_default specs k spec _ h = h

module _ (digest : ToolSpec → String) where
  set_default-hashed :
      (specs : Dict ToolSpec) (spec : ToolSpec)
      → ((id : String) (s : ToolSpec) → get specs id ≡ some s → spec_id digest s ≡ id)
      → (id : String) (s : ToolSpec)
      → get (set_default specs (spec_id digest spec) spec).1 id ≡ some s
      → spec_id digest s ≡ id
  unfolding set_default
  set_default-hashed specs spec h id s e = elim (Option-cases (get specs (spec_id digest spec))) [
    | inl new ↦
        let e' : get (put specs (spec_id digest spec) spec) id ≡ some s = ground arith in
        elim (get-put_cases specs (spec_id digest spec) id spec s e') [
          | inl p ↦ ap (spec_id digest) (sym p.1) ∙ p.0
          | inr old ↦ h id s old
        ]
    | inr (w, there) ↦ h id s (ground arith)
  ]

  -- Storing a stamped and filed entry.
  pub write_entry-IsWellFormed :
      (id : String) (entry : Entry) (session : AgentSession)
      → entry_id entry ≡ some id
      → IsFiled session.tool_specs entry
      → IsWellFormed digest session
      → IsWellFormed digest (write_entry id entry session)
  unfolding write_entry
  write_entry-IsWellFormed id entry session stamped filed wf = record {
    paths = λ k c h.
        All-map (Present session) _ c.nodes (λ n. contains-put session.entries id n entry)
          (wf.paths k c h);
    named = wf.named;
    keyed = λ k e h. elim (get-put_cases session.entries id k entry e h) [
      | inl p ↦ rw (← p.1, ← p.0) stamped
      | inr old ↦ wf.keyed k e old
    ];
    filed = λ k e h. elim (get-put_cases session.entries id k entry e h) [
      | inl p ↦ subst (IsFiled session.tool_specs) p.1 filed
      | inr old ↦ wf.filed k e old
    ];
    hashed = wf.hashed;
    main = wf.main;
    used = λ cid row k u h g.
        let (a, b, c) = wf.used cid row k u h g in
        (a, b, contains-put session.entries id k entry c);
  }

  -- Replacing or adding a conversation under its own id, over entries that are there.
  pub write_conversation-IsWellFormed :
      (id : String) (c : Conversation) (session : AgentSession)
      → c.id ≡ id
      → All (Present session) c.nodes
      → IsWellFormed digest session
      → IsWellFormed digest (write_conversation id c session)
  unfolding write_conversation
  write_conversation-IsWellFormed id c session same path wf = record {
    paths = λ k d h. elim (get-put_cases session.conversations id k c d h) [
      | inl p ↦ subst (λ x. All (Present session) x.nodes) p.1 path
      | inr old ↦ wf.paths k d old
    ];
    named = λ k d h. elim (get-put_cases session.conversations id k c d h) [
      | inl p ↦ rw (← p.1, ← p.0) same
      | inr old ↦ wf.named k d old
    ];
    keyed = wf.keyed;
    filed = wf.filed;
    hashed = wf.hashed;
    main = contains-put session.conversations id session.main_conversation_id c wf.main;
    used = wf.used;
  }
