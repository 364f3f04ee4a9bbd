-- ===== src/Ledger/Storage.antt =====
-- Saving and loading a session (agent/core/models.py) against the invariant of the ledger.
use text.Mathlib.Text.{◌==◌}
use text.Mathlib.TextPositions.{eq_refl}
use text.Mathlib.TextEquality.{eq_iff}
use luca_py.Base.{
  String, ◌≡◌, refl, sym, ◌⊎◌, inl, inr, true, Option, none, some, [], ◌∷◌, arith, All, subst,
  Bool-cases,
}
use luca_py.Base.Dict.{Dict, get, contains}
use mathlib.Core.Option.{some-injective}
use mathlib.Core.Sum.{inr-injective}
use luca_py.Models.Tools.{ToolSpec}
use luca_py.Models.Entries.{Entry, ToolExecution}
use luca_py.Models.Session.{AgentSession}
use luca_py.Models.Storage.{
  LoadError, strip_entry, map_values, strip_inline_tool_specs, restore_entry, restore_entries,
  restore_tool_specs, load, unnamed, found, named, restored, with_entries,
}
use luca_py.Ledger.Invariant.{SpecLinked, IsFiled, IsWellFormed}

-- No key stands twice.
abbrev pub Distinct {ℓ} : {V : Type ℓ} → Dict V → Type ℓ
Distinct [] = Unit
Distinct ((k, v) ∷ d) = (get d k ≡ none) × Distinct d

inr_inj {ℓ κ} : {A : Type ℓ} {B : Type κ} {b c : B} → ◌≡◌ {A = A ⊎ B} (inr b) (inr c) → b ≡ c
inr_inj {b} {c} h = inr-injective b c h

module _ (specs : Dict ToolSpec) where
  abbrev AllFiled : Dict Entry → Type 0
  AllFiled d = All (λ p. IsFiled specs p.1) d

  restore-strip_entry : (e : Entry) → IsFiled specs e → restore_entry specs (strip_entry e) ≡ inr e
  unfolding restore_entry strip_entry
  restore-strip_entry (Entry.tool_execution e) h = ground arith
  restore-strip_entry e h = refl

  restore-strip :
      (d : Dict Entry) → AllFiled d → restore_entries specs (map_values strip_entry d) ≡ inr d
  unfolding restore_entries
  restore-strip [] h = refl
  restore-strip ((k, e) ∷ d) h = rw (restore-strip_entry e h.0) (rw (restore-strip d h.1) refl)

  AllFiled-get :
      (d : Dict Entry)
      → Distinct d
      → ((id : String) (e : Entry) → get d id ≡ some e → IsFiled specs e)
      → AllFiled d
  unfolding get
  AllFiled-get [] u h = tt
  AllFiled-get ((k, e) ∷ d) u h = (
    h k e (rw (eq_refl k) refl),
    AllFiled-get d u.1 (λ id e' g. h id e' (ground (arith, eq_iff k id, u.0))),
  )

  unnamed-IsFiled :
      (e : ToolExecution) (spec : Option ToolSpec) (e' : Entry)
      → e.tool_spec ≡ spec
      → e.tool_spec_id ≡ none
      → unnamed e spec ≡ inr e'
      → IsFiled specs e'
  unnamed-IsFiled e none e' p q h = subst (IsFiled specs) (inr_inj h) (
      subst (λ s. SpecLinked specs s e.tool_spec_id) (sym p)
        (subst (SpecLinked specs none) (sym q) tt))
  unnamed-IsFiled e (some spec) e' p q h = absurd (ground arith)

  found-IsFiled :
      (e : ToolExecution) (id : String) (spec : Option ToolSpec) (e' : Entry)
      → get specs id ≡ spec
      → e.tool_spec_id ≡ some id
      → found e spec ≡ inr e'
      → IsFiled specs e'
  found-IsFiled e id none e' p q h = absurd (ground arith)
  found-IsFiled e id (some spec) e' p q h =
      subst (IsFiled specs) (inr_inj h) (subst (SpecLinked specs (some spec)) (sym q) p)

  named-IsFiled :
      (e : ToolExecution) (id : Option String) (e' : Entry)
      → e.tool_spec_id ≡ id
      → named specs e id ≡ inr e'
      → IsFiled specs e'
  named-IsFiled e none e' q h = unnamed-IsFiled e e.tool_spec e' refl q h
  named-IsFiled e (some id) e' q h = found-IsFiled e id (get specs id) e' refl q h

  restore_entry-IsFiled : (e e' : Entry) → restore_entry specs e ≡ inr e' → IsFiled specs e'
  unfolding restore_entry
  restore_entry-IsFiled (Entry.tool_execution e) e' h = named-IsFiled e e.tool_spec_id e' refl h
  restore_entry-IsFiled (Entry.user e) e' h = subst (IsFiled specs) (inr_inj h) tt
  restore_entry-IsFiled e e' h = subst (IsFiled specs) (inr_inj h) tt

  restored-IsFiled :
      (k id : String) (entry : LoadError ⊎ Entry) (rest : LoadError ⊎ Dict Entry) (d : Dict Entry)
      (e : Entry)
      → ((e' : Entry) → entry ≡ inr e' → IsFiled specs e')
      → ((d' : Dict Entry) → rest ≡ inr d' → get d' id ≡ some e → IsFiled specs e)
      → restored k entry rest ≡ inr d
      → get d id ≡ some e
      → IsFiled specs e
  unfolding get
  restored-IsFiled k id (inl x) rest d e f g h there = absurd (ground arith)
  restored-IsFiled k id (inr entry) (inl x) d e f g h there = absurd (ground arith)
  restored-IsFiled k id (inr entry) (inr d') d e f g h there =
      let at : get ((k, entry) ∷ d') id ≡ some e =
        subst (λ x. get x id ≡ some e) (sym (inr_inj h)) there in
      elim (Bool-cases (k == id)) [
        | inl same ↦ subst (IsFiled specs) (some-injective _ _ (rw same at at)) (f entry refl)
        | inr other ↦ g d' refl (rw other at at)
      ]

  restore_entries-IsFiled :
      (d d' : Dict Entry) (id : String) (e : Entry)
      → restore_entries specs d ≡ inr d'
      → get d' id ≡ some e
      → IsFiled specs e
  unfolding restore_entries get
  restore_entries-IsFiled [] d' id e h there =
      absurd (ground (arith, subst (λ x. get x id ≡ some e) (sym (inr_inj h)) there))
  restore_entries-IsFiled ((k, entry) ∷ d) d' id e h there =
      restored-IsFiled k id (restore_entry specs entry) (restore_entries specs d) d' e
        (λ e'. restore_entry-IsFiled entry e') (λ d''. restore_entries-IsFiled d d'' id e) h there

module _ (session : AgentSession) where
  -- A well-formed session whose entries stand under distinct keys comes back from storage as it was.
  pub load-strip :
      (digest : ToolSpec → String)
      → IsWellFormed digest session
      → Distinct session.entries
      → load (strip_inline_tool_specs session) ≡ inr session
  unfolding load strip_inline_tool_specs restore_tool_specs
  load-strip digest wf distinct = rw wf.main (
      rw
        (restore-strip session.tool_specs session.entries
          (AllFiled-get session.tool_specs session.entries distinct wf.filed))
        refl)

  with_entries_inversion :
      (r : LoadError ⊎ Dict Entry) (loaded : AgentSession)
      → with_entries session r ≡ inr loaded
      → (d : Dict Entry) × (r ≡ inr d) × (record session { entries = d } ≡ loaded)
  with_entries_inversion (inl e) loaded h = absurd (ground arith)
  with_entries_inversion (inr d) loaded h = (d, refl, inr_inj h)

  abbrev Sound : AgentSession → Type 0
  Sound loaded =
      (contains loaded.conversations loaded.main_conversation_id ≡ true)
      × ((id : String) (e : Entry) → get loaded.entries id ≡ some e → IsFiled loaded.tool_specs e)
      × (record loaded { entries = session.entries } ≡ session)

  -- A session that loads has a main conversation, and every execution in it holds the stored spec
  -- that its id names, or neither a spec nor an id. Its rows other than the entries are the file's.
  pub load-IsFiled :
      (loaded : AgentSession)
      → load session ≡ inr loaded
      → (contains loaded.conversations loaded.main_conversation_id ≡ true)
        × ((id : String) (e : Entry) → get loaded.entries id ≡ some e → IsFiled loaded.tool_specs e)
        × (record loaded { entries = session.entries } ≡ session)
  unfolding load restore_tool_specs
  load-IsFiled loaded h =
      elim (Bool-cases (contains session.conversations session.main_conversation_id)) [
        | inl there ↦
            let (d, restores, same) =
              with_entries_inversion (restore_entries session.tool_specs session.entries) loaded
                (rw (there, load) at h) in
            subst Sound same (
              there,
              λ id e. restore_entries-IsFiled session.tool_specs session.entries d id e restores,
              refl,
            )
        | inr missing ↦ absurd (ground (arith, missing, h))
      ]
