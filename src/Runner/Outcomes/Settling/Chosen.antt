-- ===== src/Runner/Outcomes/Settling/Chosen.antt =====
-- The executions that a loop of agent/core/runner.py chooses from the nodes of a turn, over a store
-- in which some of them have ended.
use luca_py.Base.{
  String, ◌≡◌, refl, sym, ap, ◌∙◌, subst, inl, inr, Bool, true, false, Option, none, some, List, [],
  ◌∷◌, filter, arith, Option-cases, Bool-cases, All,
}
use mathlib.Core.Option.{some-injective}
use luca_py.Base.Dict.{get}
use luca_py.Models.Tools.{is_nonterminal}
use luca_py.Models.Entries.{Entry, ToolExecution, as_tool_execution}
use luca_py.Models.Path.{select}
use luca_py.Models.Session.{AgentSession}
use luca_py.Runner.Outcomes.Ended.{Terminal, Tame, Known}

-- The test holds of executions that have not ended only.
abbrev pub Live : (ToolExecution → Bool) → Type 0
Live test = (e : ToolExecution) → test e ≡ true → is_nonterminal e.status ≡ true

-- The executions that pass the test carry the id that they are filed under.
abbrev pub Keyed : (ToolExecution → Bool) → AgentSession → Type 0
Keyed test s =
    (k : String) (e : ToolExecution)
    → get s.entries k ≡ some (Entry.tool_execution e)
    → test e ≡ true
    → e.id ≡ some k

-- No execution that passes the test stands here.
abbrev pub Quiet : (ToolExecution → Bool) → Option Entry → Type 0
Quiet test o = (e : ToolExecution) → o ≡ some (Entry.tool_execution e) → test e ≡ false

abbrev Ended : AgentSession → List ToolExecution → Type 0
Ended t es = All (λ e. (id : String) × (e.id ≡ some id) × Terminal (get t.entries id)) es

found_at :
    (o : Option Entry) (e : ToolExecution)
    → as_tool_execution o ≡ some e
    → o ≡ some (Entry.tool_execution e)
found_at none e h = absurd (ground (arith, h))
found_at (some (Entry.tool_execution d)) e h =
    ap (λ x. some (Entry.tool_execution x)) (some-injective _ _ h)
found_at (some _) e h = absurd (ground (arith, h))

not_found :
    (o : Option Entry) → as_tool_execution o ≡ none → (test : ToolExecution → Bool) → Quiet test o
not_found o h test e is = absurd (ground (arith, sym h ∙ ap as_tool_execution is))

pub Terminal-Quiet :
    (test : ToolExecution → Bool) → Live test → (o : Option Entry) → Terminal o → Quiet test o
Terminal-Quiet test live o (d, is, over) e at = elim (Bool-cases (test e)) [
  | inr off ↦ off
  | inl on ↦
      let same = some-injective _ _ (ap as_tool_execution (sym is ∙ at)) in
      absurd
        (ground (arith, live e on, over, ap (λ (x : ToolExecution). is_nonterminal x.status) same))
]

abbrev pub chosen : (ToolExecution → Bool) → AgentSession → List String → List ToolExecution
chosen test s nodes = filter test (select as_tool_execution s.entries nodes)

module _ (test : ToolExecution → Bool) (s : AgentSession) (k : String) (rest : List String) where
  chosen_missing :
      as_tool_execution (get s.entries k) ≡ none → chosen test s (k ∷ rest) ≡ chosen test s rest
  unfolding select
  chosen_missing h = rw (h, chosen, filter) refl

  chosen_on :
      (e : ToolExecution)
      → as_tool_execution (get s.entries k) ≡ some e
      → test e ≡ true
      → chosen test s (k ∷ rest) ≡ e ∷ chosen test s rest
  unfolding select
  chosen_on e h on = rw (h, chosen, filter) (rw (on, filter) refl)

  chosen_off :
      (e : ToolExecution)
      → as_tool_execution (get s.entries k) ≡ some e
      → test e ≡ false
      → chosen test s (k ∷ rest) ≡ chosen test s rest
  unfolding select
  chosen_off e h off = rw (h, chosen, filter) (rw (off, filter) refl)

module _ (test : ToolExecution → Bool) (live : Live test) (s : AgentSession)
    (keyed : Keyed test s) where
  pub selected-Known : (nodes : List String) → Known s (chosen test s nodes)
  unfolding select
  selected-Known [] = tt
  selected-Known (k ∷ rest) = elim (Option-cases (as_tool_execution (get s.entries k))) [
    | inl h ↦ subst (Known s) (sym (chosen_missing test s k rest h)) (selected-Known rest)
    | inr (e, h) ↦ elim (Bool-cases (test e)) [
      | inr off ↦ subst (Known s) (sym (chosen_off test s k rest e h off)) (selected-Known rest)
      | inl on ↦
          let is = found_at (get s.entries k) e h in
          subst (Known s) (sym (chosen_on test s k rest e h on))
            ((k, keyed k e is on, (e, is)), selected-Known rest)
    ]
  ]

  here :
      (t : AgentSession)
      → Tame s t
      → (k : String) → Quiet test (get s.entries k)
      → Quiet test (get t.entries k)
  here t tame k quiet = elim (tame k) [
    | inl same ↦ λ e at. quiet e (sym same ∙ at)
    | inr (_, over) ↦ Terminal-Quiet test live (get t.entries k) over
  ]

  one-Quiet :
      (k : String) (e : ToolExecution)
      → get s.entries k ≡ some (Entry.tool_execution e)
      → test e ≡ false
      → Quiet test (get s.entries k)
  one-Quiet k e is off d at =
      ap test (sym (some-injective _ _ (ap as_tool_execution (sym is ∙ at)))) ∙ off

  pub selected-Quiet :
      (t : AgentSession)
      → Tame s t
      → (nodes : List String) → Ended t (chosen test s nodes)
      → All (λ k. Quiet test (get t.entries k)) nodes
  unfolding select
  selected-Quiet t tame [] ended = tt
  selected-Quiet t tame (k ∷ rest) ended =
      elim (Option-cases (as_tool_execution (get s.entries k))) [
        | inl h ↦ (
          here t tame k (not_found (get s.entries k) h test),
          selected-Quiet t tame rest (subst (Ended t) (chosen_missing test s k rest h) ended),
        )
        | inr (e, h) ↦ elim (Bool-cases (test e)) [
          | inr off ↦ (
            here t tame k (one-Quiet k e (found_at (get s.entries k) e h) off),
            selected-Quiet t tame rest (subst (Ended t) (chosen_off test s k rest e h off) ended),
          )
          | inl on ↦
              let ((id, named, over), later) =
                subst (Ended t) (chosen_on test s k rest e h on) ended in
              let at =
                some-injective _ _ (sym named ∙ keyed k e (found_at (get s.entries k) e h) on) in
              (
                Terminal-Quiet test live (get t.entries k)
                    (subst (λ x. Terminal (get t.entries x)) at over),
                selected-Quiet t tame rest later,
              )
        ]
      ]

module _ (test : ToolExecution → Bool) (t : AgentSession) where
  pub chosen_none :
      (nodes : List String)
      → All (λ k. Quiet test (get t.entries k)) nodes
      → chosen test t nodes ≡ []
  unfolding select
  chosen_none [] quiet = refl
  chosen_none (k ∷ rest) (quiet, later) =
      elim (Option-cases (as_tool_execution (get t.entries k))) [
        | inl h ↦ chosen_missing test t k rest h ∙ chosen_none rest later
        | inr (e, h) ↦
            chosen_off test t k rest e h (quiet e (found_at (get t.entries k) e h))
            ∙ chosen_none rest later
      ]
