-- ===== src/Runner/Outcomes/Ended.antt =====
-- Sessions that differ in executions that have ended, and the hooks of agent/core/runner.py that leave
-- the outcome of an execution alone.
use text.Mathlib.Text.{◌==◌}
use text.Mathlib.TextEquality.{eq_iff}
use luca_py.Base.{
  ℕ, String, ◌≡◌, refl, sym, ap, ◌∙◌, subst, ◌⊎◌, inl, inr, true, false, Option, some, List,
  Bool-cases, All,
}
use luca_py.Base.Dict.{Dict, get, contains, get-put}
use luca_py.Models.Tools.{is_nonterminal}
use luca_py.Models.Entries.{Entry, ToolExecution}
use luca_py.Models.Session.{AgentSession, Conversation}
use luca_py.Ledger.Executions.{PathKept, Writes}

abbrev pub IsExecution : Option Entry → Type 0
IsExecution o = (e : ToolExecution) × (o ≡ some (Entry.tool_execution e))

abbrev pub Terminal : Option Entry → Type 0
Terminal o =
    (e : ToolExecution) × (o ≡ some (Entry.tool_execution e)) × (is_nonterminal e.status ≡ false)

-- Each entry is as it was, or was an execution and is one that has ended.
abbrev pub Tame : AgentSession → AgentSession → Type 0
Tame s s' =
    (n : String)
    → (get s'.entries n ≡ get s.entries n)
      ⊎ (IsExecution (get s.entries n) × Terminal (get s'.entries n))

pub Tame-trans : (s t u : AgentSession) → Tame s t → Tame t u → Tame s u
Tame-trans s t u h k n = both (h n) (k n)
  where
    both :
        (get t.entries n ≡ get s.entries n)
          ⊎ (IsExecution (get s.entries n) × Terminal (get t.entries n))
        → (get u.entries n ≡ get t.entries n)
          ⊎ (IsExecution (get t.entries n) × Terminal (get u.entries n))
        → (get u.entries n ≡ get s.entries n)
          ⊎ (IsExecution (get s.entries n) × Terminal (get u.entries n))
    both (inl e) (inl f) = inl (f ∙ e)
    both (inl e) (inr (was, is)) = inr (subst IsExecution e was, is)
    both (inr (was, is)) (inl f) = inr (was, subst Terminal (sym f) is)
    both (inr (was, old)) (inr (_, is)) = inr (was, is)

pub Terminal-Tame :
    (s t : AgentSession) (n : String)
    → Tame s t
    → Terminal (get s.entries n)
    → Terminal (get t.entries n)
Terminal-Tame s t n h over = elim (h n) [ inl e ↦ subst Terminal (sym e) over | inr (was, is) ↦ is ]

pub IsExecution-Tame :
    (s t : AgentSession) (n : String)
    → Tame s t
    → IsExecution (get s.entries n)
    → IsExecution (get t.entries n)
IsExecution-Tame s t n h was = elim (h n) [
  | inl e ↦ subst IsExecution (sym e) was
  | inr (_, (e, is, over)) ↦ (e, is)
]

abbrev pub Sits : String → AgentSession → Type 0
Sits cid s = (c : Conversation) × (get s.conversations cid ≡ some c)

pub Sits-PathKept : (cid : String) (s t : AgentSession) → PathKept cid s t → Sits cid s → Sits cid t
Sits-PathKept cid s t h (c, found) = let (d, at, same) = h c found in (d, at)

pub there : (d : Dict Entry) (k : String) → IsExecution (get d k) → contains d k ≡ true
there d k (e, is) = rw is refl

pub PathKept-trans :
    (cid : String) (s t u : AgentSession) → PathKept cid s t → PathKept cid t u → PathKept cid s u
PathKept-trans cid s t u h k c found =
    let (d, at, same) = h c found in let (d', at', same') = k d at in (d', at', same' ∙ same)

pub Writes-Tame :
    (cid id : String) (s t : AgentSession)
    → IsExecution (get s.entries id)
    → Writes cid id s t
    → Tame s t × Terminal (get t.entries id) × PathKept cid s t
Writes-Tame cid id s t was (e, over, same, kept) = (tame, ended id refl, kept)
  where
    ended : (n : String) → id ≡ n → Terminal (get t.entries n)
    ended n h = (
      e,
      ap (λ d. get d n) same
          ∙ (get-put s.entries id n (Entry.tool_execution e) ∙ rw ((eq_iff id n).1 h) refl),
      over,
    )

    tame : Tame s t
    tame n = elim (Bool-cases (id == n)) [
      | inl h ↦
          let eq = (eq_iff id n).0 h in
          inr (subst (λ k. IsExecution (get s.entries k)) eq was, ended n eq)
      | inr other ↦ inl (
          ap (λ d. get d n) same
          ∙ (get-put s.entries id n (Entry.tool_execution e) ∙ rw other refl))
    ]

-- Whether the hooks leave the id and the status of an execution alone.
abbrev pub KeepsOutcome :
    (AgentSession → String → ToolExecution → String ⊎ ToolExecution)
    → (AgentSession → String → Entry → String ⊎ Entry)
    → Type 0
KeepsOutcome after before =
    ((s : AgentSession) (cid : String) (e e' : ToolExecution)
      → after s cid e ≡ inr e'
      → (e'.id ≡ e.id) × (e'.status ≡ e.status))
    × ((s : AgentSession) (cid : String) (e : ToolExecution) (entry : Entry)
        → before s cid (Entry.tool_execution e) ≡ inr entry
        → (e' : ToolExecution) × (entry ≡ Entry.tool_execution e')
          × (e'.id ≡ e.id)
          × (e'.status ≡ e.status))

-- The ids of the executions stand in the store, for executions.
abbrev pub Known : AgentSession → List ToolExecution → Type 0
Known s es = All (λ e. (id : String) × (e.id ≡ some id) × IsExecution (get s.entries id)) es

abbrev pub Finished : String → List ToolExecution → AgentSession → AgentSession → Type 0
Finished cid es s s' =
    Tame s s'
    × PathKept cid s s'
    × All (λ e. (id : String) × (e.id ≡ some id) × Terminal (get s'.entries id)) es

abbrev pub Stamps : (ℕ → ToolExecution → ToolExecution) → Type 0
Stamps stamp =
    (ts : ℕ) (e : ToolExecution)
    → ((stamp ts e).id ≡ e.id) × (is_nonterminal (stamp ts e).status ≡ false)
