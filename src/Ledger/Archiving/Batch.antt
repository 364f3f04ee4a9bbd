-- ===== src/Ledger/Archiving/Batch.antt =====
-- The entries that `transition_conversation` (agent/core/ledger.py) files in one go.
use luca_py.Base.{
  String, ◌≡◌, refl, ◌∙◌, ◌⊎◌, inl, inr, Option, none, some, List, [], ◌∷◌, ◌++◌, All, All-append,
  Option-cases,
}
use luca_py.Models.Tools.{ToolSpec}
use luca_py.Models.Entries.{Entry, entry_id}
use luca_py.Models.Session.{AgentSession, Conversation}
use luca_py.Ledger.{write_conversation, file_entry}
use luca_py.Ledger.Transition.{Transition, file_all, closing_list, append_id}
use luca_py.Ledger.Invariant.{IsWellFormed, Present}
use luca_py.Ledger.Invariant.Filing.{
  file_entry-IsWellFormed, file_entry_keeps, Present-file_entry, Present-file_entry_self,
}

-- Some entry of the list has this id.
abbrev pub Names : String → List Entry → Type 0
Names id [] = ⊥
Names id (entry ∷ rest) = (entry_id entry ≡ some id) ⊎ Names id rest

module _ (digest : ToolSpec → String) where
  pub file_all-IsWellFormed :
      (es : List Entry) (session : AgentSession)
      → IsWellFormed digest session
      → IsWellFormed digest (file_all digest es session)
  unfolding file_all
  file_all-IsWellFormed [] session wf = wf
  file_all-IsWellFormed (entry ∷ rest) session wf = elim (Option-cases (entry_id entry)) [
    | inl h ↦ rw (h, file_all) (file_all-IsWellFormed rest session wf)
    | inr (id, h) ↦
        rw (h, file_all)
          (file_all-IsWellFormed rest (file_entry digest id entry session).1
            (file_entry-IsWellFormed digest id entry session h wf))
  ]

  pub Present-file_all :
      (n : String) (es : List Entry) (session : AgentSession)
      → Present session n
      → Present (file_all digest es session) n
  unfolding file_all
  Present-file_all n [] session p = p
  Present-file_all n (entry ∷ rest) session p = elim (Option-cases (entry_id entry)) [
    | inl h ↦ rw (h, file_all) (Present-file_all n rest session p)
    | inr (id, h) ↦
        rw (h, file_all)
          (Present-file_all n rest (file_entry digest id entry session).1
            (Present-file_entry digest id n entry session p))
  ]

  pub Names-file_all :
      (n : String) (es : List Entry) (session : AgentSession)
      → Names n es
      → Present (file_all digest es session) n
  unfolding file_all
  Names-file_all n [] session h = absurd h
  Names-file_all n (entry ∷ rest) session (inl h) =
      rw (h, file_all)
        (Present-file_all n rest (file_entry digest n entry session).1
          (Present-file_entry_self digest n entry session))
  Names-file_all n (entry ∷ rest) session (inr more) = elim (Option-cases (entry_id entry)) [
    | inl h ↦ rw (h, file_all) (Names-file_all n rest session more)
    | inr (id, h) ↦
        rw (h, file_all) (Names-file_all n rest (file_entry digest id entry session).1 more)
  ]

  pub file_all_conversations :
      (es : List Entry) (session : AgentSession)
      → (file_all digest es session).conversations ≡ session.conversations
  unfolding file_all
  file_all_conversations [] session = refl
  file_all_conversations (entry ∷ rest) session = elim (Option-cases (entry_id entry)) [
    | inl h ↦ rw (h, file_all) (file_all_conversations rest session)
    | inr (id, h) ↦
        rw (h, file_all)
          (file_all_conversations rest (file_entry digest id entry session).1
            ∙ (file_entry_keeps digest id entry session).0)
  ]

pub Names-append : (n : String) (xs ys : List Entry) → Names n (xs ++ ys) → Names n xs ⊎ Names n ys
Names-append n [] ys h = inr h
Names-append n (x ∷ xs) ys (inl h) = inl (inl h)
Names-append n (x ∷ xs) ys (inr h) = elim (Names-append n xs ys h) [
  | inl a ↦ inl (inr a)
  | inr b ↦ inr b
]

pub Present-write_conversation :
    (id n : String) (c : Conversation) (session : AgentSession)
    → Present session n
    → Present (write_conversation id c session) n
unfolding write_conversation
Present-write_conversation id n c session h = h

-- Every node of the new path is stored, or is created by the transition itself.
abbrev pub Resolves : AgentSession → Transition → Type 0
Resolves session t =
    All (λ n. Present session n ⊎ Names n (t.created ++ closing_list t.closing)) t.nodes

pub All-append_id :
    (P : String → Type 0) (o : Option String) (nodes : List String)
    → All P nodes
    → ((id : String) → o ≡ some id → P id)
    → All P (append_id o nodes)
All-append_id P none nodes h f = h
All-append_id P (some id) nodes h f = All-append P nodes (id ∷ []) h (f id refl, tt)
