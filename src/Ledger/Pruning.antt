-- ===== src/Ledger/Pruning.antt =====
-- `SessionLedger.prune` (agent/core/ledger.py): one node of the path changes, and the invariant holds.
use text.Mathlib.Text.{◌==◌}
use text.Mathlib.TextEquality.{eq_iff}
use mathlib.Core.Option.{some-injective}
use luca_py.Base.{
  ℕ, zero, suc, ◌<◌, String, ◌≡◌, ◌≢◌, refl, sym, ap, subst, inl, inr, false, Option, none, some,
  List, [], ◌∷◌, arith, if◌then◌else◌, All-map, All-set, Bool-cases, Option-cases, set, get_elem?,
}
use luca_py.Base.Dict.{get, get-put}
use luca_py.Models.Tools.{ToolSpec}
use luca_py.Models.Entries.{Entry, PrunedEntry, entry_type, base_of}
use luca_py.Models.Session.{Conversation}
use luca_py.Ledger.{
  LedgerError, Result, ok, err, Ledger, now, next_id, ticked, advanced, conversation, write_entry,
  write_conversation,
}
use luca_py.Ledger.Records.{prune, check_pruned, index_of, is_live}
use luca_py.Ledger.Invariant.{
  IsWellFormed, Present, contains-put, contains-put_self, write_conversation-IsWellFormed,
  write_entry-IsWellFormed,
}

-- The first place of an id on a path.
abbrev pub IsFirst : String → List String → ℕ → Type 0
IsFirst id nodes i = (get_elem? nodes i ≡ some id) × ((m : ℕ) → m < i → get_elem? nodes m ≢ some id)

-- `nodes.index(id)` is that place.
pub index_of_first :
    (id : String) (nodes : List String) (i : ℕ) → IsFirst id nodes i → index_of id nodes ≡ some i
unfolding index_of
index_of_first id [] i (at, first) = absurd (ground (arith, at))
index_of_first id (node ∷ rest) zero (at, first) =
    rw ((eq_iff node id).1 (some-injective _ _ at), index_of) refl
index_of_first id (node ∷ rest) (suc i) (at, first) = elim (Bool-cases (node == id)) [
  | inl e ↦ absurd (first 0 (omega arith) (ap some ((eq_iff node id).0 e)))
  | inr other ↦
      rw (other, index_of)
        (rw (index_of_first id rest i (at, λ m less. first (suc m) (omega (arith, less)))) refl)
]

-- An entry that names the original, with its type, passes the checks where the original is no live
-- execution.
check_pruned_fits :
    (original_id : String) (original : Entry) (entry : PrunedEntry)
    → entry.pruned_entry_id ≡ original_id
    → entry.pruned_entry_type ≡ entry_type original
    → is_live original ≡ false
    → check_pruned original_id original entry ≡ none
unfolding check_pruned
check_pruned_fits original_id original entry named typed rests =
    ground (arith, eq_iff entry.pruned_entry_id original_id)

abbrev pub StampsPruned : (String → Option String → ℕ → PrunedEntry) → Type 0
StampsPruned build =
    (id : String) (parent : Option String) (ts : ℕ) → (build id parent ts).id ≡ some id

module _ (cid original_id : String) (build : String → Option String → ℕ → PrunedEntry) (l : Ledger)
    (stamps : StampsPruned build) where
  -- All that `prune` may do: raise with nothing written, or write the pruned entry in its place.
  pub data Pruning : Result PrunedEntry × Ledger → Type 0 where
    refused : (e : LedgerError) (l' : Ledger) → l'.session ≡ l.session → Pruning (err e, l')
    pruned :
        (c : Conversation) (original : Entry) (i : ℕ)
        → get l.session.conversations cid ≡ some c
        → get l.session.entries original_id ≡ some original
        → index_of original_id c.nodes ≡ some i
        → check_pruned original_id original (build (next_id l) (base_of original).parent_id (now l))
          ≡ none
        → Pruning (
          ok (build (next_id l) (base_of original).parent_id (now l)),
          record (advanced (ticked l)) {
            session =
                write_conversation cid
                  (record c { nodes = set c.nodes i (next_id l); updated_at = now l })
                  (write_entry
                    (next_id l)
                    (Entry.pruned (build (next_id l) (base_of original).parent_id (now l)))
                    l.session);
          },
        )

  pub prune_cases : Pruning (prune cid original_id build l)
  unfolding prune conversation
  prune_cases = elim (Option-cases (get l.session.conversations cid)) [
    | inl h ↦ rw (h, prune, conversation) (refused _ _ refl)
    | inr (c, found) ↦ elim (Option-cases (get l.session.entries original_id)) [
      | inl h ↦ rw (found, prune, conversation) (rw (h, prune) (refused _ _ refl))
      | inr (original, there) ↦ elim (Option-cases (index_of original_id c.nodes)) [
        | inl h ↦
            rw (found, prune, conversation) (rw (there, prune) (rw (h, prune) (refused _ _ refl)))
        | inr (i, at) ↦
            elim (Option-cases (
              check_pruned original_id original
                (build (next_id l) (base_of original).parent_id (now l)))) [
                  | inl passes ↦
                      rw (found, prune, conversation)
                        (rw (there, prune)
                          (rw (at, prune)
                            (rw (passes, prune)
                              (rw (stamps (next_id l) (base_of original).parent_id (now l), prune)
                                (pruned c original i found there at passes)))))
                  | inr (e, fails) ↦
                      rw (found, prune, conversation)
                        (rw (there, prune) (rw (at, prune) (rw (fails, prune) (refused _ _ refl))))
                ]
      ]
    ]
  ]

  prune_runs :
      (c : Conversation) (original : Entry) (i : ℕ)
      → get l.session.conversations cid ≡ some c
      → get l.session.entries original_id ≡ some original
      → index_of original_id c.nodes ≡ some i
      → let entry = build (next_id l) (base_of original).parent_id (now l) in
        check_pruned original_id original entry ≡ none
        → prune cid original_id build l ≡ (
          ok entry,
          record (advanced (ticked l)) {
            session =
                write_conversation cid
                  (record c { nodes = set c.nodes i (next_id l); updated_at = now l })
                  (write_entry (next_id l) (Entry.pruned entry) l.session);
          },
        )
  unfolding prune conversation
  prune_runs c original i found there at passes =
      ground (arith, stamps (next_id l) (base_of original).parent_id (now l))

  -- Where the named conversation is there, the original is stored and no live execution, its first
  -- place on the path is `i`, and the built entry names it with its type, `prune` returns that entry,
  -- files it under the new id, and puts that id in the place `i`. No other entry, no other
  -- conversation, no usage, no tool spec and no main pointer changes.
  pub prune_writes :
      (c : Conversation) (original : Entry) (i : ℕ) (k j : String)
      → get l.session.conversations cid ≡ some c
      → get l.session.entries original_id ≡ some original
      → is_live original ≡ false
      → IsFirst original_id c.nodes i
      → let entry = build (next_id l) (base_of original).parent_id (now l) in
        entry.pruned_entry_id ≡ original_id
        → entry.pruned_entry_type ≡ entry_type original
        → let (r, l') = prune cid original_id build l in
          (r ≡ ok entry)
          × (get l'.session.entries k
              ≡ (if next_id l == k then some (Entry.pruned entry) else get l.session.entries k))
          × (get l'.session.conversations j ≡ (
              if cid == j
              then some (record c { nodes = set c.nodes i (next_id l); updated_at = now l })
              else get l.session.conversations j))
          × (l'.session.usages ≡ l.session.usages)
          × (l'.session.tool_specs ≡ l.session.tool_specs)
          × (l'.session.main_conversation_id ≡ l.session.main_conversation_id)
  prune_writes c original i k j found there rests first named typed =
      rw
        (prune_runs c original i found there (index_of_first original_id c.nodes i first)
          (check_pruned_fits original_id original _ named typed rests))
        (unfold write_conversation write_entry in
          (
            refl,
            get-put l.session.entries (next_id l) k _,
            get-put l.session.conversations cid j _,
            refl,
            refl,
            refl,
          ))

module _ (digest : ToolSpec → String) (cid original_id : String)
    (build : String → Option String → ℕ → PrunedEntry) (l : Ledger)
    (stamps : StampsPruned build) where
  abbrev Safe : Result PrunedEntry × Ledger → Type 0
  Safe out = IsWellFormed digest out.1.session

  Pruning-IsWellFormed :
      {out : Result PrunedEntry × Ledger}
      → IsWellFormed digest l.session
      → Pruning cid original_id build l stamps out
      → Safe out
  Pruning-IsWellFormed wf (refused e l' same) = subst (IsWellFormed digest) (sym same) wf
  Pruning-IsWellFormed wf (pruned c original i found there at passes) =
      write_conversation-IsWellFormed digest cid
        (record c { nodes = set c.nodes i (next_id l); updated_at = now l }) _
        (wf.named cid c found)
        (unfold write_entry in
          All-set _ c.nodes i (next_id l)
            (All-map (Present l.session) _ c.nodes
              (λ n. contains-put l.session.entries (next_id l) n _) (wf.paths cid c found))
            (contains-put_self l.session.entries (next_id l) _))
        (write_entry-IsWellFormed digest (next_id l)
          (Entry.pruned (build (next_id l) (base_of original).parent_id (now l))) l.session
          (stamps (next_id l) (base_of original).parent_id (now l)) tt wf)

  pub prune-IsWellFormed :
      IsWellFormed digest l.session → IsWellFormed digest (prune cid original_id build l).1.session
  prune-IsWellFormed wf = Pruning-IsWellFormed wf (prune_cases cid original_id build l stamps)
