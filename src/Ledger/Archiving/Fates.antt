-- ===== src/Ledger/Archiving/Fates.antt =====
-- What becomes of each entry in a transition (agent/core/ledger.py): it is given by the transition, or
-- it is the old one, and an entry that the transition creates was not there before.
use text.Mathlib.Text.{◌==◌}
use text.Mathlib.TextEquality.{eq_iff}
use text.Mathlib.TextPositions.{eq_refl}
use mathlib.Core.Option.{some-injective}
use luca_py.Base.{
  String, ◌≡◌, refl, sym, ap, ◌∙◌, ◌⊎◌, inl, inr, true, false, none, some, List, [], ◌∷◌, ◌++◌,
  arith, subst, if◌then◌else◌, Bool-cases, Option-cases,
}
use luca_py.Base.Dict.{Dict, get, contains, get-put}
use luca_py.Models.Tools.{ToolSpec}
use luca_py.Models.Entries.{Entry, entry_id}
use luca_py.Models.Session.{AgentSession}
use luca_py.Ledger.{file_entry}
use luca_py.Ledger.Transition.{check_updates, check_created, file_all}
use luca_py.Ledger.Invariant.Filing.{file_entry_entries}
use luca_py.Ledger.Invariant.Contents.{StoredAs, file_entry-StoredAs}
use luca_py.Ledger.Archiving.Batch.{Names}

abbrev pub Among : Entry → List Entry → Type 0
Among entry [] = ⊥
Among entry (e ∷ rest) = (entry ≡ e) ⊎ Among entry rest

module _ (digest : ToolSpec → String) where
  -- An entry of the list stands in the store under its id.
  abbrev pub Written : String → List Entry → AgentSession → Type 0
  Written n es s =
      (entry : Entry) × Among entry es
      × (entry_id entry ≡ some n)
      × ((stored : Entry) × (get s.entries n ≡ some stored) × StoredAs digest entry stored)

  -- An id that the list names holds an entry of the list, and any other what it held.
  abbrev pub Fate : String → List Entry → AgentSession → AgentSession → Type 0
  Fate n es s s' = Written n es s' ⊎ ((Names n es → ⊥) × (get s'.entries n ≡ get s.entries n))

  Written-more :
      (n : String) (entry : Entry) (es : List Entry) (s : AgentSession)
      → Written n es s
      → Written n (entry ∷ es) s
  Written-more n entry es s (e, among, named, stored) = (e, inr among, named, stored)

  file_entry_at :
      (id n : String) (entry : Entry) (s : AgentSession)
      → get (file_entry digest id entry s).1.entries n
        ≡ (if id == n then some (file_entry digest id entry s).0 else get s.entries n)
  file_entry_at id n entry s =
      ap (λ d. get d n) (file_entry_entries digest id entry s)
      ∙ get-put s.entries id n (file_entry digest id entry s).0

  file_all_skip :
      (entry : Entry) (rest : List Entry) (s : AgentSession)
      → entry_id entry ≡ none
      → file_all digest (entry ∷ rest) s ≡ file_all digest rest s
  unfolding file_all
  file_all_skip entry rest s h = rw (h, file_all) refl

  file_all_step :
      (entry : Entry) (rest : List Entry) (s : AgentSession) (id : String)
      → entry_id entry ≡ some id
      → file_all digest (entry ∷ rest) s ≡ file_all digest rest (file_entry digest id entry s).1
  unfolding file_all
  file_all_step entry rest s id h = rw (h, file_all) refl

  skip-Fate :
      (n : String) (entry : Entry) (rest : List Entry) (s s' : AgentSession)
      → entry_id entry ≡ none
      → Fate n rest s s'
      → Fate n (entry ∷ rest) s s'
  skip-Fate n entry rest s s' h (inl w) = inl (Written-more n entry rest s' w)
  skip-Fate n entry rest s s' h (inr (other, same)) = inr (other_ids, same)
    where
      other_ids : Names n (entry ∷ rest) → ⊥
      other_ids (inl at) = absurd (ground (arith, sym h ∙ at))
      other_ids (inr more) = other more

  step-Fate :
      (n : String) (entry : Entry) (rest : List Entry) (s s' : AgentSession) (id : String)
      → entry_id entry ≡ some id
      → Fate n rest (file_entry digest id entry s).1 s'
      → Fate n (entry ∷ rest) s s'
  step-Fate n entry rest s s' id h (inl w) = inl (Written-more n entry rest s' w)
  step-Fate n entry rest s s' id h (inr (other, same)) = elim (Bool-cases (id == n)) [
    | inl e ↦ inl (
      entry,
      inl refl,
      h ∙ ap some ((eq_iff id n).0 e),
      (_, same ∙ (file_entry_at id n entry s ∙ rw e refl), file_entry-StoredAs digest id entry s),
    )
    | inr d ↦ inr (other_ids d, same ∙ (file_entry_at id n entry s ∙ rw d refl))
  ]
    where
      other_ids : (id == n) ≡ false → Names n (entry ∷ rest) → ⊥
      other_ids d (inl at) = absurd (ground (arith, sym h ∙ at, d, eq_iff id n))
      other_ids d (inr more) = other more

  pub file_all-Fate :
      (n : String) (es : List Entry) (s : AgentSession) → Fate n es s (file_all digest es s)
  unfolding file_all
  file_all-Fate n [] s = inr (λ h. h, refl)
  file_all-Fate n (entry ∷ rest) s = elim (Option-cases (entry_id entry)) [
    | inl h ↦
        subst (Fate n (entry ∷ rest) s) (sym (file_all_skip entry rest s h))
          (skip-Fate n entry rest s (file_all digest rest s) h (file_all-Fate n rest s))
    | inr (id, h) ↦ subst (Fate n (entry ∷ rest) s) (sym (file_all_step entry rest s id h)) (
        step-Fate n entry rest s (file_all digest rest (file_entry digest id entry s).1) id h
          (file_all-Fate n rest (file_entry digest id entry s).1))
  ]

  pub file_all-append :
      (xs ys : List Entry) (s : AgentSession)
      → file_all digest ys (file_all digest xs s) ≡ file_all digest (xs ++ ys) s
  unfolding file_all
  file_all-append [] ys s = refl
  file_all-append (x ∷ xs) ys s = elim (Option-cases (entry_id x)) [
    | inl h ↦ rw (h, file_all) (file_all-append xs ys s)
    | inr (id, h) ↦ rw (h, file_all) (file_all-append xs ys (file_entry digest id x s).1)
  ]

check_created_head :
    (entries : Dict Entry) (minted : List String) (entry : Entry) (rest : List Entry)
    → check_created entries minted (entry ∷ rest) ≡ none
    → (id : String) × (entry_id entry ≡ some id)
      × (contains entries id ≡ false)
      × (check_created entries (id ∷ minted) rest ≡ none)
unfolding check_created
check_created_head entries minted entry rest h = elim (Option-cases (entry_id entry)) [
  | inl e ↦ absurd (ground (arith, h, e))
  | inr (id, e) ↦ (id, e, ground (arith, h, e), ground (arith, h, e))
]

-- The entries that pass the check have new ids.
pub check_created_new :
    (entries : Dict Entry) (minted : List String) (es : List Entry) (n : String)
    → check_created entries minted es ≡ none
    → Names n es
    → contains entries n ≡ false
check_created_new entries minted [] n h named = absurd named
check_created_new entries minted (entry ∷ rest) n h (inl at) =
    let (id, e, new, later) = check_created_head entries minted entry rest h in
    subst (λ k. contains entries k ≡ false) (some-injective _ _ (sym e ∙ at)) new
check_created_new entries minted (entry ∷ rest) n h (inr more) =
    let (id, e, new, later) = check_created_head entries minted entry rest h in
    check_created_new entries (id ∷ minted) rest n later more

-- The last entry that passes the check has an id.
pub check_created_last :
    (entries : Dict Entry) (minted : List String) (es : List Entry) (last : Entry)
    → check_created entries minted (es ++ last ∷ []) ≡ none
    → (id : String) × (entry_id last ≡ some id)
check_created_last entries minted [] last h =
    let (id, e, new, later) = check_created_head entries minted last [] h in (id, e)
check_created_last entries minted (entry ∷ es) last h =
    let (id, e, new, later) = check_created_head entries minted entry (es ++ last ∷ []) h in
    check_created_last entries (id ∷ minted) es last later

-- The entry that is filed last stands under its id.
pub file_all_last :
    (digest : ToolSpec → String) (last : Entry) (s : AgentSession) (id : String)
    → entry_id last ≡ some id
    → (stored : Entry) × (get (file_all digest (last ∷ []) s).entries id ≡ some stored)
      × StoredAs digest last stored
unfolding file_all
file_all_last digest last s id h = (
  (file_entry digest id last s).0,
  ap (λ (x : AgentSession). get x.entries id) (file_all_step digest last [] s id h)
      ∙ (file_entry_at digest id id last s ∙ rw (eq_refl id) refl),
  file_entry-StoredAs digest id last s,
)

check_updates_head :
    (entries : Dict Entry) (entry : Entry) (rest : List Entry)
    → check_updates entries (entry ∷ rest) ≡ none
    → (id : String) × (entry_id entry ≡ some id)
      × (contains entries id ≡ true)
      × (check_updates entries rest ≡ none)
unfolding check_updates
check_updates_head entries entry rest h = elim (Option-cases (entry_id entry)) [
  | inl e ↦ absurd (ground (arith, h, e))
  | inr (id, e) ↦ (id, e, ground (arith, h, e), ground (arith, h, e))
]

-- The updates that pass the check are updates of stored entries.
pub check_updates_stored :
    (entries : Dict Entry) (es : List Entry) (n : String)
    → check_updates entries es ≡ none
    → Names n es
    → contains entries n ≡ true
check_updates_stored entries [] n h named = absurd named
check_updates_stored entries (entry ∷ rest) n h (inl at) =
    let (id, e, stored, later) = check_updates_head entries entry rest h in
    subst (λ k. contains entries k ≡ true) (some-injective _ _ (sym e ∙ at)) stored
check_updates_stored entries (entry ∷ rest) n h (inr more) =
    let (id, e, stored, later) = check_updates_head entries entry rest h in
    check_updates_stored entries rest n later more

pub Among-Names :
    (entry : Entry) (es : List Entry) (n : String)
    → Among entry es
    → entry_id entry ≡ some n
    → Names n es
Among-Names entry [] n among named = absurd among
Among-Names entry (e ∷ rest) n (inl same) named = inl (ap entry_id (sym same) ∙ named)
Among-Names entry (e ∷ rest) n (inr more) named = inr (Among-Names entry rest n more named)
