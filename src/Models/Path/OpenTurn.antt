-- ===== src/Models/Path/OpenTurn.antt =====
-- `open_turn_index` (agent/core/models.py) against a description by positions, and the open turn as
-- the tail of the path.
use luca_py.Base.{
  leb, subst, ℕ, zero, suc, ◌+◌, ◌-◌, ◌<◌, String, ◌≡◌, refl, sym, ap, ◌↔◌, inl, inr, true, false,
  Option, some, List, [], ◌∷◌, ◌++◌, arith, Bool-cases, length, All, get_elem?-append_right,
  length-append,
}
use luca_py.Base.Dict.{Dict, get}
use luca_py.Models.Entries.{Entry, is_turn_start, is_turn_finish}
use luca_py.Models.Path.{entry_at, open_turn_before, open_turn_index}

-- Neither a `TurnStart` nor a `TurnFinish`.
abbrev pub IsInside : Option Entry → Type 0
IsInside e = (is_turn_start e ≡ false) × (is_turn_finish e ≡ false)

-- The node at `i`, in front of `n`, starts a turn, and no bracket stands between it and `n`.
pub record IsOpenBefore (nodes : List String) (entries : Dict Entry) (n i : ℕ) : Type 0 where
  pub before : i < n
  pub starts : is_turn_start (entry_at nodes entries i) ≡ true
  pub inside : (j : ℕ) → i < j → j < n → IsInside (entry_at nodes entries j)

module _ (nodes : List String) (entries : Dict Entry) where
  IsInside-suc :
      (n i : ℕ)
      → IsInside (entry_at nodes entries n)
      → ((j : ℕ) → i < j → j < n → IsInside (entry_at nodes entries j))
      → (j : ℕ) → i < j
      → j < suc n
      → IsInside (entry_at nodes entries j)
  IsInside-suc n i last h j lo hi = elim (Bool-cases (leb n j)) [
    | inl e ↦
        let same : n ≡ j = ground arith in
        subst (λ k. IsInside (entry_at nodes entries k)) same last
    | inr e ↦ h j lo (ground arith)
  ]

  pub open_turn_before_sound :
      (n i : ℕ) → open_turn_before nodes entries n ≡ some i → IsOpenBefore nodes entries n i
  unfolding open_turn_before
  open_turn_before_sound zero i h = absurd (ground arith)
  open_turn_before_sound (suc n) i h =
      elim (Bool-cases (is_turn_finish (entry_at nodes entries n))) [
        | inl f ↦ absurd (ground arith)
        | inr f ↦ elim (Bool-cases (is_turn_start (entry_at nodes entries n))) [
          | inl s ↦
              let same : n ≡ i = ground arith in
              record {
                before = omega arith;
                starts = subst (λ k. is_turn_start (entry_at nodes entries k) ≡ true) same s;
                inside = λ j lo hi. absurd (omega arith);
              }
          | inr s ↦
              let rest = open_turn_before_sound n i (ground arith) in
              record {
                before = omega (arith, rest.before);
                starts = rest.starts;
                inside = IsInside-suc n i (s, f) rest.inside;
              }
        ]
      ]

  start_not_finish : (e : Option Entry) → is_turn_start e ≡ true → is_turn_finish e ≡ false
  start_not_finish e h = ground arith

  pub open_turn_before_complete :
      (n i : ℕ) → IsOpenBefore nodes entries n i → open_turn_before nodes entries n ≡ some i
  unfolding open_turn_before
  open_turn_before_complete zero i h = absurd (omega (arith, h.before))
  open_turn_before_complete (suc n) i h = elim (Bool-cases (leb n i)) [
    | inl e ↦
        let same : i ≡ n = ground (arith, h.before) in
        let s : is_turn_start (entry_at nodes entries n) ≡ true =
          subst (λ k. is_turn_start (entry_at nodes entries k) ≡ true) same h.starts in
        rw (start_not_finish _ s) (rw s (ap some (sym same)))
    | inr e ↦
        let lt : i < n = ground arith in
        let last = h.inside n lt (omega arith) in
        rw last.1 (
          rw last.0 (
            open_turn_before_complete n i (record {
              before = lt;
              starts = h.starts;
              inside = λ j lo hi. h.inside j lo (omega arith);
            })))
  ]

  -- `open_turn_index` finds exactly the position of the last turn start with no bracket behind it.
  pub open_turn_index_iff :
      (i : ℕ)
      → (open_turn_index nodes entries ≡ some i) ↔ IsOpenBefore nodes entries (length nodes) i
  unfolding open_turn_index
  open_turn_index_iff i =
      (open_turn_before_sound (length nodes) i, open_turn_before_complete (length nodes) i)

-- A turn that has not been closed: a `TurnStart`, then no bracket.
abbrev pub IsTurn : Dict Entry → List String → Type 0
IsTurn entries [] = ⊥
IsTurn entries (start ∷ rest) =
    (is_turn_start (get entries start) ≡ true) × All (λ id. IsInside (get entries id)) rest

pub entry_at-append :
    (before turn : List String) (entries : Dict Entry) (k : ℕ)
    → entry_at (before ++ turn) entries (length before + k) ≡ entry_at turn entries k
unfolding entry_at
entry_at-append before turn entries k = rw (get_elem?-append_right before turn k, entry_at)

IsInside-entry_at :
    (entries : Dict Entry) (nodes : List String) (k : ℕ)
    → All (λ id. IsInside (get entries id)) nodes
    → IsInside (entry_at nodes entries k)
unfolding entry_at
IsInside-entry_at entries [] k h = (refl, refl)
IsInside-entry_at entries (id ∷ nodes) zero h = h.0
IsInside-entry_at entries (id ∷ nodes) (suc k) h = IsInside-entry_at entries nodes k h.1

entry_at-zero :
    (id : String) (nodes : List String) (entries : Dict Entry)
    → entry_at (id ∷ nodes) entries 0 ≡ get entries id
unfolding entry_at
entry_at-zero id nodes entries = refl

entry_at-suc :
    (id : String) (nodes : List String) (entries : Dict Entry) (k : ℕ)
    → entry_at (id ∷ nodes) entries (suc k) ≡ entry_at nodes entries k
unfolding entry_at
entry_at-suc id nodes entries k = refl

turn-IsOpenBefore :
    (before turn : List String) (entries : Dict Entry)
    → IsTurn entries turn
    → IsOpenBefore (before ++ turn) entries (length (before ++ turn)) (length before + 0)
turn-IsOpenBefore before [] entries h = absurd h
turn-IsOpenBefore before (start ∷ rest) entries h = record {
  before = omega (arith, length-append before (start ∷ rest));
  starts = rw (entry_at-append, entry_at-zero) h.0;
  inside = λ j lo hi.
      let e : j ≡ length before + suc (j - length before - 1) = omega arith in
      rw e (rw (entry_at-append, entry_at-suc) (IsInside-entry_at entries rest _ h.1));
}

pub open_turn_index-append :
    (before turn : List String) (entries : Dict Entry)
    → IsTurn entries turn
    → open_turn_index (before ++ turn) entries ≡ some (length before + 0)
open_turn_index-append before turn entries h =
    (open_turn_index_iff (before ++ turn) entries (length before + 0)).1
      (turn-IsOpenBefore before turn entries h)

pub open_turn_index_turn :
    (turn : List String) (entries : Dict Entry)
    → IsTurn entries turn
    → open_turn_index turn entries ≡ some 0
open_turn_index_turn turn entries h = open_turn_index-append [] turn entries h
