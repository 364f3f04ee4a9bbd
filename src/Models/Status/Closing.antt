-- ===== src/Models/Status/Closing.antt =====
-- What a `TurnFinish` at the leaf does to the derived status (agent/core/models.py).
use luca_py.Base.{
  ℕ, zero, suc, ◌+◌, ◌≤◌, String, ◌≡◌, refl, sym, ap, ◌∙◌, Bool, true, false, Option, none, some,
  List, [], ◌∷◌, ◌++◌, arith, length, is_some, if◌then◌else◌, length-append, subst,
}
use mathlib.Core.List.{append_assoc}
use luca_py.Base.Dict.{Dict, get}
use luca_py.Models.Entries.{Entry, is_turn_finish, as_compaction, is_user}
use luca_py.Models.Path.{
  entry_at, is_compaction_bracket, open_turn_index, open_turn_before, closed_bracket_start,
  skip_brackets, end_before_closed_compaction_brackets,
}
use luca_py.Models.Path.OpenTurn.{IsTurn, entry_at-append, open_turn_index-append}
use luca_py.Models.Path.Brackets.{
  skip_brackets_le, skip_brackets_fuel, entry_at-append_left, open_turn_before-append_left,
  skip_brackets-append_left,
}
use luca_py.Models.Session.{AgentSession}
use luca_py.Models.Status.{idle, closed_status, leaf_status, derive_step, derive_status}

-- Whether the entry behind the `TurnStart` of a turn is a `CompactionEntry`.
abbrev pub opens_compaction : Dict Entry → List String → Bool
opens_compaction entries [] = false
opens_compaction entries (start ∷ []) = false
opens_compaction entries (start ∷ next ∷ rest) = is_some (as_compaction (get entries next))

pub last_at :
    (xs : List String) (x : String) (entries : Dict Entry)
    → entry_at (xs ++ x ∷ []) entries (length xs) ≡ get entries x
unfolding entry_at
last_at xs x entries =
    let e : length xs + 0 ≡ length xs = omega arith in
    subst (λ n. entry_at (xs ++ x ∷ []) entries n ≡ get entries x) e
      (entry_at-append xs (x ∷ []) entries 0)

pub next_at :
    (before rest : List String) (start next : String) (entries : Dict Entry)
    → entry_at (before ++ start ∷ next ∷ rest) entries (length before + 0 + 1) ≡ get entries next
unfolding entry_at
next_at before rest start next entries =
    let e : length before + 1 ≡ length before + 0 + 1 = omega arith in
    subst (λ n. entry_at (before ++ start ∷ next ∷ rest) entries n ≡ get entries next) e
      (entry_at-append before (start ∷ next ∷ rest) entries 1)

pub bracket_at :
    (before turn : List String) (entries : Dict Entry)
    → is_compaction_bracket (before ++ turn) entries (length before + 0)
      ≡ opens_compaction entries turn
unfolding is_compaction_bracket
bracket_at before [] entries = ground (arith, length-append before [])
bracket_at before (start ∷ []) entries = ground (arith, length-append before (start ∷ []))
bracket_at before (start ∷ next ∷ rest) entries =
    ground
      (arith, length-append before (start ∷ next ∷ rest), next_at before rest start next entries)

finish_not_compaction :
    (e : Option Entry) → is_turn_finish e ≡ true → is_some (as_compaction e) ≡ false
finish_not_compaction e h = ground arith

finish_not_user : (e : Option Entry) → is_turn_finish e ≡ true → is_user e ≡ false
finish_not_user e h = ground arith

pub opens_compaction-append :
    (turn : List String) (finish : String) (entries : Dict Entry)
    → IsTurn entries turn
    → is_turn_finish (get entries finish) ≡ true
    → opens_compaction entries (turn ++ finish ∷ []) ≡ opens_compaction entries turn
opens_compaction-append [] finish entries h f = absurd h
opens_compaction-append (start ∷ []) finish entries h f = finish_not_compaction _ f
opens_compaction-append (start ∷ next ∷ rest) finish entries h f = refl

module _ (before turn : List String) (finish : String) (entries : Dict Entry)
    (h : IsTurn entries turn) (f : is_turn_finish (get entries finish) ≡ true) where
  split_finish : before ++ (turn ++ finish ∷ []) ≡ (before ++ turn) ++ finish ∷ []
  split_finish = sym (append_assoc before turn (finish ∷ []))

  length-closed : length (before ++ (turn ++ finish ∷ [])) ≡ suc (length (before ++ turn))
  length-closed = omega (
    arith,
    length-append before turn,
    length-append before (turn ++ finish ∷ []),
    length-append turn (finish ∷ []),
  )

  entry_at_finish :
      entry_at (before ++ (turn ++ finish ∷ [])) entries (length (before ++ turn))
      ≡ get entries finish
  entry_at_finish = rw split_finish (last_at (before ++ turn) finish entries)

  open_turn_before_closed :
      open_turn_before (before ++ (turn ++ finish ∷ [])) entries (length (before ++ turn))
      ≡ some (length before + 0)
  open_turn_before_closed =
      subst
        (λ nodes.
          open_turn_before nodes entries (length (before ++ turn)) ≡ some (length before + 0))
        (sym split_finish)
        (open_turn_before-append_left (before ++ turn) (finish ∷ []) entries
            (length (before ++ turn)) (omega arith)
          ∙ unfold open_turn_index in open_turn_index-append before turn entries h)

  pub open_turn_index_closed : open_turn_index (before ++ (turn ++ finish ∷ [])) entries ≡ none
  unfolding open_turn_index open_turn_before
  open_turn_index_closed = rw length-closed (rw (entry_at_finish, open_turn_before) (rw f))

  closed_bracket_start_closed :
      closed_bracket_start (before ++ (turn ++ finish ∷ [])) entries (suc (length (before ++ turn)))
      ≡ (if opens_compaction entries turn then some (length before + 0) else none)
  unfolding closed_bracket_start
  closed_bracket_start_closed = ground (
    arith,
    f,
    entry_at_finish,
    open_turn_before_closed,
    bracket_at before (turn ++ finish ∷ []) entries,
    opens_compaction-append turn finish entries h f,
  )

  -- A closed conversational turn at the leaf leaves the path as it is.
  end_closed_conversational :
      opens_compaction entries turn ≡ false
      → end_before_closed_compaction_brackets (before ++ (turn ++ finish ∷ [])) entries
        ≡ suc (length (before ++ turn))
  unfolding end_before_closed_compaction_brackets skip_brackets
  end_closed_conversational c = rw length-closed (ground (arith, closed_bracket_start_closed))

  closed_status_conversational :
      opens_compaction entries turn ≡ false
      → closed_status entries (before ++ (turn ++ finish ∷ [])) ≡ idle
  unfolding closed_status
  closed_status_conversational c =
      rw (end_closed_conversational c) (rw entry_at_finish (rw (finish_not_user _ f)))

  -- A closed compaction bracket at the leaf is skipped.
  end_closed_compaction :
      opens_compaction entries turn ≡ true
      → end_before_closed_compaction_brackets (before ++ (turn ++ finish ∷ [])) entries
        ≡ end_before_closed_compaction_brackets before entries
  unfolding end_before_closed_compaction_brackets skip_brackets
  end_closed_compaction c =
      let e : length before + 0 ≡ length before = omega arith in
      let le : length before ≤ length (before ++ turn) = omega (arith, length-append before turn) in
      rw length-closed (
        rw (closed_bracket_start_closed, skip_brackets)
          (rw c (
            rw e (
              skip_brackets-append_left before (turn ++ finish ∷ []) entries
                (length (before ++ turn)) (length before) (omega arith)
              ∙ skip_brackets_fuel before entries (length (before ++ turn)) (length before)
                  (length before) le (omega arith)))))

leaf_status-append_left :
    (before rest : List String) (entries : Dict Entry) (n : ℕ)
    → n ≤ length before
    → leaf_status (before ++ rest) entries n ≡ leaf_status before entries n
leaf_status-append_left before rest entries zero h = refl
leaf_status-append_left before rest entries (suc n) h =
    rw (entry_at-append_left before rest entries n h)

module _ (before turn : List String) (finish : String) (session : AgentSession)
    (h : IsTurn session.entries turn) (f : is_turn_finish (get session.entries finish) ≡ true) where
  closed_status_compaction :
      opens_compaction session.entries turn ≡ true
      → closed_status session.entries (before ++ (turn ++ finish ∷ []))
        ≡ closed_status session.entries before
  unfolding closed_status end_before_closed_compaction_brackets
  closed_status_compaction c =
      rw
        (
          end_closed_compaction before turn finish session.entries h f c,
          end_before_closed_compaction_brackets,
        )
        (leaf_status-append_left before (turn ++ finish ∷ []) session.entries
          (end_before_closed_compaction_brackets before session.entries)
          (skip_brackets_le before session.entries (length before) (length before)))

  -- A conversational turn that ends with a `TurnFinish` leaves the conversation idle, whatever the
  -- outcome and whatever stands before it.
  closed_turn_is_idle :
      (fuel : ℕ)
      → opens_compaction session.entries turn ≡ false
      → derive_status (suc fuel) session (before ++ (turn ++ finish ∷ [])) ≡ some idle
  unfolding derive_status derive_step
  closed_turn_is_idle fuel c =
      rw (open_turn_index_closed before turn finish session.entries h f, derive_step)
        (ap some (closed_status_conversational before turn finish session.entries h f c))

  -- A closed compaction bracket at the leaf of a path with no open turn does not change its status.
  pub closed_compaction_transparent :
      (fuel : ℕ)
      → opens_compaction session.entries turn ≡ true
      → open_turn_index before session.entries ≡ none
      → derive_status (suc fuel) session (before ++ (turn ++ finish ∷ []))
        ≡ derive_status (suc fuel) session before
  unfolding derive_status derive_step
  closed_compaction_transparent fuel c none_open =
      rw (open_turn_index_closed before turn finish session.entries h f, none_open, derive_step)
        (ap some (closed_status_compaction c))
