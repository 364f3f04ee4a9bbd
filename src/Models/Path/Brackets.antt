-- ===== src/Models/Path/Brackets.antt =====
-- The loop of `end_before_closed_compaction_brackets` (agent/core/models.py): its fuel is enough, it
-- stops only where no closed compaction bracket is left, and it reads only what stands in front.
use luca_py.Base.{
  ℕ, zero, suc, ◌+◌, ◌≤◌, ◌<◌, String, ◌≡◌, refl, none, some, List, ◌++◌, arith, Option-cases, inl,
  inr, length, get_elem?-append_left, length-append,
}
use luca_py.Base.Dict.{Dict}
use luca_py.Models.Entries.{Entry}
use luca_py.Models.Path.{
  entry_at, is_compaction_bracket, open_turn_before, closed_bracket_start, skip_brackets,
  end_before_closed_compaction_brackets,
}
use luca_py.Models.Path.OpenTurn.{open_turn_before_sound}

module _ (nodes : List String) (entries : Dict Entry) where
  pub closed_bracket_start_lt :
      (n start : ℕ) → closed_bracket_start nodes entries n ≡ some start → start + 1 < n
  unfolding closed_bracket_start
  closed_bracket_start_lt zero start h = absurd (ground arith)
  closed_bracket_start_lt (suc i) start h = elim (Option-cases (open_turn_before nodes entries i)) [
    | inl e ↦ absurd (ground arith)
    | inr (s, e) ↦ ground (arith, (open_turn_before_sound nodes entries i s e).before)
  ]

  -- Any fuel that reaches the end of the path gives the same answer.
  pub skip_brackets_fuel :
      (f g n : ℕ)
      → n ≤ f
      → n ≤ g
      → skip_brackets f nodes entries n ≡ skip_brackets g nodes entries n
  unfolding skip_brackets
  skip_brackets_fuel zero zero n hf hg = refl
  skip_brackets_fuel zero (suc g) zero hf hg = unfold closed_bracket_start in refl
  skip_brackets_fuel zero (suc g) (suc n) hf hg = absurd (omega arith)
  skip_brackets_fuel (suc f) zero zero hf hg = unfold closed_bracket_start in refl
  skip_brackets_fuel (suc f) zero (suc n) hf hg = absurd (omega arith)
  skip_brackets_fuel (suc f) (suc g) n hf hg =
      elim (Option-cases (closed_bracket_start nodes entries n)) [
        | inl e ↦ ground arith
        | inr (start, e) ↦
            let lt = closed_bracket_start_lt n start e in
            ground (arith, skip_brackets_fuel f g start (omega arith) (omega arith))
      ]

  skip_brackets_stops :
      (f n : ℕ)
      → n ≤ f
      → closed_bracket_start nodes entries (skip_brackets f nodes entries n) ≡ none
  unfolding skip_brackets
  skip_brackets_stops zero zero h = unfold closed_bracket_start in refl
  skip_brackets_stops zero (suc n) h = absurd (omega arith)
  skip_brackets_stops (suc f) n h = elim (Option-cases (closed_bracket_start nodes entries n)) [
    | inl e ↦ ground arith
    | inr (start, e) ↦
        let lt = closed_bracket_start_lt n start e in
        ground (arith, skip_brackets_stops f start (omega arith))
  ]

  pub skip_brackets_le : (f n : ℕ) → skip_brackets f nodes entries n ≤ n
  unfolding skip_brackets
  skip_brackets_le zero n = omega arith
  skip_brackets_le (suc f) n = elim (Option-cases (closed_bracket_start nodes entries n)) [
    | inl e ↦ ground arith
    | inr (start, e) ↦ ground (arith, closed_bracket_start_lt n start e, skip_brackets_le f start)
  ]

  -- What the skipping leaves does not end in a closed compaction bracket.
  pub end_before_closed_stops :
      closed_bracket_start nodes entries (end_before_closed_compaction_brackets nodes entries)
      ≡ none
  unfolding end_before_closed_compaction_brackets
  end_before_closed_stops = skip_brackets_stops (length nodes) (length nodes) (omega arith)

module _ (before rest : List String) (entries : Dict Entry) where
  pub entry_at-append_left :
      (i : ℕ) → i < length before → entry_at (before ++ rest) entries i ≡ entry_at before entries i
  unfolding entry_at
  entry_at-append_left i h = rw (get_elem?-append_left before rest i h, entry_at)

  pub open_turn_before-append_left :
      (n : ℕ)
      → n ≤ length before
      → open_turn_before (before ++ rest) entries n ≡ open_turn_before before entries n
  unfolding open_turn_before
  open_turn_before-append_left zero h = refl
  open_turn_before-append_left (suc i) h =
      ground
        (arith, entry_at-append_left i (omega arith), open_turn_before-append_left i (omega arith))

  pub is_compaction_bracket-append_left :
      (i : ℕ)
      → i + 1 < length before
      → is_compaction_bracket (before ++ rest) entries i ≡ is_compaction_bracket before entries i
  unfolding is_compaction_bracket
  is_compaction_bracket-append_left i h =
      ground (arith, entry_at-append_left (i + 1) h, length-append before rest)

  closed_bracket_start-append_left :
      (n : ℕ)
      → n ≤ length before
      → closed_bracket_start (before ++ rest) entries n ≡ closed_bracket_start before entries n
  unfolding closed_bracket_start
  closed_bracket_start-append_left zero h = refl
  closed_bracket_start-append_left (suc i) h =
      elim (Option-cases (open_turn_before before entries i)) [
        | inl e ↦ ground (
          arith,
          entry_at-append_left i (omega arith),
          open_turn_before-append_left i (omega arith),
        )
        | inr (start, e) ↦
            let lt = (open_turn_before_sound before entries i start e).before in
            ground (
              arith,
              entry_at-append_left i (omega arith),
              open_turn_before-append_left i (omega arith),
              is_compaction_bracket-append_left start (omega arith),
            )
      ]

  pub skip_brackets-append_left :
      (f n : ℕ)
      → n ≤ length before
      → skip_brackets f (before ++ rest) entries n ≡ skip_brackets f before entries n
  unfolding skip_brackets
  skip_brackets-append_left zero n h = refl
  skip_brackets-append_left (suc f) n h =
      elim (Option-cases (closed_bracket_start before entries n)) [
        | inl e ↦ ground (arith, closed_bracket_start-append_left n h)
        | inr (start, e) ↦
            let lt = closed_bracket_start_lt before entries n start e in
            ground (
              arith,
              closed_bracket_start-append_left n h,
              skip_brackets-append_left f start (omega arith),
            )
      ]
