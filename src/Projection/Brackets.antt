-- ===== src/Projection/Brackets.antt =====
-- What a closed compaction bracket does to the messages that agent/core/projection.py makes.
use luca_py.Base.{
  ℕ, suc, ◌+◌, ◌<◌, String, ◌≡◌, refl, sym, ap, ◌∙◌, subst, ◌⊎◌, inl, inr, Bool, true, false, not,
  ◌&&◌, Option, none, some, List, [], ◌∷◌, ◌++◌, if◌then◌else◌, All, arith, length, leb, is_some,
  Bool-cases,
}
use luca_py.Base.Dict.{Dict, get}
use luca_py.Models.Entries.{Entry, is_turn_start, is_turn_finish, as_compaction}
use luca_py.Models.Path.{open_turn_index, is_compaction_bracket, entry_at}
use luca_py.Models.Path.OpenTurn.{IsTurn, IsInside, entry_at-append}
use luca_py.Models.Path.Brackets.{is_compaction_bracket-append_left}
use luca_py.Models.Status.Closing.{
  opens_compaction, bracket_at, opens_compaction-append, open_turn_index_closed,
}
use luca_py.Projection.{Message, ProjectionError, Texts}
use luca_py.Projection.Walk.{consed, project_node, project_from, project}

start_not_compaction :
    (e : Option Entry) → is_turn_start e ≡ true → is_some (as_compaction e) ≡ false
start_not_compaction e h = ground arith

start_not_finish : (e : Option Entry) → is_turn_start e ≡ true → is_turn_finish e ≡ false
start_not_finish e h = ground arith

abbrev pub Stored : Dict Entry → List String → Type 0
Stored entries nodes = All (λ id. is_some (get entries id) ≡ true) nodes

module _ (texts : Texts) (entries : Dict Entry) (nodes : List String) (open_turn : Option ℕ) where
  abbrev From : ℕ → Bool → List String → ProjectionError ⊎ List Message
  From = project_from texts nodes entries open_turn

  -- One round of the inner loop.
  skip_on :
      (index : ℕ) (id : String) (rest : List String)
      → is_some (get entries id) ≡ true
      → is_turn_finish (get entries id) ≡ false
      → From index true (id ∷ rest) ≡ From (suc index) true rest
  unfolding project_from
  skip_on index id rest there open_ = on (get entries id) there open_
    where
      on :
          (o : Option Entry)
          → is_some o ≡ true
          → is_turn_finish o ≡ false
          → elim o [
            | none ↦ inl ProjectionError.missing_node
            | some entry ↦ From (suc index) (not (is_turn_finish (some entry))) rest
          ]
            ≡ From (suc index) true rest
      on none h k = absurd (ground (arith, h))
      on (some entry) h k = ap (λ b. From (suc index) (not b) rest) k

  skip_end :
      (index : ℕ) (id : String)
      → is_turn_finish (get entries id) ≡ true
      → From index true (id ∷ []) ≡ inr []
  unfolding project_from
  skip_end index id closes = on (get entries id) closes
    where
      on :
          (o : Option Entry)
          → is_turn_finish o ≡ true
          → elim o [
            | none ↦ inl ProjectionError.missing_node
            | some entry ↦ From (suc index) (not (is_turn_finish (some entry))) []
          ]
            ≡ inr []
      on none k = absurd (ground (arith, k))
      on (some entry) k = ap (λ b. From (suc index) (not b) []) k

  skip_inside :
      (index : ℕ) (inside : List String) (finish : String)
      → All (λ id. IsInside (get entries id)) inside
      → Stored entries inside
      → is_turn_finish (get entries finish) ≡ true
      → From index true (inside ++ finish ∷ []) ≡ inr []
  skip_inside index [] finish h s f = skip_end index finish f
  skip_inside index (id ∷ inside) finish h s f =
      skip_on index id (inside ++ finish ∷ []) s.0 h.0.1
      ∙ skip_inside (suc index) inside finish h.1 s.1 f

  -- The outer loop enters a bracket.
  enters :
      (index : ℕ) (start : String) (rest : List String)
      → is_turn_start (get entries start) ≡ true
      → is_compaction_bracket nodes entries index ≡ true
      → From index false (start ∷ rest) ≡ From (suc index) true rest
  unfolding project_from
  enters index start rest starts bracket = on (get entries start) starts
    where
      on :
          (o : Option Entry)
          → is_turn_start o ≡ true
          → elim o [
            | none ↦ inl ProjectionError.missing_node
            | some entry ↦
                if is_turn_start (some entry) && is_compaction_bracket nodes entries index
                then From (suc index) true rest
                else consed
                    (project_node texts entries open_turn index entry)
                    (From (suc index) false rest)
          ]
            ≡ From (suc index) true rest
      on none k = absurd (ground (arith, k))
      on (some entry) k = rw (k, bracket) refl

  -- The bracket alone, whether or not another one is being skipped.
  bracket_alone :
      (index : ℕ) (skipping : Bool) (turn : List String) (finish : String)
      → IsTurn entries turn
      → Stored entries turn
      → is_turn_finish (get entries finish) ≡ true
      → is_compaction_bracket nodes entries index ≡ true
      → From index skipping (turn ++ finish ∷ []) ≡ inr []
  bracket_alone index skipping [] finish t s f b = absurd t
  bracket_alone index true (start ∷ inside) finish t s f b =
      skip_on index start (inside ++ finish ∷ []) s.0 (start_not_finish (get entries start) t.0)
      ∙ skip_inside (suc index) inside finish t.1 s.1 f
  bracket_alone index false (start ∷ inside) finish t s f b =
      enters index start (inside ++ finish ∷ []) t.0 b
      ∙ skip_inside (suc index) inside finish t.1 s.1 f

module _ (before turn : List String) (finish : String) (entries : Dict Entry) where
  abbrev closed : List String
  closed = turn ++ finish ∷ []

  entry_at_turn :
      IsTurn entries turn
      → is_turn_start (entry_at (before ++ closed) entries (length before + 0)) ≡ true
  entry_at_turn t = rw (entry_at-append before closed entries 0) (first_starts turn t)
    where
      first_starts :
          (turn : List String)
          → IsTurn entries turn
          → is_turn_start (entry_at (turn ++ finish ∷ []) entries 0) ≡ true
      first_starts [] t = absurd t
      first_starts (start ∷ rest) t = unfold entry_at in t.0

  -- In front of a turn a TurnStart opens a compaction bracket exactly when it did without the turn.
  same_brackets :
      IsTurn entries turn
      → (index : ℕ) → index < length before
      → is_compaction_bracket (before ++ closed) entries index
        ≡ is_compaction_bracket before entries index
  same_brackets t index lt = elim (Bool-cases (leb (length before) (index + 1))) [
    | inr inside ↦
        is_compaction_bracket-append_left before closed entries index (ground (arith, inside))
    | inl last ↦
        let e : index + 1 ≡ length before + 0 = ground (arith, last, lt) in
        let c : is_some (as_compaction (entry_at (before ++ closed) entries (index + 1))) ≡ false =
          subst (λ n. is_some (as_compaction (entry_at (before ++ closed) entries n)) ≡ false)
            (sym e) (start_not_compaction _ (entry_at_turn t)) in
        unfold is_compaction_bracket in ground (arith, last, c)
  ]

  module _ (texts : Texts) (t : IsTurn entries turn) (s : Stored entries turn)
      (f : is_turn_finish (get entries finish) ≡ true)
      (compacts : opens_compaction entries turn ≡ true) where
    abbrev With : ℕ → Bool → List String → ProjectionError ⊎ List Message
    With = project_from texts (before ++ closed) entries none

    abbrev Without : ℕ → Bool → List String → ProjectionError ⊎ List Message
    Without = project_from texts before entries none

    closed_projects_nothing : (skipping : Bool) → With (length before + 0) skipping closed ≡ inr []
    closed_projects_nothing skipping =
        bracket_alone texts entries (before ++ closed) none (length before + 0) skipping turn finish
          t s f
          (bracket_at before closed entries
            ∙ (opens_compaction-append turn finish entries t f ∙ compacts))

    walk :
        (index : ℕ) (skipping : Bool) (rest : List String)
        → index + length rest ≡ length before
        → With index skipping (rest ++ closed) ≡ Without index skipping rest
    unfolding project_from
    walk index skipping [] e =
        let at_end : index ≡ length before + 0 = omega (arith, e) in
        subst (λ i. With i skipping closed ≡ inr []) (sym at_end) (closed_projects_nothing skipping)
    walk index true (id ∷ rest) e =
        found (get entries id) (λ b. walk (suc index) b rest (omega (arith, e)))
      where
        found :
            (o : Option Entry)
            → ((b : Bool) → With (suc index) b (rest ++ closed) ≡ Without (suc index) b rest)
            → elim o [
              | none ↦ inl ProjectionError.missing_node
              | some entry ↦ With (suc index) (not (is_turn_finish (some entry))) (rest ++ closed)
            ]
              ≡ elim o [
                | none ↦ inl ProjectionError.missing_node
                | some entry ↦ Without (suc index) (not (is_turn_finish (some entry))) rest
              ]
        found none h = refl
        found (some entry) h = h (not (is_turn_finish (some entry)))
    walk index false (id ∷ rest) e =
        found (get entries id) (λ b. walk (suc index) b rest (omega (arith, e)))
          (same_brackets t index (omega (arith, e)))
      where
        found :
            (o : Option Entry)
            → ((b : Bool) → With (suc index) b (rest ++ closed) ≡ Without (suc index) b rest)
            → is_compaction_bracket (before ++ closed) entries index
              ≡ is_compaction_bracket before entries index
            → elim o [
              | none ↦ inl ProjectionError.missing_node
              | some entry ↦
                  if is_turn_start (some entry)
                    && is_compaction_bracket (before ++ closed) entries index
                  then With (suc index) true (rest ++ closed)
                  else consed
                      (project_node texts entries none index entry)
                      (With (suc index) false (rest ++ closed))
            ]
              ≡ elim o [
                | none ↦ inl ProjectionError.missing_node
                | some entry ↦
                    if is_turn_start (some entry) && is_compaction_bracket before entries index
                    then Without (suc index) true rest
                    else consed
                        (project_node texts entries none index entry)
                        (Without (suc index) false rest)
              ]
        found none h k = refl
        found (some entry) h k = rw (k, h true, h false) refl

    -- A closed compaction bracket behind a path with no open turn, whatever its outcome and whatever
    -- else it holds, leaves the messages of the path as they are: neither the summary nor a marker of
    -- a cancelled compaction reaches the model. Its nodes are in the store.
    pub closed_bracket_projects_nothing :
        open_turn_index before entries ≡ none
        → project texts (before ++ closed) entries ≡ project texts before entries
    unfolding project
    closed_bracket_projects_nothing closed_before =
        rw (open_turn_index_closed before turn finish entries t f, closed_before)
          (walk 0 false before (omega arith))
