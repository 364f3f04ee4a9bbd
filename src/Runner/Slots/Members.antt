-- ===== src/Runner/Slots/Members.antt =====
-- The sets of the worker pool (agent/core/runner.py) as lists: their length and their members.
use luca_py.Base.{
  suc, ◌≤◌, String, ◌≡◌, refl, ap, subst, inl, inr, List, [], ◌∷◌, ◌++◌, length, length-append, All,
  arith, Bool-cases, if-P,
}
use text.Mathlib.Text.{◌==◌}
use text.Mathlib.TextEquality.{eq_iff}
use luca_py.Runner.Slots.{is_member, add_member, discard}

pub length-add_member : (x : String) (xs : List String) → length (add_member x xs) ≤ suc (length xs)
unfolding add_member
length-add_member x xs =
    let longer : length (xs ++ (x ∷ [])) ≤ suc (length xs) =
      omega (arith, length-append xs (x ∷ [])) in
    let same : length xs ≤ suc (length xs) = omega arith in
    if-P (λ (ys : List String). length ys ≤ suc (length xs)) (is_member x xs) same longer

pub length-discard : (x : String) (xs : List String) → length (discard x xs) ≤ length xs
unfolding discard
length-discard x [] = omega arith
length-discard x (y ∷ ys) = ground (arith, length-discard x ys)

module _ (P : String → Type 0) where
  pub All-add_member : (x : String) (xs : List String) → P x → All P xs → All P (add_member x xs)
  unfolding add_member
  All-add_member x xs p h = if-P (All P) (is_member x xs) h (at_end xs h)
    where
      at_end : (ys : List String) → All P ys → All P (ys ++ (x ∷ []))
      at_end [] k = (p, tt)
      at_end (y ∷ ys) k = (k.0, at_end ys k.1)

  pub All-discard : (x : String) (xs : List String) → All P xs → All P (discard x xs)
  unfolding discard
  All-discard x [] h = tt
  All-discard x (y ∷ ys) h =
      if-P (All P) (y == x) (All-discard x ys h.1) (h.0, All-discard x ys h.1)

module _ (P : String → Type 0) where
  -- Nothing is discarded where no member has what the discarded one lacks.
  pub discard-absent : (x : String) (xs : List String) → All P xs → (P x → ⊥) → discard x xs ≡ xs
  unfolding discard
  discard-absent x [] h lacks = refl
  discard-absent x (y ∷ ys) h lacks = elim (Bool-cases (y == x)) [
    | inl e ↦ absurd (lacks (subst P ((eq_iff y x).0 e) h.0))
    | inr e ↦ rw e (ap (λ t. y ∷ t) (discard-absent x ys h.1 lacks))
  ]
