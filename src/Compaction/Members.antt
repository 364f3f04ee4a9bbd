-- ===== src/Compaction/Members.antt =====
-- Membership in a path, as the tests of agent/core/compaction.py make it and as a predicate.
use text.Mathlib.Text.{◌==◌}
use text.Mathlib.TextEquality.{eq_iff}
use luca_py.Base.{
  String, ◌≡◌, refl, subst, ◌⊎◌, inl, inr, true, false, List, [], ◌∷◌, ◌++◌, All, Bool-cases, arith,
}
use luca_py.Compaction.{is_member, same_path}

abbrev pub In : String → List String → Type 0
In id [] = ⊥
In id (x ∷ xs) = (x ≡ id) ⊎ In id xs

pub is_member-In : (id : String) (ids : List String) → is_member id ids ≡ true → In id ids
is_member-In id [] h = absurd (ground (arith, h))
is_member-In id (x ∷ xs) h = elim (Bool-cases (x == id)) [
  | inl e ↦ inl ((eq_iff x id).0 e)
  | inr e ↦ inr (is_member-In id xs (ground (arith, h)))
]

pub In-is_member : (id : String) (ids : List String) → In id ids → is_member id ids ≡ true
In-is_member id [] h = absurd h
In-is_member id (x ∷ xs) (inl e) = rw ((eq_iff x id).1 e) refl
In-is_member id (x ∷ xs) (inr h) = ground (arith, In-is_member id xs h)

pub not_member : (id : String) (ids : List String) → ¬ (In id ids) → is_member id ids ≡ false
not_member id ids h = elim (Bool-cases (is_member id ids)) [
  | inl e ↦ absurd (h (is_member-In id ids e))
  | inr e ↦ e
]

pub In-append : (id : String) (xs ys : List String) → In id (xs ++ ys) → In id xs ⊎ In id ys
In-append id [] ys h = inr h
In-append id (x ∷ xs) ys (inl e) = inl (inl e)
In-append id (x ∷ xs) ys (inr h) = elim (In-append id xs ys h) [
  | inl a ↦ inl (inr a)
  | inr b ↦ inr b
]

pub In-append_left : (id : String) (xs ys : List String) → In id xs → In id (xs ++ ys)
In-append_left id [] ys h = absurd h
In-append_left id (x ∷ xs) ys (inl e) = inl e
In-append_left id (x ∷ xs) ys (inr h) = inr (In-append_left id xs ys h)

pub In-append_right : (id : String) (xs ys : List String) → In id ys → In id (xs ++ ys)
In-append_right id [] ys h = h
In-append_right id (x ∷ xs) ys h = inr (In-append_right id xs ys h)

pub same_path-eq : (xs ys : List String) → same_path xs ys ≡ true → xs ≡ ys
same_path-eq [] [] h = refl
same_path-eq [] (y ∷ ys) h = absurd (ground (arith, h))
same_path-eq (x ∷ xs) [] h = absurd (ground (arith, h))
same_path-eq (x ∷ xs) (y ∷ ys) h = ground (arith, eq_iff x y, same_path-eq xs ys)

pub same_path_refl : (xs : List String) → same_path xs xs ≡ true
same_path_refl [] = refl
same_path_refl (x ∷ xs) = ground (arith, eq_iff x x, same_path_refl xs)

pub All-In : (P : String → Type 0) (xs : List String) (id : String) → All P xs → In id xs → P id
All-In P [] id h m = absurd m
All-In P (x ∷ xs) id h (inl e) = subst P e h.0
All-In P (x ∷ xs) id h (inr m) = All-In P xs id h.1 m

pub In-All : (P : String → Type 0) (xs : List String) → ((id : String) → In id xs → P id) → All P xs
In-All P [] h = tt
In-All P (x ∷ xs) h = (h x (inl refl), In-All P xs (λ id m. h id (inr m)))
