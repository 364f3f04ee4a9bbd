-- ===== src/Base/Dict.antt =====
-- Python's `dict` with string keys, as an association list in insertion order: a write to a key
-- that is there keeps its place.
use Prim.Native.String.{String}
use mathlib.Core.Path.{◌≡◌, refl}
use mathlib.Core.Bool.{Bool}
use mathlib.Core.Option.{Option, none, some}
use mathlib.Core.List.{List, [], ◌∷◌, map}
use native.Mathlib.Omega.{arith}
use text.Mathlib.Text.{◌==◌}
use text.Mathlib.TextEquality.{eq_iff}
use text.Mathlib.TextPositions.{eq_refl}
use luca_py.Base.Tests.{if◌then◌else◌, is_some}

abbrev pub Dict {ℓ} : Type ℓ → Type ℓ
Dict V = List (String × V)

module _ {ℓ} {V : Type ℓ} where
  -- d.get(k)
  unfoldable pub get : Dict V → String → Option V
  get [] k = none
  get ((j, v) ∷ d) k = if j == k then some v else get d k

  -- d[k] = v
  unfoldable pub put : Dict V → String → V → Dict V
  put [] k v = (k, v) ∷ []
  put ((j, w) ∷ d) k v = if j == k then (k, v) ∷ d else (j, w) ∷ put d k v

  -- k in d
  abbrev pub contains : Dict V → String → Bool
  contains d k = is_some (get d k)

  -- d.setdefault(k, v): the stored value, and the dictionary after the call
  unfoldable pub set_default : Dict V → String → V → V × Dict V
  set_default d k v = elim (get d k) [ some w ↦ (w, d) | none ↦ (v, put d k v) ]

  -- d.values()
  unfoldable pub values : Dict V → List V
  values d = map (λ p. p.1) d

  pub get-put :
      (d : Dict V) (k j : String) (v : V) → get (put d k v) j ≡ (if k == j then some v else get d j)
  unfolding get put
  get-put [] k j v = refl
  get-put ((i, w) ∷ d) k j v = ground (arith, eq_iff k j, eq_iff i k, eq_iff i j, get-put d k j v)

  pub get-put_self : (d : Dict V) (k : String) (v : V) → get (put d k v) k ≡ some v
  get-put_self d k v = simp (get-put, eq_refl)

  pub get-set_default :
      (d : Dict V) (k j : String) (v : V)
      → get (set_default d k v).1 j ≡ (if k == j then some (set_default d k v).0 else get d j)
  unfolding set_default
  get-set_default d k j v = ground (arith, get-put d k j v, eq_iff k j)
