-- ===== src/Client/OpenAi/CallLaws.antt =====
-- A law of the streamer's steps, carried through the handlers of tool-call fragments in
-- client/transports/openai/streamer.py.
use luca_py.Base.{
  ℕ, String, ◌≡◌, refl, All, inl, inr, Option, none, some, List, [], ◌∷◌, Bool-cases, arith, subst,
  ◌==◌, length,
}
use mathlib.Core.Option.{some-injective}
use luca_py.Client.OpenAi.{
  Fragment, Pending, Own, Event, Chat, ◌⨾◌, set_own, for_each, lookup, filled,
}
use luca_py.Client.OpenAi.Handlers.{
  pending_of, note_fragment, add_arguments, add_some_arguments, open_call, buffer, open_or_buffer,
  fragment_arguments, tool_fragment, handle_tool_fragment, start_call,
}
use luca_py.Client.OpenAi.Laws.{IsLaw, Modest, Gives, Holds, then_at, both, nothing-Holds}

module _ (R : Chat → List Event → Chat → Type 0) (F : Chat → Chat → Type 0) (I : Chat → Type 0)
    (P : ℕ → Chat → Type 0) (law : IsLaw R F I P) where
  add_some_arguments-Gives :
      (n : ℕ) (t : Option String) (s : Chat)
      → P n s
      → I s
      → Gives R F I P s (add_some_arguments n t s)
  add_some_arguments-Gives n none s p i = nothing-Holds R F I P law s i
  add_some_arguments-Gives n (some t) s p i = law.added n t s p i

  buffer-Holds : (k : ℕ) (p : Pending) (t : Option String) → Holds R F I P (buffer k p t)
  buffer-Holds k p none = nothing-Holds R F I P law
  buffer-Holds k p (some t) = law.noted _ (λ own. refl)

  pieces-Gives :
      (n : ℕ) (xs : List String) (s : Chat)
      → P n s
      → I s
      → Gives R F I P s (for_each (add_arguments n) xs s)
  unfolding for_each
  pieces-Gives n [] s p i = nothing-Holds R F I P law s i
  pieces-Gives n (x ∷ xs) s p i =
      let t = (add_arguments n x s).1 in
      then_at R F I P law (add_arguments n x) (for_each (add_arguments n) xs) s
        (law.added n x s p i)
        (λ es r. pieces-Gives n xs t (law.kept s t es n r p) (law.onward s t es i r))

  filled_call-Gives :
      (n : ℕ) (f : Own → Own) (xs : List String) (args : Option String) (s : Chat)
      → Modest f
      → P n s
      → I s
      → Gives R F I P s ((for_each (add_arguments n) xs ⨾ set_own f ⨾ add_some_arguments n args) s)
  filled_call-Gives n f xs args s modest p i =
      let pieces = for_each (add_arguments n) xs in
      let t = (pieces s).1 in
      let u = (set_own f t).1 in
      then_at R F I P law pieces (set_own f ⨾ add_some_arguments n args) s (pieces-Gives n xs s p i)
        (λ es r.
          let it = law.onward s t es i r in
          then_at R F I P law (set_own f) (add_some_arguments n args) t (law.noted f modest t it)
            (λ fs r'.
              add_some_arguments-Gives n args u (law.kept t u fs n r' (law.kept s t es n r p))
                (law.onward t u fs it r')))

  open_call-Gives :
      (k : ℕ) (p : Pending) (id name : String) (args : Option String) (s : Chat)
      → I s
      → Gives R F I P s (open_call k p id name args s.message.content s)
  unfolding open_call
  open_call-Gives k p id name args s i =
      let n = length s.message.content in
      let t = (start_call k id name s.message.content s).1 in
      then_at R F I P law (start_call k id name s.message.content) _ s (law.started k id name s i)
        (λ es r.
          filled_call-Gives n _ p.buffered_args args t (λ own. refl) (law.born k id name s)
            (law.onward s t es i r))

  open_or_buffer-Gives :
      (k : ℕ) (p : Pending) (id name args : Option String) (s : Chat)
      → I s
      → Gives R F I P s (open_or_buffer k p id name args s.message.content s)
  open_or_buffer-Gives k p (some id) (some name) args s i = open_call-Gives k p id name args s i
  open_or_buffer-Gives k p (some id) none args s i = buffer-Holds k p args s i
  open_or_buffer-Gives k p none name args s i = buffer-Holds k p args s i

  All-lookup :
      (Q : ℕ → Type 0) (k n : ℕ) (xs : List (ℕ × ℕ))
      → All (λ p. Q p.1) xs
      → lookup k xs ≡ some n
      → Q n
  All-lookup Q k n [] h e = absurd (ground (arith, e))
  All-lookup Q k n ((j, m) ∷ xs) h e = elim (Bool-cases (j == k)) [
    | inl same ↦ subst Q (some-injective m n (rw same at e)) h.0
    | inr other ↦ All-lookup Q k n xs h.1 (rw other at e)
  ]

  fragment_arguments-Gives :
      (k : ℕ) (args o : Option _) (s : Chat)
      → lookup k s.own.tool_indices ≡ o
      → I s
      → Gives R F I P s (fragment_arguments k args o s)
  fragment_arguments-Gives k args (some n) s e i =
      add_some_arguments-Gives n args s
        (All-lookup (λ n. P n s) k n s.own.tool_indices (law.listed s i) e) i
  fragment_arguments-Gives k args none s e i =
      open_or_buffer-Gives k (pending_of k s.own) _ _ args s i

  tool_fragment-Holds :
      (fragment : Fragment) (k : Option ℕ) → Holds R F I P (tool_fragment fragment k)
  unfolding note_fragment
  tool_fragment-Holds fragment none = nothing-Holds R F I P law
  tool_fragment-Holds fragment (some k) =
      both R F I P law (set_own (note_fragment k fragment)) _ (law.noted _ (λ own. refl)) (λ s.
        fragment_arguments-Gives k (filled fragment.arguments) (lookup k s.own.tool_indices) s refl)

  pub handle_tool_fragment-Holds :
      (fragment : Fragment) → Holds R F I P (handle_tool_fragment fragment)
  unfolding handle_tool_fragment
  handle_tool_fragment-Holds fragment = tool_fragment-Holds fragment fragment.index
