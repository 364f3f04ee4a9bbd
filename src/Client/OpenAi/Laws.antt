-- ===== src/Client/OpenAi/Laws.antt =====
-- A relation between a streamer, the events of an operation and the streamer after it, carried
-- through the handlers of client/transports/openai/streamer.py from the steps that they are made of.
use luca_py.Base.{
  ℕ, String, ◌≡◌, refl, All, inl, inr, Option, none, some, List, [], ◌∷◌, ◌++◌, length,
}
use luca_py.Client.Blocks.{Usage, Kind, ToolCall, end_of}
use luca_py.Client.OpenAi.{
  Own, Event, Chat, Handled, Op, after, prepend, ◌⨾◌, nothing, tell, raises, set_own, for_each,
}
use luca_py.Client.OpenAi.Handlers.{
  index_of, open_block, extend_block, handle_delta, handle_some, add_arguments, set_index, announce,
  set_stop_reason, start_call, count_usage, complete_call,
}

-- A change of the pending fragments alone.
abbrev pub Modest : (Own → Own) → Type 0
Modest f = (own : Own) → f own ≡ record own { tool_pending = (f own).tool_pending }

-- For a relation that asks nothing of the state.
abbrev pub Anywhere : Chat → Type 0
Anywhere s = Unit {0}

abbrev pub Whatever : ℕ → Chat → Type 0
Whatever i s = Unit {0}

pub whatever : (s : Chat) (xs : List (ℕ × ℕ)) → All (λ p. Whatever p.1 s) xs
whatever s [] = tt
whatever s (x ∷ xs) = (tt, whatever s xs)

-- `R` where an operation returns and `F` where it raises, from a state with `I`; `P` is what is known
-- of the index of an open tool call.
module _ (R : Chat → List Event → Chat → Type 0) (F : Chat → Chat → Type 0) (I : Chat → Type 0)
    (P : ℕ → Chat → Type 0) where
  abbrev pub Gives : Chat → Handled → Type 0
  Gives s (inl text, s') = F s s'
  Gives s (inr events, s') = R s events s'

  abbrev pub Holds : Op → Type 0
  Holds f = (s : Chat) → I s → Gives s (f s)

  pub record IsLaw : Type 0 where
    pub onward : (s t : Chat) (es : List Event) → I s → R s es t → I t
    pub kept : (s t : Chat) (es : List Event) (i : ℕ) → R s es t → P i s → P i t
    pub listed : (s : Chat) → I s → All (λ p. P p.1 s) s.own.tool_indices
    pub still : (s : Chat) → I s → R s [] s
    pub joined : (s t u : Chat) (es fs : List Event) → R s es t → R t fs u → R s (es ++ fs) u
    pub failed : (s t u : Chat) (es : List Event) → R s es t → F t u → F s u
    pub raised : (text : String) → Holds (raises text)
    pub noted : (f : Own → Own) → Modest f → Holds (set_own f)
    pub forgot : (kind : Kind) → Holds (set_own (set_index kind none))
    pub cleared : Holds (set_own (λ own. record own { tool_indices = []; tool_pending = [] }))
    pub reasoned : (reason : String) → Holds (set_stop_reason reason)
    pub announced : Holds announce
    pub counted : (u : Usage) → Holds (count_usage u)
    pub opened :
        (kind : Kind) (s : Chat)
        → index_of kind s.own ≡ none
        → I s
        → Gives s (open_block kind none s.message.content s)
    pub extended :
        (kind : Kind) (t : String) (i : ℕ) (s : Chat)
        → index_of kind s.own ≡ some i
        → I s
        → Gives s (extend_block kind t (some i) s)
    pub ended :
        (kind : Kind) (i : ℕ) (t : String) (s : Chat)
        → index_of kind s.own ≡ some i
        → I s
        → Gives s (tell (end_of kind i t) s)
    pub started :
        (k : ℕ) (id name : String) (s : Chat)
        → I s
        → Gives s (start_call k id name s.message.content s)
    pub born :
        (k : ℕ) (id name : String) (s : Chat)
        → P (length s.message.content) (start_call k id name s.message.content s).1
    pub added : (i : ℕ) (t : String) (s : Chat) → P i s → I s → Gives s (add_arguments i t s)
    pub completed :
        (i : ℕ) (call : ToolCall) (s : Chat) → P i s → I s → Gives s (complete_call i call s)

  module _ (law : IsLaw) where
    -- What follows an operation that has returned may use what that has left.
    pub Gives-after :
        (s : Chat) (out : Handled) (g : Op)
        → Gives s out
        → ((es : List Event) → R s es out.1 → Gives out.1 (g out.1))
        → Gives s (after out g)
    Gives-after s (inl text, t) g h k = h
    Gives-after s (inr es, t) g h k = joins (g t) (k es h)
      where
        joins : (out : Handled) → Gives t out → Gives s (prepend es out)
        joins (inl text, u) k' = law.failed s t u es h k'
        joins (inr fs, u) k' = law.joined s t u es fs h k'

    pub then_at :
        (f g : Op) (s : Chat)
        → Gives s (f s)
        → ((es : List Event) → R s es (f s).1 → Gives (f s).1 (g (f s).1))
        → Gives s ((f ⨾ g) s)
    unfolding ◌⨾◌
    then_at f g s h k = Gives-after s (f s) g h k

    pub next : (f g : Op) (s : Chat) → I s → Gives s (f s) → Holds g → Gives s ((f ⨾ g) s)
    next f g s i h k = then_at f g s h (λ es r. k (f s).1 (law.onward s (f s).1 es i r))

    pub both : (f g : Op) → Holds f → Holds g → Holds (f ⨾ g)
    both f g h k s i = next f g s i (h s i) k

    pub nothing-Holds : Holds nothing
    unfolding nothing
    nothing-Holds s i = law.still s i

    pub for_each-Holds {ℓ} :
        {A : Type ℓ} (f : A → Op) → ((x : A) → Holds (f x)) → (xs : List A) → Holds (for_each f xs)
    unfolding for_each
    for_each-Holds f h [] = nothing-Holds
    for_each-Holds f h (x ∷ xs) = both (f x) (for_each f xs) (h x) (for_each-Holds f h xs)

    pub open_block-Gives :
        (kind : Kind) (o : Option ℕ) (s : Chat)
        → index_of kind s.own ≡ o
        → I s
        → Gives s (open_block kind o s.message.content s)
    open_block-Gives kind none s e i = law.opened kind s e i
    open_block-Gives kind (some n) s e i = nothing-Holds s i

    pub extend_block-Gives :
        (kind : Kind) (t : String) (o : Option ℕ) (s : Chat)
        → index_of kind s.own ≡ o
        → I s
        → Gives s (extend_block kind t o s)
    extend_block-Gives kind t none s e i = nothing-Holds s i
    extend_block-Gives kind t (some n) s e i = law.extended kind t n s e i

    pub handle_delta-Holds : (kind : Kind) (t : String) → Holds (handle_delta kind t)
    unfolding handle_delta
    handle_delta-Holds kind t =
        both (λ s. open_block kind (index_of kind s.own) s.message.content s)
          (λ s. extend_block kind t (index_of kind s.own) s)
          (λ s. open_block-Gives kind (index_of kind s.own) s refl)
          (λ s. extend_block-Gives kind t (index_of kind s.own) s refl)

    pub handle_some-Holds :
        (f : String → Op)
        → ((t : String) → Holds (f t))
        → (t : Option String) → Holds (handle_some f t)
    handle_some-Holds f h none = nothing-Holds
    handle_some-Holds f h (some t) = h t
