-- ===== src/Client/OpenAi/ChunkLaws.antt =====
-- A law of the streamer's steps, carried through the closing of blocks and the chunk handler of
-- client/transports/openai/streamer.py.
use luca_py.Base.{
  ℕ, String, ◌≡◌, refl, All, Option, none, some, List, [], ◌∷◌, if-P, All-map, get_elem?, any, not,
}
use luca_py.Models.Json.{Json}
use luca_py.Client.Blocks.{Kind, ToolCall, end_of, text_of, call_of}
use luca_py.Client.OpenAi.{
  Choice, RawUsage, Chunk, Own, Texts, Content, Event, Chat, tell, for_each, filled,
}
use luca_py.Client.OpenAi.Handlers.{
  index_of, handle_text_delta, handle_reasoning_delta, handle_refusal_delta, handle_tool_fragment,
  end_text, no_block, end_block, close_block, check_resolved, is_open, end_call, end_call_at,
  close_call, parsed_arguments, close_open_blocks, handle_usage, finish_choice, or_else,
  handle_choices, announce, set_stop_reason, counts,
}
use luca_py.Client.OpenAi.WireClass.{handle_open}
use luca_py.Client.OpenAi.Laws.{
  IsLaw, Gives, Holds, then_at, next, both, nothing-Holds, for_each-Holds, handle_delta-Holds,
  handle_some-Holds,
}
use luca_py.Client.OpenAi.CallLaws.{handle_tool_fragment-Holds}

module _ (R : Chat → List Event → Chat → Type 0) (F : Chat → Chat → Type 0) (I : Chat → Type 0)
    (P : ℕ → Chat → Type 0) (law : IsLaw R F I P) where
  end_text-Gives :
      (kind : Kind) (n : ℕ) (t : Option String) (s : Chat)
      → index_of kind s.own ≡ some n
      → I s
      → Gives R F I P s (end_text kind n t s)
  end_text-Gives kind n none s e i = law.raised no_block s i
  end_text-Gives kind n (some t) s e i =
      next R F I P law (tell (end_of kind n t)) _ s i (law.ended kind n t s e i) (law.forgot kind)

  end_block-Gives :
      (kind : Kind) (o : Option ℕ) (content : Content) (s : Chat)
      → index_of kind s.own ≡ o
      → I s
      → Gives R F I P s (end_block kind o content s)
  end_block-Gives kind none content s e i = nothing-Holds R F I P law s i
  end_block-Gives kind (some n) content s e i =
      end_text-Gives kind n (text_of (get_elem? content n)) s e i

  close_block-Holds : (kind : Kind) → Holds R F I P (close_block kind)
  unfolding close_block
  close_block-Holds kind s = end_block-Gives kind (index_of kind s.own) s.message.content s refl

  check_resolved-Holds : (own : Own) → Holds R F I P (check_resolved own)
  check_resolved-Holds own =
      if-P (Holds R F I P) (any (λ p. not (is_open own p)) own.tool_pending) (law.raised _)
        (nothing-Holds R F I P law)

  module _ (texts : Texts) where
    end_call-Gives :
        (n : ℕ) (call : ToolCall) (arguments : Option Json) (s : Chat)
        → P n s
        → I s
        → Gives R F I P s (end_call texts n call arguments s)
    end_call-Gives n call none s p i = law.raised _ s i
    end_call-Gives n call (some arguments) s p i = law.completed n _ s p i

    end_call_at-Gives :
        (n : ℕ) (call : Option ToolCall) (s : Chat)
        → P n s
        → I s
        → Gives R F I P s (end_call_at texts n call s)
    end_call_at-Gives n none s p i = law.raised no_block s i
    end_call_at-Gives n (some call) s p i =
        end_call-Gives n call (parsed_arguments texts call.partial_arguments) s p i

    close_call-Gives :
        (p : ℕ × ℕ) (s : Chat) → P p.1 s → I s → Gives R F I P s (close_call texts p s)
    unfolding close_call
    close_call-Gives (k, n) s p i =
        end_call_at-Gives n (call_of (get_elem? s.message.content n)) s p i

    All-kept :
        (s t : Chat) (es : List Event) (xs : List (ℕ × ℕ))
        → R s es t
        → All (λ p. P p.1 s) xs
        → All (λ p. P p.1 t) xs
    All-kept s t es xs r h = All-map _ _ xs (λ p. law.kept s t es p.1 r) h

    close_calls-Gives :
        (xs : List (ℕ × ℕ)) (s : Chat)
        → All (λ p. P p.1 s) xs
        → I s
        → Gives R F I P s (for_each (close_call texts) xs s)
    unfolding for_each
    close_calls-Gives [] s h i = nothing-Holds R F I P law s i
    close_calls-Gives (x ∷ xs) s h i =
        let t = (close_call texts x s).1 in
        then_at R F I P law (close_call texts x) (for_each (close_call texts) xs) s
          (close_call-Gives x s h.0 i)
          (λ es r. close_calls-Gives xs t (All-kept s t es xs r h.1) (law.onward s t es i r))

    close_open_blocks-Holds : Holds R F I P (close_open_blocks texts)
    unfolding close_open_blocks
    close_open_blocks-Holds =
        both R F I P law (λ s. check_resolved s.own s) _ (λ s. check_resolved-Holds s.own s)
          (both R F I P law (close_block Kind.thinking) _ (close_block-Holds Kind.thinking) (
            both R F I P law (close_block Kind.text) _ (close_block-Holds Kind.text) (
              both R F I P law (close_block Kind.refusal) _ (close_block-Holds Kind.refusal) (
                both R F I P law (λ s. for_each (close_call texts) s.own.tool_indices s) _
                  (λ s i. close_calls-Gives s.own.tool_indices s (law.listed s i) i) law.cleared))))

    finish_choice-Holds : (reason : Option String) → Holds R F I P (finish_choice texts reason)
    finish_choice-Holds none = nothing-Holds R F I P law
    finish_choice-Holds (some reason) =
        both R F I P law (set_stop_reason reason) _ (law.reasoned reason) close_open_blocks-Holds

    handle_choices-Holds : (choices : List Choice) → Holds R F I P (handle_choices texts choices)
    handle_choices-Holds [] = nothing-Holds R F I P law
    handle_choices-Holds (choice ∷ rest) =
        let delta = choice.delta in
        both R F I P law _ _
          (handle_some-Holds R F I P law handle_reasoning_delta
            (handle_delta-Holds R F I P law Kind.thinking)
            (or_else (filled delta.reasoning) (filled delta.reasoning_content)))
          (both R F I P law _ _
            (handle_some-Holds R F I P law handle_text_delta
              (handle_delta-Holds R F I P law Kind.text) (filled delta.content))
            (both R F I P law _ _
              (handle_some-Holds R F I P law handle_refusal_delta
                (handle_delta-Holds R F I P law Kind.refusal) (filled delta.refusal))
              (both R F I P law _ _
                (for_each-Holds R F I P law handle_tool_fragment
                  (handle_tool_fragment-Holds R F I P law) delta.tool_calls)
                (finish_choice-Holds (filled choice.finish_reason)))))

    handle_usage-Holds : (raw : Option RawUsage) → Holds R F I P (handle_usage raw)
    handle_usage-Holds none = nothing-Holds R F I P law
    handle_usage-Holds (some raw) = law.counted (counts raw)

    -- Every chunk other than the end of the wire.
    pub handle_open-Holds :
        (error : Option String) (chunk : Chunk) → Holds R F I P (handle_open texts error chunk)
    handle_open-Holds (some text) chunk = law.raised _
    handle_open-Holds none chunk =
        both R F I P law announce _ law.announced (
          both R F I P law _ _ (handle_choices-Holds chunk.choices)
            (handle_usage-Holds chunk.usage))
