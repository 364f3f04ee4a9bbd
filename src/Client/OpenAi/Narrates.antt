-- ===== src/Client/OpenAi/Narrates.antt =====
-- The Chat Completions wire class keeps the law of the iteration: no handler of
-- client/transports/openai/streamer.py makes a terminal event but the end of the wire.
use luca_py.Base.{
  ℕ, String, ◌≡◌, ◌≢◌, refl, ◌∙◌, ◌⊎◌, inl, inr, true, false, Option, none, some, List, [], ◌∷◌,
  ◌++◌, arith, Bool-cases, if-P,
}
use Prim.Native.String.{len, slice}
use text.Mathlib.Text.{starts_with, ◌==◌}
use luca_py.Client.Streamer.{Round, finish_event, handle_chunk, handle_all}
use luca_py.Client.Streamer.Lines.{Keeps, Quiet, Batch, LastBatch}
use luca_py.Client.Streamer.Narration.{IsNarrator}
use luca_py.Client.Streamer.Ending.{pulls, Begins, Tells, pulls-Narrates}
use luca_py.Client.Blocks.{Kind}
use luca_py.Client.OpenAi.{
  Loaded, not_json, other_json, object_of, Chunk, Texts, Event, Chat, Handled, ◌⨾◌, tell, raises,
  set_content, set_own,
}
use luca_py.Client.OpenAi.Handlers.{
  append_block, start_call, add_arguments, complete_call, count_usage, set_stop_reason, announce,
}
use luca_py.Client.OpenAi.Laws.{IsLaw, Gives, Anywhere, Whatever, whatever}
use luca_py.Client.OpenAi.ChunkLaws.{handle_open-Holds}
use luca_py.Client.OpenAi.WireClass.{
  handle_open, wire_end, handle_wire_end, handle, without_error, parse, loaded, chat_completions,
}

-- What an operation that is not the end of the wire does.
abbrev Mild : Chat → List Event → Chat → Type 0
Mild s events s' = Quiet events × (s'.finished ≡ s.finished) × Keeps s s'

Quiet-append : (es fs : List Event) → Quiet es → Quiet fs → Quiet (es ++ fs)
Quiet-append [] fs h k = k
Quiet-append (e ∷ es) fs h k = (h.0, Quiet-append es fs h.1 k)

Keeps-trans : (s t u : Chat) → Keeps s t → Keeps t u → Keeps s u
Keeps-trans s t u h k = (k.0 ∙ h.0, k.1 ∙ h.1, k.2 ∙ h.2)

Keeps-refl : (s : Chat) → Keeps s s
Keeps-refl s = (refl, refl, refl)

Mild-IsLaw : IsLaw Mild Keeps Anywhere Whatever
unfolding ◌⨾◌ tell raises set_content set_own append_block start_call add_arguments complete_call
    count_usage set_stop_reason announce
Mild-IsLaw = record {
  onward = λ s t es i r. tt;
  kept = λ s t es n r p. tt;
  listed = λ s i. whatever s s.own.tool_indices;
  still = λ s i. (tt, refl, Keeps-refl s);
  joined = λ s t u es fs h k. (Quiet-append es fs h.0 k.0, k.1 ∙ h.1, Keeps-trans s t u h.2 k.2);
  failed = λ s t u es h k. Keeps-trans s t u h.2 k;
  raised = λ text s i. Keeps-refl s;
  noted = λ f modest s i. (tt, refl, Keeps-refl s);
  forgot = λ kind s i. (tt, refl, Keeps-refl s);
  cleared = λ s i. (tt, refl, Keeps-refl s);
  reasoned = λ reason s i. (tt, refl, Keeps-refl s);
  announced = λ s i. elim (Bool-cases s.own.started) [
    | inl h ↦ rw h (tt, refl, Keeps-refl s)
    | inr h ↦ rw h ((refl, tt), refl, Keeps-refl s)
  ];
  counted = λ u s i. ((refl, tt), refl, Keeps-refl s);
  opened = λ kind s e i. elim kind [
    | Kind.text ↦ ((refl, tt), refl, Keeps-refl s)
    | Kind.thinking ↦ ((refl, tt), refl, Keeps-refl s)
    | Kind.refusal ↦ ((refl, tt), refl, Keeps-refl s)
  ];
  extended = λ kind t n s e i. ((refl, tt), refl, Keeps-refl s);
  ended = λ kind n t s e i. ((refl, tt), refl, Keeps-refl s);
  started = λ k id name s i. ((refl, tt), refl, Keeps-refl s);
  born = λ k id name s. tt;
  added = λ n t s p i. ((refl, tt), refl, Keeps-refl s);
  completed = λ n call s p i. ((refl, tt), refl, Keeps-refl s);
}

wire_end-LastBatch : (reason : Option String) (s : Chat) → LastBatch s (wire_end reason s)
unfolding finish_event
wire_end-LastBatch none s = Keeps-refl s
wire_end-LastBatch (some reason) s = (refl, Keeps-refl s)

LastBatch-Batch :
    (s : Chat) (out : List Event × Chat)
    → s.finished ≡ false
    → out.1.finished ≡ false ⊎ (out.0 ≢ [])
    → LastBatch s out
    → Batch s (without_error out)
LastBatch-Batch s ([], s') going (inl h) k = (inl (tt, h), k)
LastBatch-Batch s ([], s') going (inr h) k = absurd (h refl)
LastBatch-Batch s (e ∷ es, s') going h (ends, k) = (inr ends, k)

wire_end_going :
    (reason : Option String) (s : Chat)
    → s.finished ≡ false
    → (wire_end reason s).1.finished ≡ false ⊎ ((wire_end reason s).0 ≢ [])
wire_end_going none s going = inl going
wire_end_going (some reason) s going = inr (λ e. absurd (ground (arith, e)))

Gives-Batch :
    (s : Chat) (out : Handled)
    → s.finished ≡ false
    → Gives Mild Keeps Anywhere Whatever s out
    → Batch s out
Gives-Batch s (inl text, s') going h = h
Gives-Batch s (inr es, s') going h = (inl (h.0, h.1 ∙ going), h.2)

abbrev AtMostOne : String ⊎ List Chunk → Type 0
AtMostOne (inl text) = Unit {0}
AtMostOne (inr []) = Unit {0}
AtMostOne (inr (raw ∷ [])) = Unit {0}
AtMostOne (inr (raw ∷ raw' ∷ raws)) = ⊥

loaded-AtMostOne : (value : Loaded) → AtMostOne (loaded value)
loaded-AtMostOne not_json = tt
loaded-AtMostOne other_json = tt
loaded-AtMostOne (object_of chunk) = tt

module _ (texts : Texts) where
  handled-Batch : (chunk : Chunk) (s : Chat) → s.finished ≡ false → Batch s (handle texts chunk s)
  unfolding handle handle_wire_end
  handled-Batch chunk s going =
      if-P (Batch s) chunk.done
        (LastBatch-Batch s (wire_end s.stop_reason s) going (wire_end_going s.stop_reason s going)
          (wire_end-LastBatch s.stop_reason s))
        (Gives-Batch s (handle_open texts chunk.error chunk s) going
          (handle_open-Holds Mild Keeps Anywhere Whatever Mild-IsLaw texts chunk.error chunk s tt))

  parse-AtMostOne : (line : String) → AtMostOne (parse texts line)
  unfolding parse
  parse-AtMostOne line =
      let payload = texts.strip (slice line 5 (len line)) in
      if-P AtMostOne (starts_with line "data:")
        (if-P AtMostOne (payload == "[DONE]") tt (loaded-AtMostOne (texts.loads_chunk payload))) tt

  only_one :
      (raw : Chunk) (s : Chat)
      → handle_all (chat_completions texts) (raw ∷ []) [] s ≡ handle texts raw s
  unfolding handle_all
  only_one raw s = again (handle texts raw s)
    where
      again :
          (out : Handled)
          → elim out.0 [
            | inl text ↦ (inl text, out.1)
            | inr more ↦ handle_all (chat_completions texts) [] ([] ++ more) out.1
          ]
            ≡ out
      again (inl text, s') = refl
      again (inr es, s') = refl

  batch_of :
      (raws : String ⊎ List Chunk) (s : Chat)
      → AtMostOne raws
      → s.finished ≡ false
      → Batch s (elim raws [
        | inl text ↦ (inl text, s)
        | inr raws ↦ handle_all (chat_completions texts) raws [] s
      ])
  unfolding handle_all
  batch_of (inl text) s one going = Keeps-refl s
  batch_of (inr []) s one going = (inl (tt, going), Keeps-refl s)
  batch_of (inr (raw ∷ [])) s one going = rw (only_one raw s) (handled-Batch raw s going)
  batch_of (inr (raw ∷ raw' ∷ raws)) s one going = absurd one

  pub chat_completions-IsNarrator : IsNarrator (chat_completions texts)
  unfolding handle_chunk handle_wire_end
  chat_completions-IsNarrator = record {
    chunks = λ line s going. batch_of (parse texts line) s (parse-AtMostOne line) going;
    ends = λ s going. wire_end-LastBatch s.stop_reason s;
  }

  -- A Chat Completions stream that is entered and has returned nothing, with nothing pending, where
  -- each data line that is a JSON object has the shape of the wire format: whenever the deadline or
  -- `cancel()` strikes, the events of any number of calls begin with a start, hold a terminal event at
  -- most once, as the last, and hold it where the iteration stops. A data line that is JSON but no
  -- object, such as `null`, ends the iteration by an exception, which need not follow such an event.
  pub chat_completions_narrates :
      (s : Chat)
      → s.is_entered ≡ true
      → s.pending ≡ []
      → s.finished ≡ false
      → s.emitted_start ≡ false
      → (n : ℕ) (rounds : List (Round String))
      → Begins (chat_completions texts) false (pulls (chat_completions texts) n rounds s)
        × Tells (chat_completions texts) (pulls (chat_completions texts) n rounds s)
  chat_completions_narrates = pulls-Narrates (chat_completions texts) chat_completions-IsNarrator
