-- ===== src/Client/OpenAi/WireClass.antt =====
-- The wire class of client/transports/openai/streamer.py as the iteration calls it, with the
-- classification of stop reasons from transport.py.
use luca_py.Base.{
  String, ◌⊎◌, inl, inr, Bool, true, false, Option, none, some, List, [], ◌∷◌, if◌then◌else◌,
}
use Prim.Native.String.{len, slice, ◌++◌}
use text.Mathlib.Text.{starts_with, ◌==◌}
use luca_py.Client.Streamer.{Message, Wire, Finishing, finish_event}
use luca_py.Client.Blocks.{Block, Usage, Part}
use luca_py.Client.OpenAi.{
  Loaded, not_json, other_json, object_of, Chunk, Own, Texts, Content, Event, Chat, Handled, Op,
  ◌⨾◌, raises,
}
use luca_py.Client.OpenAi.Handlers.{announce, handle_choices, handle_usage}

abbrev pub refusal_of : Content → Option String
refusal_of [] = none
refusal_of (Block.refusal t ∷ rest) = some t
refusal_of (Block.text t ∷ rest) = refusal_of rest
refusal_of (Block.thinking t ∷ rest) = refusal_of rest
refusal_of (Block.tool_call c ∷ rest) = refusal_of rest

-- Strict-mode refusal: upstream "stop" but a RefusalBlock was emitted.
abbrev pub stopped_with : Option String → Option String × Option String
stopped_with none = (some "stop", none)
stopped_with (some t) = (some "error", some ("OpenAI refusal: " ++ t))

unfoldable pub classify_finish : String → Message Content Usage → Option String × Option String
classify_finish reason message =
    if reason == "stop"
    then stopped_with (refusal_of message.content)
    else if reason == "length"
    then (some "length", none)
    else if reason == "tool_calls"
    then (some "tool_use", none)
    else if reason == "function_call"
    then (some "tool_use", none)
    else if reason == "content_filter"
    then (some "error", some "Provider safety filter (content_filter)")
    else (some reason, none)

abbrev pub finishing : Finishing Content Usage
finishing = record {
  classify_finish = classify_finish;
  no_usage = record {
    input_tokens = 0;
    output_tokens = 0;
    total_tokens = 0;
    reasoning_tokens = none;
  };
}

abbrev pub wire_end : Option String → Chat → List Event × Chat
wire_end none s = ([], s)
wire_end (some reason) s = let (event, s') = finish_event finishing false s in (event ∷ [], s')

unfoldable pub handle_wire_end : Chat → List Event × Chat
handle_wire_end s = wire_end s.stop_reason s

abbrev pub without_error : List Event × Chat → Handled
without_error (events, s) = (inr events, s)

abbrev pub done_marker : Chunk
done_marker = record { done = true; error = none; choices = []; usage = none }

-- What `parse` gives; a value that is no object is passed on, and `leaks` is what comes of it.
abbrev pub loaded : Loaded → String ⊎ List Chunk
loaded not_json = inl "Stream produced non-JSON data"
loaded other_json = inr []
loaded (object_of chunk) = inr (chunk ∷ [])

-- chunk.get("done") raises an AttributeError on a value that is no object.
abbrev pub is_other : Loaded → Bool
is_other not_json = false
is_other other_json = true
is_other (object_of chunk) = false

module _ (texts : Texts) where
  abbrev pub handle_open : Option String → Chunk → Op
  handle_open (some text) chunk = raises ("OpenAI stream returned an error: " ++ text)
  handle_open none chunk = announce ⨾ handle_choices texts chunk.choices ⨾ handle_usage chunk.usage

  unfoldable pub handle : Chunk → Op
  handle chunk s =
      if chunk.done then without_error (handle_wire_end s) else handle_open chunk.error chunk s

  unfoldable pub parse : String → String ⊎ List Chunk
  parse line =
      if starts_with line "data:"
      then (let payload = texts.strip (slice line 5 (len line)) in
          if payload == "[DONE]"
          then inr (done_marker ∷ [])
          else loaded (texts.loads_chunk payload))
      else inr []

  unfoldable pub leaks : String → Bool
  leaks line =
      if starts_with line "data:"
      then (let payload = texts.strip (slice line 5 (len line)) in
          if payload == "[DONE]" then false else is_other (texts.loads_chunk payload))
      else false

  abbrev pub chat_completions : Wire Part Content Usage Own String Chunk
  chat_completions = record {
    parse = parse;
    handle = handle;
    handle_wire_end = handle_wire_end;
    leaks = leaks;
    finishing = finishing;
  }
