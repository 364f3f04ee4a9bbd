-- ===== src/Tests/OpenAiCases.antt =====
-- A short Chat Completions stream through client/transports/openai/streamer.py: a text in two
-- pieces, a tool call whose arguments arrive in front of its name, the stop reason and the marker.
use luca_py.Base.{
  String, ◌≡◌, refl, inr, true, false, Option, none, some, List, [], ◌∷◌, if◌then◌else◌, All,
}
use text.Mathlib.Text.{◌==◌}
use luca_py.Models.Json.{object, end}
use luca_py.Client.Streamer.{
  StreamEvent, Round, Read, start, other, chunk, next, read_loop, handle_chunk, handle_all,
  finish_event, emit,
}
use luca_py.Client.Streamer.Lines.{done, leaked_out}
use luca_py.Client.Streamer.Ending.{pulls, Begins, Tells}
use luca_py.Client.Blocks.{Part, Usage, ToolCall}
use luca_py.Client.OpenAi.{
  other_json, object_of, Delta, Chunk, Texts, Chat, Content, ◌⨾◌, nothing, tell, raises,
  set_content, set_own, for_each,
}
use luca_py.Client.OpenAi.Handlers.{
  append_block, handle_delta, note_fragment, add_arguments, start_call, open_call,
  handle_tool_fragment, close_block, complete_call, close_call, close_open_blocks, announce,
  set_stop_reason,
}
use luca_py.Client.OpenAi.WireClass.{
  leaks, handle, handle_wire_end, parse, classify_finish, chat_completions,
}
use luca_py.Client.OpenAi.Narrates.{chat_completions_narrates}
use luca_py.Client.OpenAi.Replay.{replay, handle_all-replays}
use luca_py.Client.OpenAi.Standing.{Indexed, Placed}
use luca_py.Client.OpenAi.Placing.{handle_all-Placed}

abbrev no_delta : Delta
no_delta = record {
  reasoning = none;
  reasoning_content = none;
  content = none;
  refusal = none;
  tool_calls = [];
}

abbrev chunk_of : Delta → Option String → Chunk
chunk_of delta reason = record {
  done = false;
  error = none;
  choices = record { delta = delta; finish_reason = reason } ∷ [];
  usage = none;
}

abbrev says : String → Chunk
says t = chunk_of (record no_delta { content = some t }) none

abbrev fragment : Option String → Option String → Option String → Chunk
fragment id name arguments =
    chunk_of
      (record no_delta {
        tool_calls = record { index = some 0; id = id; name = name; arguments = arguments } ∷ [];
      })
      none

abbrev stops : Chunk
stops = chunk_of no_delta (some "tool_calls")

abbrev chunks : List Chunk
chunks =
    says "Hel"
    ∷ fragment (some "c1") none (some "{")
    ∷ fragment none (some "echo") (some "}")
    ∷ says "lo"
    ∷ stops
    ∷ []

abbrev texts : Texts
texts = record {
  strip = λ t. t;
  loads = λ t. if t == "{}" then some (object end) else none;
  loads_chunk = λ t.
      if t == "null"
      then other_json
      else if t == "hello"
      then object_of (says "hello")
      else object_of stops;
}

abbrev fresh : Chat
fresh = record {
  message = record {
    content = [];
    finish_reason = none;
    provider_finish_reason = none;
    error_message = none;
    cancelled = false;
    usage = none;
  };
  usage = none;
  stop_reason = none;
  finish_reason = none;
  is_entered = true;
  pending = [];
  finished = false;
  emitted_start = false;
  own = record {
    started = false;
    text_index = none;
    reasoning_index = none;
    refusal_index = none;
    tool_indices = [];
    tool_pending = [];
  };
}

abbrev call : ToolCall
call = record {
  id = "c1";
  name = "echo";
  arguments = object end;
  partial_arguments = "";
  complete = true;
}

abbrev ended : Chat
ended = (handle_all (chat_completions texts) chunks [] fresh).1

abbrev events : List (StreamEvent Part Content Usage)
events =
    start
    ∷ other (Part.text_start 0)
    ∷ other (Part.text_delta 0 "Hel")
    ∷ other (Part.tool_call_start 1 "c1" "echo")
    ∷ other (Part.tool_call_delta 1 "{")
    ∷ other (Part.tool_call_delta 1 "}")
    ∷ other (Part.text_delta 0 "lo")
    ∷ other (Part.text_end 0 "Hello")
    ∷ other (Part.tool_call_end 1 call)
    ∷ []

handled : handle_all (chat_completions texts) chunks [] fresh ≡ (inr events, ended)
unfolding handle_all handle handle_wire_end append_block handle_delta note_fragment add_arguments
    start_call open_call handle_tool_fragment close_block complete_call close_call close_open_blocks
    announce set_stop_reason ◌⨾◌ nothing tell raises set_content set_own for_each
handled = refl

handle_all-replays_example : ended.message.content ≡ replay events []
handle_all-replays_example = handle_all-replays texts chunks events fresh ended handled

handle_all-Placed_example : Indexed ended × All (Placed ended.message.content) events
handle_all-Placed_example =
    handle_all-Placed texts chunks events fresh ended (tt, tt, tt, tt) handled

abbrev reads : Read String → Round String
reads read = record {
  expired = false;
  cancelled = false;
  read = read;
  expired_after = false;
  cancelled_after = false;
}

abbrev rounds : List (Round String)
rounds =
    reads (chunk ": keep-alive")
    ∷ reads (chunk "data:hello")
    ∷ reads (chunk "data:stop")
    ∷ reads (chunk "data:[DONE]")
    ∷ []

chat_completions_narrates_example :
    Begins (chat_completions texts) false (pulls (chat_completions texts) 9 rounds fresh)
    × Tells (chat_completions texts) (pulls (chat_completions texts) 9 rounds fresh)
chat_completions_narrates_example =
    chat_completions_narrates texts fresh refl refl refl refl 9 rounds

-- The whole iteration stops behind its finish event.
completed : (pulls (chat_completions texts) 9 rounds fresh).1 ≡ done
unfolding pulls next read_loop handle_chunk emit finish_event parse classify_finish handle_all
    handle handle_wire_end append_block handle_delta note_fragment add_arguments start_call
    open_call handle_tool_fragment close_block complete_call close_call close_open_blocks announce
    set_stop_reason ◌⨾◌ nothing tell raises set_content set_own for_each leaks
completed = refl

-- A data line that is JSON but no object ends the iteration without an event.
escapes : pulls (chat_completions texts) 9 (reads (chunk "data:null") ∷ []) fresh ≡ ([], leaked_out)
unfolding pulls next read_loop leaks
escapes = refl
