-- ===== src/Client/OpenAi/Handlers.antt =====
-- The handlers of client/transports/openai/streamer.py, and the wire class that they make up.
use luca_py.Base.{
  ℕ, String, inr, Bool, true, false, Option, none, some, List, [], ◌∷◌, ◌++◌, if◌then◌else◌, length,
  get_elem?, any, is_some, not,
}
use text.Mathlib.Text.{◌==◌}
use luca_py.Models.Json.{Json, object, end}
use luca_py.Client.Streamer.{start, other}
use luca_py.Client.Blocks.{
  ToolCall, Block, Usage, Part, Kind, start_of, delta_of, end_of, block_of, extend_text,
  extend_arguments, text_of, call_of, modify,
}
use luca_py.Client.OpenAi.{
  Fragment, Choice, RawUsage, Pending, Own, Texts, Content, Op, ◌⨾◌, nothing, tell, raises,
  set_content, set_own, for_each, filled, lookup, assign,
}

abbrev pub no_block : String
no_block = "no such block"

abbrev pub index_of : Kind → Own → Option ℕ
index_of Kind.text own = own.text_index
index_of Kind.thinking own = own.reasoning_index
index_of Kind.refusal own = own.refusal_index

abbrev pub set_index : Kind → Option ℕ → Own → Own
set_index Kind.text i own = record own { text_index = i }
set_index Kind.thinking i own = record own { reasoning_index = i }
set_index Kind.refusal i own = record own { refusal_index = i }

unfoldable pub append_block : Block → Op
append_block block = set_content (λ content. content ++ (block ∷ []))

-- The block that a delta goes to: the open one, or a new one.
abbrev pub open_block : Kind → Option ℕ → Content → Op
open_block kind (some i) content = nothing
open_block kind none content =
    append_block (block_of kind "")
    ⨾ set_own (set_index kind (some (length content)))
    ⨾ tell (start_of kind (length content))

abbrev pub extend_block : Kind → String → Option ℕ → Op
extend_block kind t none = nothing
extend_block kind t (some i) = set_content (modify (extend_text t) i) ⨾ tell (delta_of kind i t)

unfoldable pub handle_delta : Kind → String → Op
handle_delta kind t =
    (λ s. open_block kind (index_of kind s.own) s.message.content s)
    ⨾ (λ s. extend_block kind t (index_of kind s.own) s)

abbrev pub handle_reasoning_delta : String → Op
handle_reasoning_delta t = handle_delta Kind.thinking t

abbrev pub handle_text_delta : String → Op
handle_text_delta t = handle_delta Kind.text t

abbrev pub handle_refusal_delta : String → Op
handle_refusal_delta t = handle_delta Kind.refusal t

abbrev pub handle_some : (String → Op) → Option String → Op
handle_some f none = nothing
handle_some f (some t) = f t

abbrev pub fresh_pending : Pending
fresh_pending = record { id = none; name = none; buffered_args = [] }

-- A piece that is there replaces what was known.
abbrev pub or_known : Option String → Option String → Option String
or_known none known = known
or_known (some piece) known = some piece

abbrev pub pending_of : ℕ → Own → Pending
pending_of k own = elim (lookup k own.tool_pending) [ none ↦ fresh_pending | some p ↦ p ]

unfoldable pub note_fragment : ℕ → Fragment → Own → Own
note_fragment k fragment own =
    let p = pending_of k own in
    record own {
      tool_pending =
          assign k
            (record p { id = or_known fragment.id p.id; name = or_known fragment.name p.name })
            own.tool_pending;
    }

unfoldable pub add_arguments : ℕ → String → Op
add_arguments i t = set_content (modify (extend_arguments t) i) ⨾ tell (Part.tool_call_delta i t)

abbrev pub add_some_arguments : ℕ → Option String → Op
add_some_arguments i none = nothing
add_some_arguments i (some t) = add_arguments i t

abbrev pub new_call : String → String → ToolCall
new_call id name = record {
  id = id;
  name = name;
  arguments = object end;
  partial_arguments = "";
  complete = false;
}

unfoldable pub start_call : ℕ → String → String → Content → Op
start_call k id name content =
    let i = length content in
    append_block (Block.tool_call (new_call id name))
    ⨾ set_own (λ own. record own { tool_indices = assign k i own.tool_indices })
    ⨾ tell (Part.tool_call_start i id name)

unfoldable pub open_call : ℕ → Pending → String → String → Option String → Content → Op
open_call k p id name args content =
    let i = length content in
    start_call k id name content
    ⨾ for_each (add_arguments i) p.buffered_args
    ⨾ set_own (λ own. record own {
      tool_pending = assign k (record p { buffered_args = [] }) own.tool_pending;
    })
    ⨾ add_some_arguments i args

abbrev pub buffer : ℕ → Pending → Option String → Op
buffer k p none = nothing
buffer k p (some t) = set_own (λ own. record own {
  tool_pending =
      assign k (record p { buffered_args = p.buffered_args ++ (t ∷ []) }) own.tool_pending;
})

-- A call that is not open yet is opened once both its id and its name are known.
abbrev pub open_or_buffer :
    ℕ → Pending → Option String → Option String → Option String → Content → Op
open_or_buffer k p (some id) (some name) args content = open_call k p id name args content
open_or_buffer k p (some id) none args content = buffer k p args
open_or_buffer k p none name args content = buffer k p args

abbrev pub fragment_arguments : ℕ → Option String → Option ℕ → Op
fragment_arguments k args (some i) = add_some_arguments i args
fragment_arguments k args none =
    λ s. let p = pending_of k s.own in open_or_buffer k p p.id p.name args s.message.content s

abbrev pub tool_fragment : Fragment → Option ℕ → Op
tool_fragment fragment none = nothing
tool_fragment fragment (some k) =
    set_own (note_fragment k fragment)
    ⨾ (λ s. fragment_arguments k (filled fragment.arguments) (lookup k s.own.tool_indices) s)

unfoldable pub handle_tool_fragment : Fragment → Op
handle_tool_fragment fragment = tool_fragment fragment fragment.index

abbrev pub end_text : Kind → ℕ → Option String → Op
end_text kind i none = raises no_block
end_text kind i (some t) = tell (end_of kind i t) ⨾ set_own (set_index kind none)

abbrev pub end_block : Kind → Option ℕ → Content → Op
end_block kind none content = nothing
end_block kind (some i) content = end_text kind i (text_of (get_elem? content i))

unfoldable pub close_block : Kind → Op
close_block kind s = end_block kind (index_of kind s.own) s.message.content s

abbrev pub is_open : Own → ℕ × Pending → Bool
is_open own (k, p) = is_some (lookup k own.tool_indices)

abbrev pub check_resolved : Own → Op
check_resolved own =
    if any (λ p. not (is_open own p)) own.tool_pending
    then raises "OpenAI stream finished with tool calls missing id or name"
    else nothing

abbrev pub or_zero : Option ℕ → ℕ
or_zero none = 0
or_zero (some n) = n

unfoldable pub counts : RawUsage → Usage
counts raw = record {
  input_tokens = or_zero raw.prompt_tokens;
  output_tokens = or_zero raw.completion_tokens;
  total_tokens = or_zero raw.total_tokens;
  reasoning_tokens = raw.reasoning_tokens;
}

unfoldable pub count_usage : Usage → Op
count_usage counted s = (inr (other (Part.usage counted) ∷ []), record s { usage = some counted })

abbrev pub handle_usage : Option RawUsage → Op
handle_usage none = nothing
handle_usage (some raw) = count_usage (counts raw)

unfoldable pub set_stop_reason : String → Op
set_stop_reason reason s = (inr [], record s { stop_reason = some reason })

abbrev pub or_else : Option String → Option String → Option String
or_else none o = o
or_else (some t) o = some t

unfoldable pub announce : Op
announce s =
    if s.own.started
    then (inr [], s)
    else (inr (start ∷ []), record s { own = record s.own { started = true } })

unfoldable pub complete_call : ℕ → ToolCall → Op
complete_call i call =
    set_content (modify (λ block. Block.tool_call call) i) ⨾ tell (Part.tool_call_end i call)

module _ (texts : Texts) where
  abbrev pub parsed_arguments : String → Option Json
  parsed_arguments t = if t == "" then some (object end) else texts.loads t

  abbrev pub end_call : ℕ → ToolCall → Option Json → Op
  end_call i call none = raises "Tool call returned malformed JSON"
  end_call i call (some arguments) =
      complete_call i
        (record call { arguments = arguments; partial_arguments = ""; complete = true })

  abbrev pub end_call_at : ℕ → Option ToolCall → Op
  end_call_at i none = raises no_block
  end_call_at i (some call) = end_call i call (parsed_arguments call.partial_arguments)

  unfoldable pub close_call : ℕ × ℕ → Op
  close_call (k, i) s = end_call_at i (call_of (get_elem? s.message.content i)) s

  unfoldable pub close_open_blocks : Op
  close_open_blocks =
      (λ s. check_resolved s.own s)
      ⨾ close_block Kind.thinking
      ⨾ close_block Kind.text
      ⨾ close_block Kind.refusal
      ⨾ (λ s. for_each close_call s.own.tool_indices s)
      ⨾ set_own (λ own. record own { tool_indices = []; tool_pending = [] })

  abbrev pub finish_choice : Option String → Op
  finish_choice none = nothing
  finish_choice (some reason) = set_stop_reason reason ⨾ close_open_blocks

  abbrev pub handle_choices : List Choice → Op
  handle_choices [] = nothing
  handle_choices (choice ∷ rest) =
      let delta = choice.delta in
      handle_some handle_reasoning_delta
        (or_else (filled delta.reasoning) (filled delta.reasoning_content))
      ⨾ handle_some handle_text_delta (filled delta.content)
      ⨾ handle_some handle_refusal_delta (filled delta.refusal)
      ⨾ for_each handle_tool_fragment delta.tool_calls
      ⨾ finish_choice (filled choice.finish_reason)
