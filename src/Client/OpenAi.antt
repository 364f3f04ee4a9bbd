-- ===== src/Client/OpenAi.antt =====
-- client/transports/openai/streamer.py: the Chat Completions wire class. A chunk is read at the
-- shape of the wire format. A handler is an operation on the streamer that appends events or raises
-- a StreamError, whose text here leaves out the values that it quotes. Here are the chunks, the state
-- and the operations; Handlers has the handlers. Where the source would index a block that is missing
-- or of another class, and fail with another error than StreamError, the model changes nothing or
-- raises `no_block`.
pub mod Handlers
pub mod WireClass
pub mod Laws
pub mod CallLaws
pub mod ChunkLaws
pub mod Replay
pub mod Standing
pub mod Placing
pub mod Narrates
use luca_py.Base.{
  ℕ, String, ◌⊎◌, inl, inr, Bool, true, false, Option, none, some, List, [], ◌∷◌, ◌++◌,
  if◌then◌else◌, length, get_elem?, any, ◌==◌, is_some, not,
}
use Prim.Native.String.{len}
use luca_py.Models.Json.{Json}
use luca_py.Client.Streamer.{StreamEvent, Streamer, other}
use luca_py.Client.Blocks.{
  ToolCall, Block, Usage, Part, Kind, start_of, delta_of, end_of, block_of, extend_text,
  extend_arguments, text_of, call_of, modify,
}

-- One entry of `delta["tool_calls"]`; `name` and `arguments` stand under `function`.
pub record Fragment : Type 0 where
  pub index : Option ℕ
  pub id : Option String
  pub name : Option String
  pub arguments : Option String

pub record Delta : Type 0 where
  pub reasoning : Option String
  pub reasoning_content : Option String
  pub content : Option String
  pub refusal : Option String
  pub tool_calls : List Fragment

pub record Choice : Type 0 where
  pub delta : Delta
  pub finish_reason : Option String

pub record RawUsage : Type 0 where
  pub prompt_tokens : Option ℕ
  pub completion_tokens : Option ℕ
  pub total_tokens : Option ℕ
  pub reasoning_tokens : Option ℕ

-- `error` is the text of a reported failure: its message, or the whole value.
pub record Chunk : Type 0 where
  pub done : Bool
  pub error : Option String
  pub choices : List Choice
  pub usage : Option RawUsage

pub record Pending : Type 0 where
  pub id : Option String
  pub name : Option String
  pub buffered_args : List String

-- What the wire class adds to the streamer.
pub record Own : Type 0 where
  pub started : Bool
  pub text_index : Option ℕ
  pub reasoning_index : Option ℕ
  pub refusal_index : Option ℕ
  pub tool_indices : List (ℕ × ℕ)
  pub tool_pending : List (ℕ × Pending)

-- What `json.loads` makes of a data line: a JSONDecodeError, an object of the shape of the wire format,
-- or JSON that is no object, such as `null`.
pub data Loaded : Type 0 where
  not_json other_json : Loaded
  object_of : Chunk → Loaded

-- The standard library's `str.strip` and `json.loads`, the latter for arguments and for chunks.
pub record Texts : Type 0 where
  pub strip : String → String
  pub loads : String → Option Json
  pub loads_chunk : String → Loaded

abbrev pub Content : Type 0
Content = List Block

abbrev pub Event : Type 0
Event = StreamEvent Part Content Usage

abbrev pub Chat : Type 0
Chat = Streamer Part Content Usage Own

abbrev pub Handled : Type 0
Handled = (String ⊎ List Event) × Chat

abbrev pub Op : Type 0
Op = Chat → Handled

abbrev pub prepend : List Event → Handled → Handled
prepend es (inl text, s) = (inl text, s)
prepend es (inr fs, s) = (inr (es ++ fs), s)

abbrev pub after : Handled → Op → Handled
after (inl text, s) f = (inl text, s)
after (inr es, s) f = prepend es (f s)

-- One operation, and the next unless it raises; their events in order.
infixr 20 ◌⨾◌
unfoldable pub ◌⨾◌ : Op → Op → Op
(f ⨾ g) s = after (f s) g

unfoldable pub nothing : Op
nothing s = (inr [], s)

unfoldable pub tell : Part → Op
tell part s = (inr (other part ∷ []), s)

unfoldable pub raises : String → Op
raises text s = (inl text, s)

unfoldable pub set_content : (Content → Content) → Op
set_content f s =
    (inr [], record s { message = record s.message { content = f s.message.content } })

unfoldable pub set_own : (Own → Own) → Op
set_own f s = (inr [], record s { own = f s.own })

unfoldable pub for_each {ℓ} : {A : Type ℓ} → (A → Op) → List A → Op
for_each f [] = nothing
for_each f (x ∷ xs) = f x ⨾ for_each f xs

-- What Python takes as true, of a text that may be absent.
abbrev pub filled : Option String → Option String
filled none = none
filled (some t) = if len t == 0 then none else some t

abbrev pub lookup {ℓ} : {A : Type ℓ} → ℕ → List (ℕ × A) → Option A
lookup k [] = none
lookup k ((j, v) ∷ d) = if j == k then some v else lookup k d

abbrev pub assign {ℓ} : {A : Type ℓ} → ℕ → A → List (ℕ × A) → List (ℕ × A)
assign k v [] = (k, v) ∷ []
assign k v ((j, w) ∷ d) = if j == k then (k, v) ∷ d else (j, w) ∷ assign k v d
