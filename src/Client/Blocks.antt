-- ===== src/Client/Blocks.antt =====
-- The parts of a streamed message (client/types): content blocks, with the fields that the Chat
-- Completions streamer sets, the events that tell them, and the token counts.
use luca_py.Base.{ℕ, zero, suc, String, Bool, Option, none, some, List, [], ◌∷◌}
use Prim.Native.String.{◌++◌}
use luca_py.Models.Json.{Json}

pub record ToolCall : Type 0 where
  pub id : String
  pub name : String
  pub arguments : Json
  pub partial_arguments : String
  pub complete : Bool

pub data Block : Type 0 where
  text thinking refusal : String → Block
  tool_call : ToolCall → Block

pub record Usage : Type 0 where
  pub input_tokens : ℕ
  pub output_tokens : ℕ
  pub total_tokens : ℕ
  pub reasoning_tokens : Option ℕ

-- Each number is the index of the block in the message's content.
pub data Part : Type 0 where
  text_start thinking_start refusal_start : ℕ → Part
  text_delta thinking_delta refusal_delta text_end thinking_end refusal_end : ℕ → String → Part
  tool_call_start : ℕ → String → String → Part
  tool_call_delta : ℕ → String → Part
  tool_call_end : ℕ → ToolCall → Part
  usage : Usage → Part

-- A block of text, by its class.
pub data Kind : Type 0 where
  text thinking refusal : Kind

abbrev pub start_of : Kind → ℕ → Part
start_of Kind.text i = Part.text_start i
start_of Kind.thinking i = Part.thinking_start i
start_of Kind.refusal i = Part.refusal_start i

abbrev pub delta_of : Kind → ℕ → String → Part
delta_of Kind.text i t = Part.text_delta i t
delta_of Kind.thinking i t = Part.thinking_delta i t
delta_of Kind.refusal i t = Part.refusal_delta i t

abbrev pub end_of : Kind → ℕ → String → Part
end_of Kind.text i t = Part.text_end i t
end_of Kind.thinking i t = Part.thinking_end i t
end_of Kind.refusal i t = Part.refusal_end i t

abbrev pub block_of : Kind → String → Block
block_of Kind.text t = Block.text t
block_of Kind.thinking t = Block.thinking t
block_of Kind.refusal t = Block.refusal t

-- block.text += t; a tool call has no text.
abbrev pub extend_text : String → Block → Block
extend_text t (Block.text x) = Block.text (x ++ t)
extend_text t (Block.thinking x) = Block.thinking (x ++ t)
extend_text t (Block.refusal x) = Block.refusal (x ++ t)
extend_text t (Block.tool_call c) = Block.tool_call c

-- call.partial_arguments += t; only a tool call has them.
abbrev pub extend_arguments : String → Block → Block
extend_arguments t (Block.tool_call c) =
    Block.tool_call (record c { partial_arguments = c.partial_arguments ++ t })
extend_arguments t (Block.text x) = Block.text x
extend_arguments t (Block.thinking x) = Block.thinking x
extend_arguments t (Block.refusal x) = Block.refusal x

abbrev pub text_of : Option Block → Option String
text_of none = none
text_of (some (Block.text x)) = some x
text_of (some (Block.thinking x)) = some x
text_of (some (Block.refusal x)) = some x
text_of (some (Block.tool_call c)) = none

abbrev pub call_of : Option Block → Option ToolCall
call_of none = none
call_of (some (Block.text x)) = none
call_of (some (Block.thinking x)) = none
call_of (some (Block.refusal x)) = none
call_of (some (Block.tool_call c)) = some c

-- xs[i] is changed by f; an index out of bounds changes nothing.
abbrev pub modify {ℓ} : {A : Type ℓ} → (A → A) → ℕ → List A → List A
modify f i [] = []
modify f zero (x ∷ xs) = f x ∷ xs
modify f (suc i) (x ∷ xs) = x ∷ modify f i xs
