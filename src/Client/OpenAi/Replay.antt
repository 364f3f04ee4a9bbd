-- ===== src/Client/OpenAi/Replay.antt =====
-- The events of client/transports/openai/streamer.py against the message that it accumulates: a
-- consumer that replays them has the content.
use luca_py.Base.{
  ℕ, String, ◌≡◌, refl, sym, ap, ◌∙◌, inl, inr, Option, none, some, List, [], ◌∷◌, ◌++◌, if-P,
  length, subst,
}
use luca_py.Client.Streamer.{start, other, finish, error, finish_event, handle_all}
use luca_py.Client.Blocks.{
  Part, Block, Kind, start_of, delta_of, end_of, block_of, extend_text, extend_arguments, modify,
}
use luca_py.Client.OpenAi.{
  Chunk, Texts, Content, Event, Chat, Handled, ◌⨾◌, tell, raises, set_content, set_own,
}
use luca_py.Client.OpenAi.Handlers.{
  append_block, start_call, add_arguments, complete_call, count_usage, set_stop_reason, announce,
  new_call,
}
use luca_py.Client.OpenAi.Laws.{IsLaw, Gives, Anywhere, Whatever, whatever}
use luca_py.Client.OpenAi.ChunkLaws.{handle_open-Holds}
use luca_py.Client.OpenAi.WireClass.{
  wire_end, handle_wire_end, handle, without_error, chat_completions,
}

-- A consumer's view of one event: what it says of the content.
abbrev pub replay_part : Part → Content → Content
replay_part (Part.text_start i) content = content ++ (Block.text "" ∷ [])
replay_part (Part.thinking_start i) content = content ++ (Block.thinking "" ∷ [])
replay_part (Part.refusal_start i) content = content ++ (Block.refusal "" ∷ [])
replay_part (Part.text_delta i t) content = modify (extend_text t) i content
replay_part (Part.thinking_delta i t) content = modify (extend_text t) i content
replay_part (Part.refusal_delta i t) content = modify (extend_text t) i content
replay_part (Part.text_end i t) content = content
replay_part (Part.thinking_end i t) content = content
replay_part (Part.refusal_end i t) content = content
replay_part (Part.tool_call_start i id name) content =
    content ++ (Block.tool_call (new_call id name) ∷ [])
replay_part (Part.tool_call_delta i t) content = modify (extend_arguments t) i content
replay_part (Part.tool_call_end i call) content = modify (λ block. Block.tool_call call) i content
replay_part (Part.usage u) content = content

abbrev pub replay_event : Event → Content → Content
replay_event start content = content
replay_event (other part) content = replay_part part content
replay_event (finish m) content = content
replay_event (error f u) content = content

abbrev pub replay : List Event → Content → Content
replay [] content = content
replay (e ∷ es) content = replay es (replay_event e content)

replay-append :
    (es fs : List Event) (content : Content)
    → replay (es ++ fs) content ≡ replay fs (replay es content)
replay-append [] fs content = refl
replay-append (e ∷ es) fs content = replay-append es fs (replay_event e content)

start_told :
    (kind : Kind) (i : ℕ) (content : Content)
    → replay_part (start_of kind i) content ≡ content ++ (block_of kind "" ∷ [])
start_told Kind.text i content = refl
start_told Kind.thinking i content = refl
start_told Kind.refusal i content = refl

delta_told :
    (kind : Kind) (i : ℕ) (t : String) (content : Content)
    → replay_part (delta_of kind i t) content ≡ modify (extend_text t) i content
delta_told Kind.text i t content = refl
delta_told Kind.thinking i t content = refl
delta_told Kind.refusal i t content = refl

end_told :
    (kind : Kind) (i : ℕ) (t : String) (content : Content)
    → replay_part (end_of kind i t) content ≡ content
end_told Kind.text i t content = refl
end_told Kind.thinking i t content = refl
end_told Kind.refusal i t content = refl

abbrev Told : Chat → List Event → Chat → Type 0
Told s events s' = s'.message.content ≡ replay events s.message.content

abbrev Raised : Chat → Chat → Type 0
Raised s s' = Unit {0}

Told-IsLaw : IsLaw Told Raised Anywhere Whatever
unfolding ◌⨾◌ tell raises set_content set_own append_block start_call add_arguments complete_call
    count_usage set_stop_reason announce
Told-IsLaw = record {
  onward = λ s t es i r. tt;
  kept = λ s t es n r p. tt;
  listed = λ s i. whatever s s.own.tool_indices;
  still = λ s i. refl;
  joined = λ s t u es fs h k. k ∙ ap (replay fs) h ∙ sym (replay-append es fs s.message.content);
  failed = λ s t u es h k. tt;
  raised = λ text s i. tt;
  noted = λ f modest s i. refl;
  forgot = λ kind s i. refl;
  cleared = λ s i. refl;
  reasoned = λ reason s i. refl;
  announced = λ s i. if-P (Gives Told Raised Anywhere Whatever s) s.own.started refl refl;
  counted = λ u s i. refl;
  opened = λ kind s e i. sym (start_told kind (length s.message.content) s.message.content);
  extended = λ kind t n s e i. sym (delta_told kind n t s.message.content);
  ended = λ kind n t s e i. sym (end_told kind n t s.message.content);
  started = λ k id name s i. refl;
  born = λ k id name s. tt;
  added = λ n t s p i. refl;
  completed = λ n call s p i. refl;
}

wire_end-Told :
    (reason : Option String) (s : Chat)
    → Gives Told Raised Anywhere Whatever s (without_error (wire_end reason s))
unfolding finish_event
wire_end-Told none s = refl
wire_end-Told (some reason) s = refl

module _ (texts : Texts) where
  handle-Told :
      (chunk : Chunk) (s : Chat) → Gives Told Raised Anywhere Whatever s (handle texts chunk s)
  unfolding handle handle_wire_end
  handle-Told chunk s =
      if-P (Gives Told Raised Anywhere Whatever s) chunk.done (wire_end-Told s.stop_reason s)
        (handle_open-Holds Told Raised Anywhere Whatever Told-IsLaw texts chunk.error chunk s tt)

  -- The content after a run that does not raise, from the content `from` in front of it.
  abbrev ToldFrom : Content → Handled → Type 0
  ToldFrom from (inl text, s) = Unit {0}
  ToldFrom from (inr events, s) = s.message.content ≡ replay events from

  handle_all-ToldFrom :
      (from : Content) (raws : List Chunk) (events : List Event) (s : Chat)
      → s.message.content ≡ replay events from
      → ToldFrom from (handle_all (chat_completions texts) raws events s)
  unfolding handle_all
  handle_all-ToldFrom from [] events s h = h
  handle_all-ToldFrom from (raw ∷ raws) events s h =
      again (λ more s'. handle_all-ToldFrom from raws (events ++ more) s') (handle texts raw s)
        (handle-Told raw s)
    where
      again :
          ((more : List Event) (s' : Chat)
            → s'.message.content ≡ replay (events ++ more) from
            → ToldFrom from (handle_all (chat_completions texts) raws (events ++ more) s'))
          → (out : Handled) → Gives Told Raised Anywhere Whatever s out
          → ToldFrom from (elim out.0 [
            | inl text ↦ (inl text, out.1)
            | inr more ↦ handle_all (chat_completions texts) raws (events ++ more) out.1
          ])
      again go (inl text, s') k = tt
      again go (inr more, s') k =
          go more s' (k ∙ ap (replay more) h ∙ sym (replay-append events more from))

  -- Where a run of chunks is handled without a StreamError, a consumer that replays the events it
  -- returned, from the content in front of them, has the content of the accumulated message: no text
  -- and no argument fragment is lost, invented or told for another block.
  pub handle_all-replays :
      (raws : List Chunk) (events : List Event) (s s' : Chat)
      → handle_all (chat_completions texts) raws [] s ≡ (inr events, s')
      → s'.message.content ≡ replay events s.message.content
  handle_all-replays raws events s s' h =
      subst (ToldFrom s.message.content) h (handle_all-ToldFrom s.message.content raws [] s refl)
