-- ===== src/Client/OpenAi/Placing.antt =====
-- The operations of client/transports/openai/streamer.py, by the indices of blocks that they keep and
-- that their events name.
use luca_py.Base.{
  ℕ, String, ◌≡◌, sym, subst, inl, inr, Option, none, some, List, [], ◌∷◌, ◌++◌, All, All-map,
  All-append, length, if-P, Bool-cases,
}
use luca_py.Client.Streamer.{finish_event, handle_all}
use luca_py.Client.Blocks.{Block, block_of, extend_text, extend_arguments, modify}
use luca_py.Client.OpenAi.{
  Chunk, Texts, Event, Chat, Handled, ◌⨾◌, tell, raises, set_content, set_own,
}
use luca_py.Client.OpenAi.Handlers.{
  append_block, start_call, add_arguments, complete_call, count_usage, set_stop_reason, announce,
  new_call,
}
use luca_py.Client.OpenAi.Laws.{IsLaw, Gives}
use luca_py.Client.OpenAi.ChunkLaws.{handle_open-Holds}
use luca_py.Client.OpenAi.WireClass.{
  wire_end, handle_wire_end, handle, without_error, chat_completions,
}
use luca_py.Client.OpenAi.Standing.{
  class_at, class_of_kind, Placed, IsIndexed, Indexed, Grows, class_at-append_left, class_at-length,
  class_at-modify, class_at-replace, extend_text-class, extend_arguments-class, IsIndexed-Grows,
  Placed-Grows, All-assign, Grows-refl, index_at, set_index-IsIndexed, block_at, start_of-Stands,
  delta_of-Stands, end_of-Stands, Class,
}

-- What an operation makes of a streamer whose indices are right.
abbrev Settles : Chat → List Event → Chat → Type 0
Settles s es t =
    Indexed t × Grows s.message.content t.message.content × All (Placed t.message.content) es

abbrev Raises : Chat → Chat → Type 0
Raises s t = Unit {0}

abbrev IsCallAt : ℕ → Chat → Type 0
IsCallAt i s = class_at s.message.content i ≡ some Class.call

Settles-IsLaw : IsLaw Settles Raises Indexed IsCallAt
unfolding ◌⨾◌ tell raises set_content set_own append_block start_call add_arguments complete_call
    count_usage set_stop_reason announce
Settles-IsLaw = record {
  onward = λ s t es i r. r.0;
  kept = λ s t es n r p. r.1 n Class.call p;
  listed = λ s i. i.3;
  still = λ s i. (i, Grows-refl s.message.content, tt);
  joined = λ s t u es fs h k. (
    k.0,
    λ i c p. k.1 i c (h.1 i c p),
    All-append (Placed u.message.content) es fs
        (All-map _ _ es (λ e. Placed-Grows t.message.content u.message.content e k.1) h.2) k.2,
  );
  failed = λ s t u es h k. tt;
  raised = λ text s i. tt;
  noted = λ f modest s i. (
    subst (λ own. IsIndexed own s.message.content) (sym (modest s.own)) i,
    Grows-refl s.message.content,
    tt,
  );
  forgot = λ kind s i. (
    set_index-IsIndexed kind none s.own s.message.content i tt,
    Grows-refl s.message.content,
    tt,
  );
  cleared = λ s i. ((i.0, i.1, i.2, tt), Grows-refl s.message.content, tt);
  reasoned = λ reason s i. (i, Grows-refl s.message.content, tt);
  announced = λ s i. elim (Bool-cases s.own.started) [
    | inl h ↦ rw h (i, Grows-refl s.message.content, tt)
    | inr h ↦ rw h (i, Grows-refl s.message.content, (tt, tt))
  ];
  counted = λ u s i. (i, Grows-refl s.message.content, (tt, tt));
  opened = λ kind s e i.
      let c = s.message.content in
      let d = c ++ block_of kind "" ∷ [] in
      let g = class_at-append_left c (block_of kind "" ∷ []) in
      (
        set_index-IsIndexed kind (some (length c)) s.own d (IsIndexed-Grows s.own c d g i)
            (block_at kind c),
        g,
        (start_of-Stands kind (length c) d (block_at kind c), tt),
      );
  extended = λ kind t n s e i.
      let c = s.message.content in
      let d = modify (extend_text t) n c in
      let g = class_at-modify (extend_text t) (extend_text-class t) n c in
      (
        IsIndexed-Grows s.own c d g i,
        g,
        (delta_of-Stands kind n t d (g n (class_of_kind kind) (index_at kind n s.own c i e)), tt),
      );
  ended = λ kind n t s e i.
      let c = s.message.content in
      (i, Grows-refl c, (end_of-Stands kind n t c (index_at kind n s.own c i e), tt));
  started = λ k id name s i.
      let c = s.message.content in
      let b = Block.tool_call (new_call id name) in
      let g = class_at-append_left c (b ∷ []) in
      let j = IsIndexed-Grows s.own c (c ++ b ∷ []) g i in
      (
        (
          j.0,
          j.1,
          j.2,
          All-assign (λ n. class_at (c ++ b ∷ []) n ≡ some Class.call) k (length c)
              s.own.tool_indices j.3 (class_at-length c b),
        ),
        g,
        (class_at-length c b, tt),
      );
  born = λ k id name s. class_at-length s.message.content (Block.tool_call (new_call id name));
  added = λ n t s p i.
      let c = s.message.content in
      let g = class_at-modify (extend_arguments t) (extend_arguments-class t) n c in
      (IsIndexed-Grows s.own c (modify (extend_arguments t) n c) g i, g, (g n Class.call p, tt));
  completed = λ n call s p i.
      let c = s.message.content in
      let g = class_at-replace (Block.tool_call call) n c p in
      (
        IsIndexed-Grows s.own c (modify (λ b. Block.tool_call call) n c) g i,
        g,
        (g n Class.call p, tt),
      );
}

wire_end-Settles :
    (reason : Option String) (s : Chat)
    → Indexed s
    → Gives Settles Raises Indexed IsCallAt s (without_error (wire_end reason s))
unfolding finish_event
wire_end-Settles none s i = (i, Grows-refl s.message.content, tt)
wire_end-Settles (some reason) s i = (i, Grows-refl s.message.content, (tt, tt))

module _ (texts : Texts) where
  handle-Settles :
      (chunk : Chunk) (s : Chat)
      → Indexed s
      → Gives Settles Raises Indexed IsCallAt s (handle texts chunk s)
  unfolding handle handle_wire_end
  handle-Settles chunk s i =
      if-P (Gives Settles Raises Indexed IsCallAt s) chunk.done (wire_end-Settles s.stop_reason s i)
        (handle_open-Holds Settles Raises Indexed IsCallAt Settles-IsLaw texts chunk.error chunk s
          i)

  abbrev AllPlaced : Handled → Type 0
  AllPlaced (inl reason, s) = Unit {0}
  AllPlaced (inr events, s) = Indexed s × All (Placed s.message.content) events

  all_placed :
      (raws : List Chunk) (events : List Event) (s : Chat)
      → Indexed s
      → All (Placed s.message.content) events
      → AllPlaced (handle_all (chat_completions texts) raws events s)
  unfolding handle_all
  all_placed [] events s i h = (i, h)
  all_placed (raw ∷ raws) events s i h =
      again (λ more t. all_placed raws (events ++ more) t) (handle texts raw s)
        (handle-Settles raw s i)
    where
      again :
          ((more : List Event) (t : Chat)
            → Indexed t
            → All (Placed t.message.content) (events ++ more)
            → AllPlaced (handle_all (chat_completions texts) raws (events ++ more) t))
          → (out : Handled) → Gives Settles Raises Indexed IsCallAt s out
          → AllPlaced (elim out.0 [
            | inl reason ↦ (inl reason, out.1)
            | inr more ↦ handle_all (chat_completions texts) raws (events ++ more) out.1
          ])
      again go (inl reason, t) k = tt
      again go (inr more, t) k = go more t k.0 (
          All-append (Placed t.message.content) events more
            (All-map _ _ events (λ e. Placed-Grows s.message.content t.message.content e k.1) h)
            k.2)

  -- Where each index that the streamer keeps names a block of its class in the message, and a run of
  -- chunks is handled without a StreamError: each still does, and every start, delta and end event of
  -- the run names a block of its class that stands in the message.
  pub handle_all-Placed :
      (raws : List Chunk) (events : List Event) (s s' : Chat)
      → Indexed s
      → handle_all (chat_completions texts) raws [] s ≡ (inr events, s')
      → Indexed s' × All (Placed s'.message.content) events
  handle_all-Placed raws events s s' i h = subst AllPlaced h (all_placed raws [] s i tt)
