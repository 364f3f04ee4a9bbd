-- ===== src/Tests/StreamerCases.antt =====
-- The iteration of client/transports/streamer.py over a wire whose chunks are the events.
use luca_py.Base.{ℕ, String, ◌≡◌, refl, inl, inr, true, false, none, some, [], ◌∷◌}
use luca_py.Client.Streamer.{
  Message, Streamer, Wire, Round, Read, start, other, finish, error, chunk, wire_end, handle_chunk,
  handle_all, error_event, emit, next, read_loop, timeout,
}
use luca_py.Client.Streamer.Lines.{done}
use luca_py.Client.Streamer.Narration.{IsNarrator}
use luca_py.Client.Streamer.Ending.{pulls, Begins, Tells, pulls-Narrates}

abbrev Text : Type 0
Text = Streamer String ℕ ℕ (Unit {0})

abbrev empty_message : Message ℕ ℕ
empty_message = record {
  content = 0;
  finish_reason = none;
  provider_finish_reason = none;
  error_message = none;
  cancelled = false;
  usage = none;
}

abbrev echo : Wire String ℕ ℕ (Unit {0}) String String
echo = record {
  parse = λ c. inr (c ∷ []);
  handle = λ raw s. (inr (other raw ∷ []), s);
  handle_wire_end = λ s. (finish s.message ∷ [], record s { finished = true });
  leaks = λ c. false;
  finishing = record { classify_finish = λ reason m. (some reason, none); no_usage = 0 };
}

abbrev entered : Text
entered = record {
  message = empty_message;
  usage = none;
  stop_reason = none;
  finish_reason = none;
  is_entered = true;
  pending = [];
  finished = false;
  emitted_start = false;
  own = tt;
}

abbrev reads : Read String → Round String
reads read = record {
  expired = false;
  cancelled = false;
  read = read;
  expired_after = false;
  cancelled_after = false;
}

echo-IsNarrator : IsNarrator echo
unfolding handle_chunk handle_all
echo-IsNarrator = record {
  chunks = λ c s going. (inl ((refl, tt), going), (refl, refl, refl));
  ends = λ s going. (refl, (refl, refl, refl));
}

pulls-Narrates_example :
    Begins echo false (pulls echo 9 (reads (chunk "hi") ∷ reads wire_end ∷ []) entered)
    × Tells echo (pulls echo 9 (reads (chunk "hi") ∷ reads wire_end ∷ []) entered)
pulls-Narrates_example =
    pulls-Narrates echo echo-IsNarrator entered refl refl refl refl 9
      (reads (chunk "hi") ∷ reads wire_end ∷ [])

-- A whole stream, and one that the deadline cuts in front of its first read.
whole_stream :
    pulls echo 9 (reads (chunk "hi") ∷ reads wire_end ∷ []) entered
    ≡ (start ∷ other "hi" ∷ finish empty_message ∷ [], done)
unfolding pulls next read_loop handle_chunk handle_all emit
whole_stream = refl

cut_stream :
    pulls echo 9 (record (reads wire_end) { expired = true } ∷ []) entered
    ≡ (start ∷ error timeout none ∷ [], done)
unfolding pulls next read_loop error_event emit
cut_stream = refl
