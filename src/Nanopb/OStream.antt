-- ===== src/Nanopb/OStream.antt =====
-- AppChat_Again/Pods/nanopb/pb_encode.c, the output stream: pb_ostream_t and pb_write.
pub mod Buffer
use app_chat_again.Prelude.{
  ℕ, ◌+◌, Bool, true, false, Option, none, some, List, [], ◌++◌, ltb, if◌then◌else◌, take, M,
}
use app_chat_again.Prelude.Words.{u64}
use app_chat_again.Nanopb.Types.{Message, set_error, stream_full, io_error}

-- The callback pointer: NULL for a stream that only counts, `&buf_write`, or a function of the
-- caller that is given its state and the bytes, and answers with its new state.
pub data Callback : Type 0 where
  sizing : Callback
  buf_write : Callback
  custom : (List ℕ → List ℕ → Bool × List ℕ) → Callback

-- pb_ostream_t. The state of a buffer stream is what stands in its buffer before the pointer.
pub record OStream : Type 0 where
  pub callback : Callback
  pub state : List ℕ
  pub max_size : ℕ
  pub bytes_written : ℕ
  pub errmsg : Option Message

abbrev pub return_error {ℓ} : {A : Type ℓ} → Message → M OStream A
return_error msg s = (none, record s { errmsg = set_error s.errmsg msg })

abbrev pub is_sizing : Callback → Bool
is_sizing sizing = true
is_sizing buf_write = false
is_sizing (custom f) = false

unfoldable pub pb_ostream_from_buffer : ℕ → OStream
pb_ostream_from_buffer bufsize = record {
  callback = buf_write;
  state = [];
  max_size = bufsize;
  bytes_written = 0;
  errmsg = none;
}

-- PB_OSTREAM_SIZING
unfoldable pub pb_ostream_sizing : OStream
pb_ostream_sizing = record {
  callback = sizing;
  state = [];
  max_size = 0;
  bytes_written = 0;
  errmsg = none;
}

abbrev pub count_bytes : ℕ → M OStream (Unit {0})
count_bytes count s = (some tt, record s { bytes_written = u64 (s.bytes_written + count) })

-- Copies `count` bytes to the pointer and moves it.
unfoldable pub buf_write_bytes : List ℕ → ℕ → OStream → OStream
buf_write_bytes buf count s = record s { state = s.state ++ take count buf }

unfoldable pub after_custom : ℕ → Bool × List ℕ → M OStream (Unit {0})
after_custom count (true, state) s = count_bytes count (record s { state = state })
after_custom count (false, state) s = return_error io_error (record s { state = state })

-- stream->callback(stream, buf, count), and what follows.
unfoldable pub write_back : Callback → List ℕ → ℕ → M OStream (Unit {0})
unfolding buf_write_bytes after_custom
write_back sizing buf count s = count_bytes count s
write_back buf_write buf count s = count_bytes count (buf_write_bytes buf count s)
write_back (custom f) buf count s = after_custom count (f s.state (take count buf)) s

unfoldable pub pb_write : List ℕ → ℕ → M OStream (Unit {0})
unfolding write_back
pb_write buf count s =
    if is_sizing s.callback
    then count_bytes count s
    else if ltb s.max_size (u64 (s.bytes_written + count))
    then return_error stream_full s
    else write_back s.callback buf count s
