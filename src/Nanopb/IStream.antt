-- ===== src/Nanopb/IStream.antt =====
-- AppChat_Again/Pods/nanopb/pb_decode.c, the input stream: pb_istream_t, pb_read and its callers'
-- one-byte reader.
pub mod Buffer
pub mod Limit
use app_chat_again.Prelude.{
  ℕ, zero, suc, ◌-◌, Bool, true, false, ◌&&◌, Option, none, some, List, [], ◌∷◌, ltb, ◌==◌,
  if◌then◌else◌, take, drop, get_or, M, and_then,
}
use app_chat_again.Nanopb.Types.{Message, set_error, end_of_stream, io_error}

-- What a callback of the caller does with a request: it fills the buffer, it fails, or it fails
-- at the end of its input and says so by `bytes_left = 0`. `state` is the caller's own.
pub data IoResult : Type 0 where
  transferred : (bytes state : List ℕ) → IoResult
  io_failed : (state : List ℕ) → IoResult
  at_end : (state : List ℕ) → IoResult

-- The callback pointer: `&buf_read`, or a function of the caller that is given the state,
-- `bytes_left` and the count.
pub data Callback : Type 0 where
  buf_read : Callback
  custom : (List ℕ → ℕ → ℕ → IoResult) → Callback

-- pb_istream_t. The state of a buffer stream is the memory from its pointer on.
pub record IStream : Type 0 where
  pub callback : Callback
  pub state : List ℕ
  pub bytes_left : ℕ
  pub errmsg : Option Message

-- Whether a destination is NULL.
pub data Buf : Type 0 where
  null dest : Buf

abbrev pub return_error {ℓ} : {A : Type ℓ} → Message → M IStream A
return_error msg s = (none, record s { errmsg = set_error s.errmsg msg })

-- The bytes that were copied; the state pointer moves behind them.
unfoldable pub buf_read_bytes : ℕ → M IStream (List ℕ)
buf_read_bytes count s = (some (take count s.state), record s { state = drop count s.state })

unfoldable pub after_custom : IoResult → M IStream (List ℕ)
after_custom (transferred bytes state) s = (some bytes, record s { state = state })
after_custom (io_failed state) s = (none, record s { state = state })
after_custom (at_end state) s = (none, record s { state = state; bytes_left = 0 })

-- stream->callback(stream, buf, count)
unfoldable pub call_back : Callback → ℕ → M IStream (List ℕ)
unfolding buf_read_bytes after_custom
call_back buf_read count s = buf_read_bytes count s
call_back (custom f) count s = after_custom (f s.state s.bytes_left count) s

unfoldable pub take_off : ℕ → Option (List ℕ) × IStream → Option (List ℕ) × IStream
take_off count (none, s) = return_error io_error s
take_off count (some bytes, s) = (some bytes, record s { bytes_left = s.bytes_left - count })

-- pb_read behind its test for skipping.
unfoldable pub read_checked : ℕ → M IStream (List ℕ)
unfolding take_off call_back
read_checked count s =
    if ltb s.bytes_left count
    then return_error end_of_stream s
    else take_off count (call_back s.callback count s)

-- `while (count > 16)` with fuel; at fuel 0 the count is at most 16.
unfoldable pub skip_loop : ℕ → ℕ → M IStream (List ℕ)
skip_loop zero count s = read_checked count s
skip_loop (suc fuel) count s =
    let more = and_then (read_checked 16 s) (λ _ s'. skip_loop fuel (count - 16) s') in
    if ltb 16 count then more else read_checked count s

abbrev pub is_null : Buf → Bool
is_null null = true
is_null dest = false

abbrev pub not_buf_read : Callback → Bool
not_buf_read buf_read = false
not_buf_read (custom f) = true

-- The answer holds the bytes that were stored at `buf`; a skip's answer is not read.
unfoldable pub pb_read : Buf → ℕ → M IStream (List ℕ)
unfolding read_checked skip_loop
pb_read buf count s =
    if is_null buf && not_buf_read s.callback then skip_loop count count s else read_checked count s

unfoldable pub take_byte : Option (List ℕ) × IStream → Option ℕ × IStream
take_byte (none, s) = return_error io_error s
take_byte (some bytes, s) = (some (get_or bytes 0 0), record s { bytes_left = s.bytes_left - 1 })

unfoldable pub pb_readbyte : M IStream ℕ
unfolding take_byte call_back
pb_readbyte s =
    if s.bytes_left == 0 then return_error end_of_stream s else take_byte (call_back s.callback 1 s)

unfoldable pub pb_istream_from_buffer : List ℕ → ℕ → IStream
pb_istream_from_buffer buf bufsize = record {
  callback = buf_read;
  state = buf;
  bytes_left = bufsize;
  errmsg = none;
}
