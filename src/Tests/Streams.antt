-- ===== src/Tests/Streams.antt =====
-- pb_decode.c and pb_encode.c: streams, skipping, substreams and strings at concrete inputs.
use app_chat_again.Nanopb.RoundTrip.Fields.{pb_encode_string-writer}
use app_chat_again.Nanopb.Decode.Substream.{
  pb_make_string_substream-short, pb_close_string_substream-rest, pb_make_string_substream-body,
}
use app_chat_again.Nanopb.Decode.Skip.{string_payload, Payload, pb_skip_field-Payload}
use app_chat_again.Nanopb.IStream.Limit.{pb_read-Takes, pb_readbyte-Takes, Takes}
use app_chat_again.Prelude.{
  arith, drop, refl, length, leb, some, if◌then◌else◌, ◌≡◌, none, ℕ, [], replicate, List, ◌∷◌,
}
use app_chat_again.Nanopb.Decode.{
  pb_skip_field, pb_make_string_substream, pb_close_string_substream,
}
use app_chat_again.Nanopb.Encode.{pb_encode_string}
use app_chat_again.Nanopb.IStream.{
  after_custom, call_back, take_off, read_checked, skip_loop, IStream, IoResult, custom,
  transferred, at_end, null, pb_read, pb_readbyte,
}
use app_chat_again.Nanopb.IStream.Buffer.{reader}
use app_chat_again.Nanopb.OStream.Buffer.{writer}
use app_chat_again.Nanopb.Types.{parent_stream_too_short}
use app_chat_again.Nanopb.Varint.{varint}
use app_chat_again.Nanopb.Types.Wt

pb_skip_field-Payload_example :
    pb_skip_field Wt.string (reader (2 ∷ 8 ∷ 8 ∷ 9 ∷ []) 4 none) ≡ (some tt, reader (9 ∷ []) 1 none)
pb_skip_field-Payload_example =
    pb_skip_field-Payload Wt.string 4 (2 ∷ 8 ∷ 8 ∷ []) (9 ∷ []) none
      (string_payload (2 ∷ []) (8 ∷ 8 ∷ []) refl (omega arith) (omega arith) refl (omega arith))
      (omega arith)

pb_make_string_substream-body_example :
    pb_make_string_substream (reader (2 ∷ 8 ∷ 8 ∷ 9 ∷ []) 4 none)
    ≡ (some (reader (8 ∷ 8 ∷ 9 ∷ []) 2 none), reader (8 ∷ 8 ∷ 9 ∷ []) 1 none)
pb_make_string_substream-body_example =
    pb_make_string_substream-body (2 ∷ []) (8 ∷ 8 ∷ []) (9 ∷ []) 4 none (omega arith) (omega arith)
      refl (omega arith) (omega arith)

pb_make_string_substream-short_example :
    pb_make_string_substream (reader (5 ∷ 8 ∷ 8 ∷ 9 ∷ []) 4 none)
    ≡ (none, reader (8 ∷ 8 ∷ 9 ∷ []) 3 (some parent_stream_too_short))
pb_make_string_substream-short_example =
    pb_make_string_substream-short (5 ∷ []) (8 ∷ 8 ∷ 9 ∷ []) 4 none (omega arith) (omega arith)
      (omega arith) (omega arith) (omega arith)

pb_close_string_substream-rest_example :
    pb_close_string_substream (reader (8 ∷ 9 ∷ []) 1 none) (reader (8 ∷ 8 ∷ 9 ∷ []) 1 none)
    ≡ (some tt, reader (9 ∷ []) 1 none)
pb_close_string_substream-rest_example =
    pb_close_string_substream-rest (8 ∷ []) (9 ∷ []) (8 ∷ 8 ∷ 9 ∷ []) 1 none none

pb_encode_string-writer_example :
    (pb_encode_string (8 ∷ 8 ∷ []) 2 (writer [] 16 0 none)
      ≡ (some tt, writer (2 ∷ 8 ∷ 8 ∷ []) 16 3 none))
    × Payload Wt.string (2 ∷ 8 ∷ 8 ∷ [])
unfolding varint
pb_encode_string-writer_example =
    pb_encode_string-writer (8 ∷ 8 ∷ []) [] 16 0 none (omega arith) (omega arith) (omega arith)

-- A callback that hands out zeros, up to 16 at a time, as its state still has cells for.
abbrev zeros : List ℕ → ℕ → ℕ → IoResult
zeros state bytes_left count =
    if leb count (length state)
    then transferred (replicate count 0) (drop count state)
    else at_end []

abbrev zero_stream : IStream
zero_stream = record {
  callback = custom zeros;
  state = replicate 30 1;
  bytes_left = 40;
  errmsg = none;
}

-- The second piece of 16 fails at the end of the callback's input.
skip_in_pieces : (pb_read null 32 zero_stream).1.bytes_left ≡ 0
unfolding pb_read skip_loop read_checked take_off call_back after_custom
skip_in_pieces = refl

pb_read-Takes_example : Takes 20 zero_stream (pb_read null 20 zero_stream)
pb_read-Takes_example = pb_read-Takes null 20 zero_stream

pb_readbyte-Takes_example : Takes 1 zero_stream (pb_readbyte zero_stream)
pb_readbyte-Takes_example = pb_readbyte-Takes zero_stream
