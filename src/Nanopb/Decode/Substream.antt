-- ===== src/Nanopb/Decode/Substream.antt =====
-- AppChat_Again/Pods/nanopb/pb_decode.c: pb_make_string_substream and pb_close_string_substream.
use app_chat_again.Nanopb.IStream.Buffer.{read-append, reader}
use app_chat_again.Nanopb.Varint.{value, IsVarint}
use app_chat_again.Nanopb.Types.{parent_stream_too_short, set_error, Message}
use app_chat_again.Prelude.{
  refl, le→ltb, and_then, lt→ltb, suc, arith, ◌-◌, none, ◌+◌, ◌^◌, [], ◌<◌, some, ◌≡◌, ◌≤◌, ◌++◌,
  length, Option, ℕ, List,
}
use app_chat_again.Nanopb.Decode.{
  parent_stream_too_short, ◌∷◌, List, pb_close_string_substream, pb_make_string_substream,
}
use app_chat_again.Nanopb.IStream.{null}
use app_chat_again.Nanopb.Decode.Varint32.{pb_decode_varint32-value}

-- Where a length of up to five bytes and the body lie within the limit, pb_make_string_substream
-- answers a substream that covers the body, and the stream keeps the rest of the limit; both stand
-- at the body.
pub pb_make_string_substream-body :
    (len body input : List ℕ) (left : ℕ) (err : Option Message)
    → IsVarint len
    → length len ≤ 5
    → value len ≡ length body
    → length body < 2 ^ 32
    → length len + length body ≤ left
    → pb_make_string_substream (reader (len ++ (body ++ input)) left err) ≡ (
      some (reader (body ++ input) (length body) err),
      reader (body ++ input) (left - length len - length body) err,
    )
unfolding pb_make_string_substream
pb_make_string_substream-body len body input left err v n e h l = rw (
  pb_decode_varint32-value len (body ++ input) left err v n (omega arith),
  e,
  lt→ltb (length body) (2 ^ 32) h,
  and_then,
  le→ltb (left - length len) (length body) (omega arith),
)

-- pb_make_string_substream refuses a field that claims to be longer than the limit, and the stream
-- is left behind the length.
pub pb_make_string_substream-short :
    (len input : List ℕ) (left : ℕ) (err : Option Message)
    → IsVarint len
    → length len ≤ 5
    → length len ≤ left
    → value len < 2 ^ 32
    → left < length len + value len
    → pb_make_string_substream (reader (len ++ input) left err)
      ≡ (none, reader input (left - length len) (set_error err parent_stream_too_short))
unfolding pb_make_string_substream
pb_make_string_substream-short len input left err v n l h short = rw (
  pb_decode_varint32-value len input left err v n l,
  lt→ltb (value len) (2 ^ 32) h,
  and_then,
  lt→ltb (left - length len) (value len) (omega arith),
)

-- pb_close_string_substream skips what the substream has not read: wherever in the body it stands,
-- the stream goes on behind the body, with its own limit and the substream's message.
pub pb_close_string_substream-rest :
    (rest input behind : List ℕ) (left : ℕ) (err sub_err : Option Message)
    → pb_close_string_substream
        (reader (rest ++ input) (length rest) sub_err)
        (reader behind left err)
      ≡ (some tt, reader input left sub_err)
unfolding pb_close_string_substream
pb_close_string_substream-rest [] input behind left err sub_err = refl
pb_close_string_substream-rest (b ∷ bs) input behind left err sub_err =
    rw (read-append null (b ∷ bs) input (suc (length bs)) sub_err (omega arith)) (ground arith)
