-- ===== src/Nanopb/Decode/Tag.antt =====
-- AppChat_Again/Pods/nanopb/pb_decode.c: pb_decode_tag on what stands at the head of a field.
use app_chat_again.Nanopb.Decode.TopBit.{top_bit_set}
use app_chat_again.Prelude.Bits.{bit_and_mask}
use app_chat_again.Nanopb.Varint.{IsContinuation, value, IsVarint}
use app_chat_again.Nanopb.IStream.Buffer.{readbyte-cons, readbyte-end, reader}
use app_chat_again.Nanopb.Types.{end_of_stream, set_error, Message}
use app_chat_again.Nanopb.Decode.{
  decode_varint32_loop, varint32_from, pb_decode_varint32_eof, pb_decode_tag,
}
use app_chat_again.Prelude.{
  and_then, arith, lt→ltb, false, some, ◌++◌, ◌≤◌, length, ◌-◌, ◌+◌, ◌∷◌, ◌^◌, ◌*◌, true, none, ◌≡◌,
  ◌<◌, Option, List, ℕ,
}
use app_chat_again.Nanopb.Decode.Varint32.{pb_decode_varint32_eof-value}

-- The number that a tag is written as.
abbrev pub tag_number : ℕ → ℕ → ℕ
tag_number wire_type tag = tag * 2 ^ 3 + wire_type

-- A tag is read from any varint of up to five bytes that stands for it.
pub pb_decode_tag-value :
    (wire_type tag left : ℕ) (bs input : List ℕ) (err : Option Message)
    → wire_type < 8
    → 0 < tag
    → tag < 2 ^ 29
    → IsVarint bs
    → value bs ≡ tag_number wire_type tag
    → length bs ≤ 5
    → length bs ≤ left
    → pb_decode_tag (reader (bs ++ input) left err)
      ≡ (some (wire_type, tag), reader input (left - length bs) err, false)
unfolding pb_decode_tag
pb_decode_tag-value wire_type tag left bs input err hw pos ht v e n l =
    rw
      (
        pb_decode_varint32_eof-value bs input left err v n l,
        e,
        lt→ltb (tag_number wire_type tag) (2 ^ 32) (omega arith),
        bit_and_mask 3 (tag_number wire_type tag),
      )
      (ground arith)

tag_at_end :
    (input : List ℕ) (err : Option Message)
    → pb_decode_tag (reader input 0 err)
      ≡ (none, reader input 0 (set_error err end_of_stream), true)
unfolding pb_decode_tag pb_decode_varint32_eof
tag_at_end input err = rw (readbyte-end input err)

tag_zero :
    (input : List ℕ) (left : ℕ) (err : Option Message)
    → 0 < left
    → pb_decode_tag (reader (0 ∷ input) left err) ≡ (none, reader input (left - 1) err, true)
unfolding pb_decode_tag pb_decode_varint32_eof
tag_zero input left err l = rw (readbyte-cons input err 0 left l)

tag_cut :
    (b : ℕ) (input : List ℕ) (err : Option Message)
    → IsContinuation b
    → pb_decode_tag (reader (b ∷ input) 1 err)
      ≡ (none, reader input 0 (set_error err end_of_stream), false)
unfolding pb_decode_tag pb_decode_varint32_eof varint32_from decode_varint32_loop
tag_cut b input err (low, high) = rw (
  readbyte-cons input err b 1 (omega arith),
  top_bit_set b low high,
  and_then,
  readbyte-end input err,
)

-- pb_decode_tag fails with `eof` set at the end of the stream and at a zero tag, which only the first
-- reports as an error; where the limit ends behind the first byte of a longer tag, it fails without.
pub pb_decode_tag_ends :
    (b : ℕ) (input : List ℕ) (left : ℕ) (err : Option Message)
    → IsContinuation b
    → 0 < left
    → (pb_decode_tag (reader input 0 err)
        ≡ (none, reader input 0 (set_error err end_of_stream), true))
      × (pb_decode_tag (reader (0 ∷ input) left err) ≡ (none, reader input (left - 1) err, true))
      × (pb_decode_tag (reader (b ∷ input) 1 err)
          ≡ (none, reader input 0 (set_error err end_of_stream), false))
pb_decode_tag_ends b input left err c l =
    (tag_at_end input err, tag_zero input left err l, tag_cut b input err c)
