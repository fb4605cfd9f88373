-- ===== src/Nanopb/RoundTrip/Fields.antt =====
-- AppChat_Again/Pods/nanopb: tags and length-delimited data, as pb_encode.c writes them and
-- pb_decode.c reads and skips them.
use app_chat_again.Nanopb.IStream.Buffer.{reader}
use app_chat_again.Nanopb.Varint.{value-varint, varint-IsVarint, length-varint_lt}
use app_chat_again.Prelude.Bits.{bit_or_disjoint, bit_or_comm}
use app_chat_again.Nanopb.Decode.{pb_decode_tag}
use app_chat_again.Nanopb.OStream.Buffer.{write-fits, writer}
use app_chat_again.Prelude.Words.{u64}
use app_chat_again.Nanopb.Types.{Message}
use app_chat_again.Nanopb.Encode.{wiretype_of, pb_encode_tag, pb_encode_string}
use app_chat_again.Prelude.{
  ap, length-append, append_assoc, refl, false, ◌-◌, and_then, ◌∙◌, arith, ◌++◌, ◌*◌, length, ◌+◌,
  bit_or, ◌↔◌, ◌≢◌, some, ◌^◌, Option, ◌⊎◌, ◌≤◌, ◌≡◌, List, ◌<◌, ℕ,
}
use app_chat_again.Nanopb.RoundTrip.{
  value-varint, varint-IsVarint, reader, writer, varint, Message, ℕ, pb_encode_varint-varint,
}
use app_chat_again.Nanopb.Decode.Tag.{pb_decode_tag-value, tag_number}
use app_chat_again.Nanopb.Decode.Skip.{Payload, string_payload}
use app_chat_again.Nanopb.Types.Wt
use app_chat_again.Nanopb.Types.Ltype

tag_bits :
    (wire_type tag : ℕ)
    → wire_type < 8
    → tag < 2 ^ 29
    → bit_or (u64 (tag * 2 ^ 3)) wire_type ≡ tag_number wire_type tag
tag_bits wire_type tag h k =
    rw (exact)
      (bit_or_comm (tag * 2 ^ 3) wire_type ∙ bit_or_disjoint 3 wire_type tag h ∙ omega arith)
  where
    exact : u64 (tag * 2 ^ 3) ≡ tag * 2 ^ 3
    exact = omega arith

-- The tag of a field number from 1 below 2 ^ 29 is written by pb_encode_tag as a varint of at most
-- five bytes where the buffer has room for five, and pb_decode_tag reads the wire type and the number
-- from it.
pub tag_round_trip :
    (wire_type tag max written left : ℕ) (out input : List ℕ) (err : Option Message)
    → wire_type < 8
    → 0 < tag
    → tag < 2 ^ 29
    → written + 5 ≤ max
    → max < 2 ^ 64
    → 5 ≤ left
    → (let bytes = varint 9 (tag_number wire_type tag) in
        (pb_encode_tag wire_type tag (writer out max written err)
          ≡ (some tt, writer (out ++ bytes) max (written + length bytes) err))
        × (pb_decode_tag (reader (bytes ++ input) left err)
            ≡ (some (wire_type, tag), reader input (left - length bytes) err, false))
        × (length bytes ≤ 5))
unfolding pb_encode_tag
tag_round_trip wire_type tag max written left out input err hw pos ht fits m l =
    let short = length-varint_lt 4 9 (tag_number wire_type tag) (omega arith) in
    (
      rw (tag_bits wire_type tag hw ht) (
          pb_encode_varint-varint (tag_number wire_type tag) max written out err (omega arith)
            (omega arith) m),
      pb_decode_tag-value wire_type tag left _ input err hw pos ht
          (varint-IsVarint 9 (tag_number wire_type tag) (omega arith))
          (value-varint 9 (tag_number wire_type tag) (omega arith)) short (omega arith),
      short,
    )

-- The wire type that the encoder writes for a field's type is that of the data which its encoder
-- produces: numbers as varints, 4 and 8 bytes, and all else behind a length.
abbrev pub WireTypeOf : ℕ → ℕ → Type 0
WireTypeOf ltype wire_type =
    ((ltype ≤ Ltype.svarint) × (wire_type ≡ Wt.varint))
    ⊎ ((ltype ≡ Ltype.fixed32) × (wire_type ≡ Wt.bits32))
    ⊎ ((ltype ≡ Ltype.fixed64) × (wire_type ≡ Wt.bits64))
    ⊎ ((ltype ≢ Ltype.extension)
        × (Ltype.bytes ≤ ltype)
        × (ltype ≤ Ltype.fixed_length_bytes)
        × (wire_type ≡ Wt.string))

-- The switch of pb_encode_tag_for_field finds the wire type of the field's type, for every field type
-- but extensions and the unused numbers, and no other.
pub wiretype_of_iff :
    (ltype wire_type : ℕ) → (wiretype_of ltype ≡ some wire_type) ↔ WireTypeOf ltype wire_type
unfolding wiretype_of
wiretype_of_iff ltype wire_type = (λ h. ground arith, λ h. ground arith)

-- Where the buffer has room, pb_encode_string writes a string of less than 2 ^ 32 bytes as the
-- varint of its length and its bytes, which is a payload of its wire type.
pub pb_encode_string-writer :
    (buffer out : List ℕ) (max written : ℕ) (err : Option Message)
    → length buffer < 2 ^ 32
    → written + 5 + length buffer ≤ max
    → max < 2 ^ 64
    → (let bytes = varint 9 (length buffer) ++ buffer in
        (pb_encode_string buffer (length buffer) (writer out max written err)
          ≡ (some tt, writer (out ++ bytes) max (written + length bytes) err))
        × Payload Wt.string bytes)
unfolding pb_encode_string
pb_encode_string-writer buffer out max written err h fits m =
    let short = length-varint_lt 4 9 (length buffer) (omega arith) in
    (
      rw
          (
            pb_encode_varint-varint (length buffer) max written out err (omega arith) (omega arith)
                m,
            and_then,
            write-fits (out ++ varint 9 (length buffer)) buffer max
                (written + length (varint 9 (length buffer))) err (omega arith) m,
            append_assoc out (varint 9 (length buffer)) buffer,
            length-append (varint 9 (length buffer)) buffer,
          )
          (ap (λ n. (some tt, writer (out ++ (varint 9 (length buffer) ++ buffer)) max n err))
            (omega arith)),
      string_payload (varint 9 (length buffer)) buffer refl
          (varint-IsVarint 9 (length buffer) (omega arith)) short
          (value-varint 9 (length buffer) (omega arith)) h,
    )
