-- ===== src/Nanopb/Encode.antt =====
-- AppChat_Again/Pods/nanopb/pb_encode.c: the integers, tags and strings of the encoder.
pub mod Varint
use app_chat_again.Prelude.{
  ℕ, zero, suc, ◌+◌, ◌-◌, ◌*◌, ◌/◌, ◌%◌, ◌^◌, bit_and, bit_or, Bool, true, false, ◌||◌, Option,
  none, some, List, [], ◌∷◌, ltb, leb, ◌==◌, if◌then◌else◌, get_or, set, length, M, and_then, ◌>>◌,
}
use app_chat_again.Prelude.Words.{u8, u64}
use app_chat_again.Nanopb.Types.{Field, pb_ltype, invalid_field_type}
use app_chat_again.Nanopb.Types.Wt
use app_chat_again.Nanopb.Types.Ltype
use app_chat_again.Nanopb.OStream.{OStream, return_error, pb_write}

-- The loop `while (value)` of pb_encode_varint: the bytes that it stores in its buffer of ten.
unfoldable pub varint_groups : ℕ → ℕ → List ℕ
varint_groups zero value = []
varint_groups (suc rounds) value =
    let rest = varint_groups rounds (value / 2 ^ 7) in
    if value == 0 then [] else (u8 (bit_or (bit_and value 0x7F) 0x80) ∷ rest)

-- `buffer[i-1] &= 0x7F`
unfoldable pub clear_last : List ℕ → List ℕ
clear_last buffer =
    let last = length buffer - 1 in set buffer last (bit_and (get_or buffer last 0) 0x7F)

unfoldable pub varint_buffer : ℕ → List ℕ
unfolding varint_groups clear_last
varint_buffer value = if leb value 0x7F then u8 value ∷ [] else clear_last (varint_groups 10 value)

unfoldable pub pb_encode_varint : ℕ → M OStream (Unit {0})
unfolding varint_buffer
pb_encode_varint value = pb_write (varint_buffer value) (length (varint_buffer value))

-- `value` is the bits of an int64_t; `~x` is `2^64 - 1 - x`.
unfoldable pub zigzag : ℕ → ℕ
zigzag value = if leb (2 ^ 63) value then 2 ^ 64 - 1 - u64 (value * 2) else u64 (value * 2)

unfoldable pub pb_encode_svarint : ℕ → M OStream (Unit {0})
pb_encode_svarint value = pb_encode_varint (zigzag value)

-- `val & 0xFF`, `(val >> 8) & 0xFF` and so on.
unfoldable pub to_bytes : ℕ → ℕ → List ℕ
to_bytes zero val = []
to_bytes (suc n) val = bit_and val 0xFF ∷ to_bytes n (val / 2 ^ 8)

unfoldable pub pb_encode_fixed32 : ℕ → M OStream (Unit {0})
pb_encode_fixed32 val = pb_write (to_bytes 4 val) 4

unfoldable pub pb_encode_fixed64 : ℕ → M OStream (Unit {0})
pb_encode_fixed64 val = pb_write (to_bytes 8 val) 8

unfoldable pub pb_encode_tag : ℕ → ℕ → M OStream (Unit {0})
pb_encode_tag wiretype field_number =
    pb_encode_varint (bit_or (u64 (field_number * 2 ^ 3)) wiretype)

-- The switch of pb_encode_tag_for_field; `none` is its default.
unfoldable pub wiretype_of : ℕ → Option ℕ
wiretype_of ltype =
    if ltype == Ltype.varint || ltype == Ltype.uvarint || ltype == Ltype.svarint
    then some Wt.varint
    else if ltype == Ltype.fixed32
    then some Wt.bits32
    else if ltype == Ltype.fixed64
    then some Wt.bits64
    else if ltype == Ltype.bytes
        || ltype == Ltype.string
        || ltype == Ltype.submessage
        || ltype == Ltype.fixed_length_bytes
    then some Wt.string
    else none

unfoldable pub pb_encode_tag_for_field : Field → M OStream (Unit {0})
unfolding wiretype_of
pb_encode_tag_for_field field s = elim (wiretype_of (pb_ltype field.type)) [
  | none ↦ return_error invalid_field_type s
  | some wiretype ↦ pb_encode_tag wiretype field.tag s
]

unfoldable pub pb_encode_string : List ℕ → ℕ → M OStream (Unit {0})
pb_encode_string buffer size = do pb_encode_varint size; pb_write buffer size
