-- ===== src/Nanopb/Decode.antt =====
-- AppChat_Again/Pods/nanopb/pb_decode.c: the integers, tags, skipping and substreams of the decoder.
pub mod TopBit
pub mod Varint64
pub mod Varint32
pub mod Overlong
pub mod Tag
pub mod Skip
pub mod Substream
use app_chat_again.Prelude.{
  ℕ, zero, suc, ◌+◌, ◌-◌, ◌*◌, ◌/◌, ◌^◌, bit_and, bit_or, Bool, true, false, not, ◌&&◌, ◌||◌,
  Option, none, some, List, [], ◌∷◌, ltb, leb, ◌==◌, if◌then◌else◌, get_or, M, pure, and_then,
  ◌>>=◌,
}
use app_chat_again.Prelude.Words.{u8, u32, u64}
use app_chat_again.Nanopb.Types.{varint_overflow, invalid_wire_type, parent_stream_too_short}
use app_chat_again.Nanopb.Types.Wt
use app_chat_again.Nanopb.IStream.{IStream, null, dest, return_error, pb_read, pb_readbyte}

-- `byte & 0x80`: another byte follows.
abbrev pub more_follows : ℕ → Bool
more_follows byte = not (bit_and byte 0x80 == 0)

-- `result |= (uint64_t)(byte & 0x7F) << bitpos`
abbrev pub add_bits64 : ℕ → ℕ → ℕ → ℕ
add_bits64 result byte bitpos = bit_or result (u64 (bit_and byte 0x7F * 2 ^ bitpos))

-- The loop of pb_decode_varint. Its eleventh round, at bit 70, only reports the overflow.
unfoldable pub decode_varint_loop : ℕ → ℕ → ℕ → M IStream ℕ
decode_varint_loop zero bitpos result s = return_error varint_overflow s
decode_varint_loop (suc rounds) bitpos result s =
    if leb 64 bitpos
    then return_error varint_overflow s
    else and_then (pb_readbyte s) λ byte s'.
      let result' = add_bits64 result byte bitpos in
      let more = decode_varint_loop rounds (u8 (bitpos + 7)) result' s' in
      if more_follows byte then more else (some result', s')

unfoldable pub pb_decode_varint : M IStream ℕ
unfolding decode_varint_loop
pb_decode_varint s = decode_varint_loop 10 0 0 s

-- Bytes from bit 32 on carry no value: they are empty, or the sign of a negative number.
unfoldable pub fits_varint32 : ℕ → ℕ → ℕ → Bool
fits_varint32 bitpos result byte =
    let sign_extension = if ltb bitpos 63 then 0xFF else 0x01 in
    not (not (bit_and byte 0x7F == 0) && (result / 2 ^ 31 == 0 || not (byte == sign_extension)))

-- `none` is the overflow.
unfoldable pub add_bits32 : ℕ → ℕ → ℕ → Option ℕ
unfolding fits_varint32
add_bits32 bitpos result byte =
    if leb 32 bitpos
    then if fits_varint32 bitpos result byte then some result else none
    else some (bit_or result (u32 (bit_and byte 0x7F * 2 ^ bitpos)))

-- Behind the loop of pb_decode_varint32_eof.
unfoldable pub check_last : ℕ → ℕ → ℕ → M IStream ℕ
check_last bitpos byte result s =
    if bitpos == 35 && not (bit_and byte 0x70 == 0)
    then return_error varint_overflow s
    else (some result, s)

-- The loop of pb_decode_varint32_eof, on as much fuel as there are bytes: without a byte the
-- reader fails, which is the clause at fuel 0.
unfoldable pub decode_varint32_loop : ℕ → ℕ → ℕ → M IStream ℕ
unfolding add_bits32 check_last
decode_varint32_loop zero bitpos result s = and_then (pb_readbyte s) (λ byte s'. (none, s'))
decode_varint32_loop (suc fuel) bitpos result s = and_then (pb_readbyte s) λ byte s'.
    elim (add_bits32 bitpos result byte) [
      | none ↦ return_error varint_overflow s'
      | some result' ↦
          let bitpos' = u8 (bitpos + 7) in
          let more = decode_varint32_loop fuel bitpos' result' s' in
          if more_follows byte then more else check_last bitpos' byte result' s'
    ]

-- The number, the stream, and whether `*eof = true` was executed.
unfoldable pub varint32_from : Option ℕ × IStream → Option ℕ × IStream × Bool
unfolding decode_varint32_loop
varint32_from (none, s) = (none, s, s.bytes_left == 0)
varint32_from (some byte, s) =
    if bit_and byte 0x80 == 0
    then (some byte, s, false)
    else let (result, s') = decode_varint32_loop s.bytes_left 7 (bit_and byte 0x7F) s in
      (result, s', false)

unfoldable pub pb_decode_varint32_eof : IStream → Option ℕ × IStream × Bool
unfolding varint32_from
pb_decode_varint32_eof s = varint32_from (pb_readbyte s)

-- With a NULL `eof`.
unfoldable pub pb_decode_varint32 : M IStream ℕ
unfolding pb_decode_varint32_eof
pb_decode_varint32 s = let (result, s', eof) = pb_decode_varint32_eof s in (result, s')

-- The loop of pb_skip_varint, on as much fuel as there are bytes.
unfoldable pub skip_varint_loop : ℕ → M IStream (Unit {0})
skip_varint_loop zero s = and_then (pb_read dest 1 s) (λ bytes s'. (none, s'))
skip_varint_loop (suc fuel) s = and_then (pb_read dest 1 s) λ bytes s'.
    let more = skip_varint_loop fuel s' in
    if more_follows (get_or bytes 0 0) then more else (some tt, s')

unfoldable pub pb_skip_varint : M IStream (Unit {0})
unfolding skip_varint_loop
pb_skip_varint s = skip_varint_loop s.bytes_left s

-- `pb_read(stream, NULL, count)`
unfoldable pub skip_bytes : ℕ → M IStream (Unit {0})
skip_bytes count = do bytes ← pb_read null count; pure tt

unfoldable pub pb_skip_string : M IStream (Unit {0})
unfolding skip_bytes
pb_skip_string = do length ← pb_decode_varint32; skip_bytes length

-- A tag's wire type and field number, the stream, and `*eof`. `temp` is a uint32_t.
unfoldable pub tag_from : Option ℕ × IStream × Bool → Option (ℕ × ℕ) × IStream × Bool
tag_from (none, s, eof) = (none, s, eof)
tag_from (some temp, s, eof) =
    if temp == 0 then (none, s, true) else (some (bit_and temp 7, u32 temp / 2 ^ 3), s, eof)

unfoldable pub pb_decode_tag : IStream → Option (ℕ × ℕ) × IStream × Bool
unfolding tag_from
pb_decode_tag s = tag_from (pb_decode_varint32_eof s)

unfoldable pub pb_skip_field : ℕ → M IStream (Unit {0})
unfolding pb_skip_varint pb_skip_string skip_bytes
pb_skip_field wire_type s =
    if wire_type == Wt.varint
    then pb_skip_varint s
    else if wire_type == Wt.bits64
    then skip_bytes 8 s
    else if wire_type == Wt.string
    then pb_skip_string s
    else if wire_type == Wt.bits32
    then skip_bytes 4 s
    else return_error invalid_wire_type s

-- The loop of read_raw_value: `room` is `max_size` less the bytes counted, so that at 0 the count
-- passes it and the answer is `false`, with no message.
unfoldable pub raw_varint_loop : ℕ → M IStream (List ℕ)
raw_varint_loop zero s = (none, s)
raw_varint_loop (suc room) s = and_then (pb_read dest 1 s) λ bytes s'.
    let byte = get_or bytes 0 0 in
    let more = and_then (raw_varint_loop room s') (λ rest t. (some (byte ∷ rest), t)) in
    if more_follows byte then more else (some (byte ∷ []), s')

-- The bytes in the buffer; `*size` is their number.
unfoldable pub read_raw_value : ℕ → ℕ → M IStream (List ℕ)
unfolding raw_varint_loop
read_raw_value wire_type max_size s =
    if wire_type == Wt.varint
    then raw_varint_loop max_size s
    else if wire_type == Wt.bits64
    then pb_read dest 8 s
    else if wire_type == Wt.bits32
    then pb_read dest 4 s
    else return_error invalid_wire_type s

-- `*substream = *stream`, with the limits of both set.
unfoldable pub split_stream : ℕ → M IStream IStream
split_stream size s =
    if ltb s.bytes_left size
    then return_error parent_stream_too_short s
    else (some (record s { bytes_left = size }), record s { bytes_left = s.bytes_left - size })

unfoldable pub pb_make_string_substream : M IStream IStream
unfolding split_stream
pb_make_string_substream = do size ← pb_decode_varint32; split_stream size

-- What is written back to the stream once the substream is at its end.
unfoldable pub close_with : Option (List ℕ) × IStream → M IStream (Unit {0})
close_with (none, sub) s = (none, s)
close_with (some bytes, sub) s = (some tt, record s { state = sub.state; errmsg = sub.errmsg })

unfoldable pub pb_close_string_substream : IStream → M IStream (Unit {0})
unfolding close_with
pb_close_string_substream sub s =
    close_with (if sub.bytes_left == 0 then (some [], sub) else pb_read null sub.bytes_left sub) s

-- `(value & 1) ? ~(value >> 1) : value >> 1`, as the bits of an int64_t.
unfoldable pub unzigzag : ℕ → ℕ
unzigzag value = if bit_and value 1 == 0 then value / 2 else 2 ^ 64 - 1 - value / 2

unfoldable pub pb_decode_svarint : M IStream ℕ
pb_decode_svarint = do value ← pb_decode_varint; pure (unzigzag value)

-- Bytes, lowest first, as one number: `bytes[0] | bytes[1] << 8 | …`, where `pos` is the shift.
unfoldable pub from_bytes : ℕ → List ℕ → ℕ → ℕ
from_bytes pos [] value = value
from_bytes pos (byte ∷ bytes) value = from_bytes (pos + 8) bytes (bit_or value (byte * 2 ^ pos))

unfoldable pub pb_decode_fixed32 : M IStream ℕ
pb_decode_fixed32 = do bytes ← pb_read dest 4; pure (from_bytes 0 bytes 0)

unfoldable pub pb_decode_fixed64 : M IStream ℕ
pb_decode_fixed64 = do bytes ← pb_read dest 8; pure (from_bytes 0 bytes 0)
