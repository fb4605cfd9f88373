-- ===== src/Tests/Integers.antt =====
-- pb_encode.c and pb_decode.c: integers and tags at concrete inputs.
use app_chat_again.Nanopb.RoundTrip.Fields.{tag_round_trip}
use app_chat_again.Nanopb.Encode.Varint.{varint_buffer-varint, varint_groups_bound}
use app_chat_again.Nanopb.Decode.Tag.{pb_decode_tag-value, pb_decode_tag_ends}
use app_chat_again.Nanopb.RoundTrip.Integers.{svarint_round_trip, zigzag_lem, varint_round_trip}
use app_chat_again.Nanopb.RoundTrip.Fixed.{fixed64_round_trip, fixed32_round_trip}
use app_chat_again.Nanopb.Decode.Overlong.{pb_decode_varint32_drops, pb_decode_varint32_wraps}
use app_chat_again.Prelude.Words.{IsU64}
use app_chat_again.Nanopb.Decode.Varint64.{
  pb_decode_varint-truncated, pb_decode_varint-overflow, pb_decode_varint-value,
}
use app_chat_again.Nanopb.Decode.Varint32.{pb_decode_varint32-value}
use app_chat_again.Prelude.{
  zero, suc, All, arith, false, true, ◌≤◌, ◌+◌, ◌-◌, refl, none, replicate, length, some, ℕ, [],
  ◌≡◌, List, ◌^◌, ◌∷◌, ◌++◌,
}
use app_chat_again.Nanopb.Varint.{varint, IsContinuation}
use app_chat_again.Nanopb.Decode.{
  pb_decode_varint, pb_decode_varint32, pb_decode_svarint, pb_decode_tag, pb_decode_fixed32,
  pb_decode_fixed64, unzigzag,
}
use app_chat_again.Nanopb.Encode.{
  clear_last, varint_buffer, zigzag, pb_encode_varint, pb_encode_svarint, pb_encode_tag,
  pb_encode_fixed32, pb_encode_fixed64, to_bytes, varint_groups,
}
use app_chat_again.Nanopb.IStream.Buffer.{reader}
use app_chat_again.Nanopb.OStream.Buffer.{writer}
use app_chat_again.Nanopb.IStream.{pb_istream_from_buffer}
use app_chat_again.Nanopb.OStream.{pb_ostream_from_buffer}
use app_chat_again.Nanopb.Types.{varint_overflow, end_of_stream}

-- The examples of the wire format's documentation: 150, and -1 at 64 bits.
varint_150 : varint_buffer 150 ≡ 0x96 ∷ 0x01 ∷ []
unfolding varint_buffer varint_groups clear_last
varint_150 = refl

minus_one_is_ten_bytes : length (varint_buffer (2 ^ 64 - 1)) ≡ 10
unfolding varint_buffer varint_groups clear_last
minus_one_is_ten_bytes = refl

zigzag_of_minus_two : zigzag (2 ^ 64 - 2) ≡ 3
unfolding zigzag
zigzag_of_minus_two = refl

varint_round_trip_example :
    (let written = pb_encode_varint 300 (pb_ostream_from_buffer 16) in
      let buf = written.1.state ++ (7 ∷ []) in
      (written.0 ≡ some tt)
      × (pb_decode_varint (pb_istream_from_buffer buf (written.1.bytes_written + 1))
          ≡ (some 300, pb_istream_from_buffer (7 ∷ []) 1)))
varint_round_trip_example =
    varint_round_trip 300 16 1 (7 ∷ []) (omega arith) (omega arith) (omega arith)

pb_decode_varint-value_example :
    pb_decode_varint (reader (0xAC ∷ 0x02 ∷ 9 ∷ []) 3 none) ≡ (some 300, reader (9 ∷ []) 1 none)
pb_decode_varint-value_example =
    pb_decode_varint-value (0xAC ∷ 0x02 ∷ []) (9 ∷ []) 3 none
      (omega arith, omega arith, omega arith) (omega arith) (omega arith)

pb_decode_varint32-value_example :
    pb_decode_varint32 (reader (0xAC ∷ 0x02 ∷ 9 ∷ []) 3 none) ≡ (some 300, reader (9 ∷ []) 1 none)
pb_decode_varint32-value_example =
    pb_decode_varint32-value (0xAC ∷ 0x02 ∷ []) (9 ∷ []) 3 none
      (omega arith, omega arith, omega arith) (omega arith) (omega arith)

svarint_round_trip_example :
    (pb_encode_svarint (2 ^ 64 - 2) (writer [] 16 0 none) ≡ (some tt, writer (3 ∷ []) 16 1 none))
    × (pb_decode_svarint (reader (3 ∷ 9 ∷ []) 12 none)
        ≡ (some (2 ^ 64 - 2), reader (9 ∷ []) 11 none))
unfolding varint
svarint_round_trip_example =
    svarint_round_trip (2 ^ 64 - 2) 16 0 12 [] (9 ∷ []) none (omega arith) (omega arith)
      (omega arith) (omega arith)

zigzag_lem_example :
    (zigzag (2 ^ 64 - 2) ≡ 3)
    × IsU64 (zigzag (2 ^ 64 - 2))
    × (unzigzag (zigzag (2 ^ 64 - 2)) ≡ 2 ^ 64 - 2)
zigzag_lem_example = zigzag_lem (2 ^ 64 - 2) (omega arith)

tag_round_trip_example :
    (pb_encode_tag 2 1 (writer [] 16 0 none) ≡ (some tt, writer (10 ∷ []) 16 1 none))
    × (pb_decode_tag (reader (10 ∷ 9 ∷ []) 6 none) ≡ (some (2, 1), reader (9 ∷ []) 5 none, false))
    × (1 ≤ 5)
unfolding varint
tag_round_trip_example =
    tag_round_trip 2 1 16 0 6 [] (9 ∷ []) none (omega arith) (omega arith) (omega arith)
      (omega arith) (omega arith) (omega arith)

pb_decode_tag-value_example :
    pb_decode_tag (reader (0x8A ∷ 0x00 ∷ 9 ∷ []) 3 none)
    ≡ (some (2, 1), reader (9 ∷ []) 1 none, false)
pb_decode_tag-value_example =
    pb_decode_tag-value 2 1 3 (0x8A ∷ 0x00 ∷ []) (9 ∷ []) none (omega arith) (omega arith)
      (omega arith) (omega arith, omega arith, omega arith) refl (omega arith) (omega arith)

pb_decode_tag_ends_example :
    (pb_decode_tag (reader (9 ∷ []) 0 none) ≡ (none, reader (9 ∷ []) 0 (some end_of_stream), true))
    × (pb_decode_tag (reader (0 ∷ 9 ∷ []) 2 none) ≡ (none, reader (9 ∷ []) 1 none, true))
    × (pb_decode_tag (reader (0x8A ∷ 9 ∷ []) 1 none)
        ≡ (none, reader (9 ∷ []) 0 (some end_of_stream), false))
pb_decode_tag_ends_example =
    pb_decode_tag_ends 0x8A (9 ∷ []) 2 none (omega arith, omega arith) (omega arith)

fixed32_round_trip_example :
    (pb_encode_fixed32 258 (writer [] 16 0 none) ≡ (some tt, writer (2 ∷ 1 ∷ 0 ∷ 0 ∷ []) 16 4 none))
    × (pb_decode_fixed32 (reader (2 ∷ 1 ∷ 0 ∷ 0 ∷ 9 ∷ []) 5 none)
        ≡ (some 258, reader (9 ∷ []) 1 none))
unfolding to_bytes
fixed32_round_trip_example =
    fixed32_round_trip 258 [] (9 ∷ []) 16 0 5 none (omega arith) (omega arith) (omega arith)
      (omega arith)

fixed64_round_trip_example :
    (pb_encode_fixed64 258 (writer [] 16 0 none)
      ≡ (some tt, writer (2 ∷ 1 ∷ 0 ∷ 0 ∷ 0 ∷ 0 ∷ 0 ∷ 0 ∷ []) 16 8 none))
    × (pb_decode_fixed64 (reader (2 ∷ 1 ∷ 0 ∷ 0 ∷ 0 ∷ 0 ∷ 0 ∷ 0 ∷ 9 ∷ []) 9 none)
        ≡ (some 258, reader (9 ∷ []) 1 none))
unfolding to_bytes
fixed64_round_trip_example =
    fixed64_round_trip 258 [] (9 ∷ []) 16 0 9 none (omega arith) (omega arith) (omega arith)
      (omega arith)

varint_groups_bound_example :
    (varint_groups 12 300 ≡ varint_groups 10 300) × (length (varint_groups 12 300) ≤ 10)
varint_groups_bound_example = varint_groups_bound 12 300 (omega arith) (omega arith)

varint_buffer-varint_example : varint_buffer 300 ≡ 0xAC ∷ 0x02 ∷ []
unfolding varint
varint_buffer-varint_example = varint_buffer-varint 300 (omega arith)

replicate-IsContinuation : (n : ℕ) → All IsContinuation (replicate n 0xFF)
replicate-IsContinuation zero = tt
replicate-IsContinuation (suc n) = ((omega arith, omega arith), replicate-IsContinuation n)

abbrev ten_continuations : List ℕ
ten_continuations = replicate 10 0xFF

pb_decode_varint-overflow_example :
    pb_decode_varint (reader (ten_continuations ++ (1 ∷ [])) 11 none)
    ≡ (none, reader (1 ∷ []) 1 (some varint_overflow))
pb_decode_varint-overflow_example =
    pb_decode_varint-overflow ten_continuations (1 ∷ []) 11 none (replicate-IsContinuation 10) refl
      (omega arith)

pb_decode_varint-truncated_example :
    pb_decode_varint (reader (0xAC ∷ 0x80 ∷ 1 ∷ []) 2 none)
    ≡ (none, reader (1 ∷ []) 0 (some end_of_stream))
pb_decode_varint-truncated_example =
    pb_decode_varint-truncated (0xAC ∷ 0x80 ∷ []) (1 ∷ []) 2 none
      ((omega arith, omega arith), ((omega arith, omega arith), tt)) (omega arith) refl

pb_decode_varint32_wraps_example :
    pb_decode_varint32 (reader (0x81 ∷ (replicate 36 0x80 ++ (1 ∷ []))) 38 none)
    ≡ (some 9, reader [] 0 none)
pb_decode_varint32_wraps_example =
    pb_decode_varint32_wraps 0x81 1 38 [] none (omega arith) (omega arith) (omega arith)
      (omega arith)

-- 2 ^ 32, with an empty sixth group, is read as 0.
pb_decode_varint32_drops_example :
    pb_decode_varint32 (reader (0x80 ∷ 0x80 ∷ 0x80 ∷ 0x80 ∷ 0x90 ∷ 0 ∷ []) 6 none)
    ≡ (some 0, reader [] 0 none)
pb_decode_varint32_drops_example =
    pb_decode_varint32_drops 0x80 (0x80 ∷ 0x80 ∷ 0x80 ∷ 0x90 ∷ []) [] 6 none
      (omega arith, omega arith)
      (
        (omega arith, omega arith),
        (
          (omega arith, omega arith),
          ((omega arith, omega arith), ((omega arith, omega arith), tt)),
        ),
      )
      refl (omega arith)
