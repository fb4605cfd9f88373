-- ===== src/Tests/Members.antt =====
-- pb_decode.c and pb_encode.c: fields in memory at concrete inputs.
use app_chat_again.Nanopb.RoundTrip.Integers.{signed64, zigzag_code}
use app_chat_again.Nanopb.RoundTrip.Numbers.{uvarint_field_round_trip}
use app_chat_again.Nanopb.RoundTrip.SignedNumbers.{
  SignExtended, varint_field_round_trip, svarint_field_round_trip,
}
use app_chat_again.Nanopb.Decode.{from_bytes}
use app_chat_again.Nanopb.Varint.{varint}
use app_chat_again.Nanopb.RoundTrip.Strings.{string_field_round_trip, StringAt}
use app_chat_again.Prelude.Int.{pos}
use app_chat_again.Nanopb.FieldDecoders.Static.{field_decoders-StaysIn}
use app_chat_again.Nanopb.FieldDecoders.Region.{StaysIn}
use app_chat_again.Prelude.{
  ◌^◌, refl, ◌-◌, ◌++◌, length, some, ◌≡◌, arith, none, ◌==◌, [], ℕ, ◌∷◌, if◌then◌else◌, List, ◌+◌,
}
use app_chat_again.Nanopb.Memory.{load_bytes, Memory, Machine}
use app_chat_again.Nanopb.Types.{size_too_large}
use app_chat_again.Nanopb.FieldDecoders.Allocate.{allocate_field-product}
use app_chat_again.Nanopb.FieldDecoders.{
  return_error, allocate_field, is_int_size, pb_dec_varint, pb_dec_uvarint, pb_dec_svarint,
  pb_dec_fixed32, pb_dec_fixed64, pb_dec_bytes, pb_dec_string, pb_dec_fixed_length_bytes,
}
use app_chat_again.Nanopb.FieldEncoders.{
  pb_enc_string, pb_enc_varint, pb_enc_uvarint, pb_enc_svarint, load_number,
}
use app_chat_again.Nanopb.IStream.Buffer.{reader}
use app_chat_again.Nanopb.OStream.Buffer.{writer}
use app_chat_again.Nanopb.Types.{Field}
use app_chat_again.Nanopb.Types.Htype
use app_chat_again.Nanopb.Types.Ltype

-- optional string, of at most seven characters.
abbrev name_field : Field
name_field = record {
  tag = 1;
  type = Htype.optional + Ltype.string;
  data_offset = 0;
  size_offset = pos 0;
  data_size = 8;
  array_size = 0;
  ptr = 0;
}

-- "Hi" at the address 100, and zeros.
abbrev greeting : Memory
greeting a = if a == 100 then b'H' else if a == 101 then b'i' else 0

-- An allocator that always answers the address 5000.
abbrev at_5000 : ℕ → ℕ → Memory → ℕ × Memory
at_5000 ptr size memory = (5000, memory)

abbrev on_greeting : Machine
on_greeting = record { stream = reader (2 ∷ b'H' ∷ b'i' ∷ 9 ∷ []) 7 none; memory = greeting }

field_decoders-StaysIn_example :
    StaysIn 200 8 on_greeting (pb_dec_varint name_field 200 on_greeting)
    × StaysIn 200 8 on_greeting (pb_dec_uvarint name_field 200 on_greeting)
    × StaysIn 200 8 on_greeting (pb_dec_svarint name_field 200 on_greeting)
    × StaysIn 200 4 on_greeting (pb_dec_fixed32 name_field 200 on_greeting)
    × StaysIn 200 8 on_greeting (pb_dec_fixed64 name_field 200 on_greeting)
    × StaysIn 200 8 on_greeting (pb_dec_bytes at_5000 name_field 200 on_greeting)
    × StaysIn 200 8 on_greeting (pb_dec_string at_5000 name_field 200 on_greeting)
    × StaysIn 200 8 on_greeting (pb_dec_fixed_length_bytes name_field 200 on_greeting)
field_decoders-StaysIn_example =
    field_decoders-StaysIn at_5000 name_field 200 on_greeting (omega arith)

string_field_round_trip_example :
    (after : Memory) × ((pb_enc_string name_field 100 greeting (writer [] 16 0 none)
        ≡ (some tt, writer (2 ∷ b'H' ∷ b'i' ∷ []) 16 3 none))
      × (pb_dec_string at_5000 name_field 200
            (record { stream = reader (2 ∷ b'H' ∷ b'i' ∷ 9 ∷ []) 8 none; memory = greeting })
          ≡ (some tt, record { stream = reader (9 ∷ []) 5 none; memory = after }))
      × StringAt (b'H' ∷ b'i' ∷ []) 200 after)
unfolding varint
string_field_round_trip_example =
    string_field_round_trip at_5000 name_field (b'H' ∷ b'i' ∷ []) 100 200 greeting greeting []
      (9 ∷ []) 16 0 8 none (omega arith) (omega arith)
      (refl, omega arith, (refl, omega arith, refl)) (omega arith) (omega arith) (omega arith)
      (omega arith) (omega arith)

-- A field of two bytes, and -2 in it at the address 100.
abbrev level_field : Field
level_field = record {
  tag = 2;
  type = Htype.required + Ltype.varint;
  data_offset = 0;
  size_offset = pos 0;
  data_size = 2;
  array_size = 0;
  ptr = 0;
}

abbrev level : Memory
level a = if a == 100 then 0xFE else if a == 101 then 0xFF else 0

uvarint_field_round_trip_example :
    (after : Memory) × (let bytes : List ℕ = 0xFE ∷ 0xFF ∷ 0x03 ∷ [] in
      (pb_enc_uvarint level_field 100 level (writer [] 16 0 none)
        ≡ (some tt, writer ([] ++ bytes) 16 (0 + length bytes) none))
      × (pb_dec_uvarint level_field 200
            (record { stream = reader (bytes ++ (9 ∷ [])) 12 none; memory = level })
          ≡ (some tt, record { stream = reader (9 ∷ []) (12 - length bytes) none; memory = after }))
      × (load_number 2 200 after ≡ 0xFFFE))
unfolding is_int_size load_bytes from_bytes varint
uvarint_field_round_trip_example =
    uvarint_field_round_trip level_field 0xFFFE 100 200 level level [] (9 ∷ []) 16 0 12 none refl
      refl (omega arith) (omega arith) (omega arith) (omega arith)

varint_field_round_trip_example :
    (w : ℕ) × (after : Memory) × SignExtended 2 0xFFFE w
    × (let bytes = varint 9 w in
        (pb_enc_varint level_field 100 level (writer [] 16 0 none)
          ≡ (some tt, writer ([] ++ bytes) 16 (0 + length bytes) none))
        × (pb_dec_varint level_field 200
              (record { stream = reader (bytes ++ (9 ∷ [])) 12 none; memory = level })
            ≡ (
              some tt,
              record { stream = reader (9 ∷ []) (12 - length bytes) none; memory = after },
            ))
        × (load_number 2 200 after ≡ 0xFFFE))
unfolding is_int_size load_bytes from_bytes
varint_field_round_trip_example =
    varint_field_round_trip level_field 0xFFFE 100 200 level level [] (9 ∷ []) 16 0 12 none refl
      refl (omega arith) (omega arith) (omega arith) (omega arith)

svarint_field_round_trip_example :
    (w : ℕ) × (after : Memory) × SignExtended 2 0xFFFE w
    × (let bytes = varint 9 (zigzag_code (signed64 w)) in
        (pb_enc_svarint level_field 100 level (writer [] 16 0 none)
          ≡ (some tt, writer ([] ++ bytes) 16 (0 + length bytes) none))
        × (pb_dec_svarint level_field 200
              (record { stream = reader (bytes ++ (9 ∷ [])) 12 none; memory = level })
            ≡ (
              some tt,
              record { stream = reader (9 ∷ []) (12 - length bytes) none; memory = after },
            ))
        × (load_number 2 200 after ≡ 0xFFFE))
unfolding is_int_size load_bytes from_bytes
svarint_field_round_trip_example =
    svarint_field_round_trip level_field 0xFFFE 100 200 level level [] (9 ∷ []) 16 0 12 none refl
      refl (omega arith) (omega arith) (omega arith) (omega arith)

-- Two sizes whose product is 2 ^ 64.
allocate_field-product_example :
    allocate_field at_5000 200 (2 ^ 32) (2 ^ 32) on_greeting
    ≡ return_error size_too_large on_greeting
allocate_field-product_example = allocate_field-product at_5000 200 (2 ^ 32) (2 ^ 32) on_greeting
