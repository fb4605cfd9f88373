-- ===== src/Tests/Messages.antt =====
-- pb_decode.c and pb_encode.c: messages in memory at concrete inputs.
use app_chat_again.Nanopb.Varint.{varint}
use app_chat_again.Prelude.Int.{pos, negsuc}
use app_chat_again.Prelude.{
  ap, ◌-◌, get_or, ◌*◌, ltb, ℕ, List, [], ◌∷◌, ◌++◌, ◌+◌, ◌≡◌, refl, some, none, length, arith,
  if◌then◌else◌, ◌==◌, Option,
}
use app_chat_again.Nanopb.Types.{missing_required_field, Message, Field}
use app_chat_again.Nanopb.Types.Htype
use app_chat_again.Nanopb.Types.Ltype
use app_chat_again.Nanopb.Types.Atype
use app_chat_again.Nanopb.Host.{Host}
use app_chat_again.Nanopb.Memory.{Memory, Machine, load_bytes}
use app_chat_again.Nanopb.FieldIter.{
  pb_field_iter_begin, pb_field_iter_next, same_union, member_size,
}
use app_chat_again.Nanopb.Encode.{wiretype_of, pb_encode_tag, pb_encode_fixed32, to_bytes}
use app_chat_again.Nanopb.OStream.{pb_write}
use app_chat_again.Nanopb.FieldEncoders.{pb_enc_uvarint, pb_enc_fixed32}
use app_chat_again.Nanopb.IStream.{pb_read, pb_readbyte}
use app_chat_again.Nanopb.FieldDecoders.{pb_dec_fixed32}
use app_chat_again.Nanopb.Memory.{store_bytes}
use app_chat_again.Nanopb.Decode.{pb_decode_varint32_eof, pb_decode_fixed32, from_bytes}
use app_chat_again.Nanopb.IStream.Buffer.{reader}
use app_chat_again.Nanopb.OStream.Buffer.{writer}
use app_chat_again.Nanopb.Encode.{pb_encode_varint}
use app_chat_again.Nanopb.OStream.{pb_ostream_from_buffer}
use app_chat_again.Nanopb.MessageEncoder.{
  is_present, pb_encode, pb_encode_delimited, pb_get_encoded_size,
}
use app_chat_again.Nanopb.MessageEncoder.Sizing.Messages.{UserAgrees}
use app_chat_again.Nanopb.MessageEncoder.Wire.{UserBytes, message_bytes}
use app_chat_again.Nanopb.Encode.{varint_buffer}
use app_chat_again.Nanopb.MessageEncoder.Sizing.Values.{Agrees-varint}
use app_chat_again.Nanopb.MessageEncoder.Sizing.Whole.{
  pb_get_encoded_size-pb_encode, pb_encode_delimited-message_bytes,
}
use app_chat_again.Nanopb.MessageDecoder.{pb_decode}

-- message Inner { required fixed32 x = 1; }
abbrev inner : List Field
inner =
    record {
      tag = 1;
      type = Htype.required + Ltype.fixed32;
      data_offset = 0;
      size_offset = pos 0;
      data_size = 4;
      array_size = 0;
      ptr = 0;
    }
    ∷ []

-- message Outer { required uint32 a = 1; optional Inner b = 2; repeated fixed32 c = 3;
-- optional bytes d = 4; }
-- with `a` at 0, `has_b` at 4, `b` at 8, the count of `c` at 12, two entries at 16, and the callback
-- of `d` at 24.
abbrev pub outer : List Field
outer =
    record {
      tag = 1;
      type = Htype.required + Ltype.uvarint;
      data_offset = 0;
      size_offset = pos 0;
      data_size = 4;
      array_size = 0;
      ptr = 0;
    }
    ∷ record {
      tag = 2;
      type = Htype.optional + Ltype.submessage;
      data_offset = 4;
      size_offset = negsuc 3;
      data_size = 4;
      array_size = 0;
      ptr = 1000;
    }
    ∷ record {
      tag = 3;
      type = Htype.repeated + Ltype.fixed32;
      data_offset = 4;
      size_offset = negsuc 3;
      data_size = 4;
      array_size = 2;
      ptr = 0;
    }
    ∷ record {
      tag = 4;
      type = Atype.callback + Htype.optional + Ltype.bytes;
      data_offset = 0;
      size_offset = pos 0;
      data_size = 16;
      array_size = 0;
      ptr = 0;
    }
    ∷ []

-- The user's encoder writes the number 7.
abbrev pub host : Host
host = record {
  fields_at = λ p. if p == 1000 then inner else [];
  pb_realloc = λ ptr size memory. (0, memory);
  pb_free = λ ptr memory. memory;
  decode_callback = λ function f arg s. (some tt, s);
  decode_extension = λ handler extension tag wire_type s. (some tt, s);
  encode_callback = λ function f arg memory. pb_encode_varint 7;
  encode_extension = λ handler extension memory. pb_encode_varint 7;
  frame = λ depth. 5000 + 8 * depth;
}

-- The structure, at 100.
abbrev structure : List ℕ
structure =
    44 ∷ 1 ∷ 0 ∷ 0 ∷ 1 ∷ 0 ∷ 0 ∷ 0 ∷ 9 ∷ 8 ∷ 7 ∷ 6 ∷ 2 ∷ 0 ∷ 0 ∷ 0 ∷ 1 ∷ 0 ∷ 0 ∷ 0 ∷ 2 ∷ 0 ∷ 0 ∷ 0
    ∷ 1 ∷ []

abbrev pub memory : Memory
memory a = if ltb a 100 then 0 else get_or structure (a - 100) 0

abbrev wire : List ℕ
wire =
    0x08 ∷ 172 ∷ 2 ∷ 0x12 ∷ 5 ∷ 0x0d ∷ 9 ∷ 8 ∷ 7 ∷ 6 ∷ 0x1a ∷ 8 ∷ 1 ∷ 0 ∷ 0 ∷ 0 ∷ 2 ∷ 0 ∷ 0 ∷ 0 ∷ 7
    ∷ []

encode_outer :
    pb_encode host memory 3 outer 100 (pb_ostream_from_buffer 64)
    ≡ some (some tt, writer wire 64 21 none)
unfolding pb_encode pb_ostream_from_buffer pb_field_iter_begin pb_encode_tag pb_write pb_enc_uvarint
    from_bytes load_bytes pb_field_iter_next same_union member_size pb_enc_fixed32 pb_encode_fixed32
    to_bytes
encode_outer = refl

size_outer : pb_get_encoded_size host memory 3 outer 100 ≡ some (some 21)
unfolding pb_get_encoded_size pb_field_iter_begin pb_encode_tag pb_write pb_enc_uvarint from_bytes
    load_bytes pb_field_iter_next same_union member_size pb_enc_fixed32 pb_encode_fixed32 to_bytes
size_outer = refl

-- What a decoder leaves in a structure of four bytes at 200, and the stream's error.
outcome : Option (Option (Unit {0}) × Machine) → Option (List ℕ × Option Message)
outcome none = none
outcome (some (result, s)) = some (load_bytes 4 200 s.memory, s.stream.errmsg)

decode_inner :
    outcome (
      pb_decode host 1 inner 200
        (record { stream = reader (0x0d ∷ 9 ∷ 8 ∷ 7 ∷ 6 ∷ []) 5 none; memory = λ a. 0 }))
    ≡ some (9 ∷ 8 ∷ 7 ∷ 6 ∷ [], none)
unfolding outcome pb_decode pb_field_iter_begin pb_field_iter_next pb_decode_varint32_eof
    pb_readbyte pb_dec_fixed32 pb_decode_fixed32 pb_read load_bytes store_bytes to_bytes from_bytes
decode_inner = refl

-- A required field that is missing.
decode_nothing :
    outcome (pb_decode host 1 inner 200 (record { stream = reader [] 0 none; memory = λ a. 1 }))
    ≡ some (0 ∷ 0 ∷ 0 ∷ 0 ∷ [], some missing_required_field)
unfolding outcome pb_decode pb_field_iter_begin pb_field_iter_next load_bytes store_bytes to_bytes
decode_nothing = refl

-- The bytes of the user's encoders.
abbrev sevens : UserBytes
sevens = record {
  callback = λ function f arg. varint_buffer 7;
  extension = λ handler extension. varint_buffer 7;
}

user : UserAgrees host memory sevens
user = (λ function f arg. Agrees-varint 7, λ handler extension. Agrees-varint 7)

bytes_outer : message_bytes host memory sevens 3 outer 100 ≡ wire
unfolding message_bytes wiretype_of is_present varint_buffer varint to_bytes pb_field_iter_begin
    pb_field_iter_next same_union member_size from_bytes load_bytes
bytes_outer = refl

room_outer : length (message_bytes host memory sevens 3 outer 100) ≡ 21
room_outer = ap length bytes_outer

pb_get_encoded_size-pb_encode_example :
    (let bytes = message_bytes host memory sevens 3 outer 100 in
      (21 ≡ length bytes)
      × (pb_encode host memory 3 outer 100 (pb_ostream_from_buffer 64)
          ≡ some (some tt, writer bytes 64 (length bytes) none)))
pb_get_encoded_size-pb_encode_example =
    pb_get_encoded_size-pb_encode host memory sevens user 3 outer 100 21 64 size_outer
      (omega (arith, room_outer)) (omega arith)

pb_encode_delimited-message_bytes_example :
    (let bytes = varint 9 21 ++ message_bytes host memory sevens 3 outer 100 in
      pb_encode_delimited host memory 3 outer 100 (pb_ostream_from_buffer 64)
      ≡ some (some tt, writer bytes 64 (length bytes) none))
unfolding varint
pb_encode_delimited-message_bytes_example =
    pb_encode_delimited-message_bytes host memory sevens user 3 outer 100 21 64 size_outer
      (omega (arith, room_outer)) (omega arith)
