-- ===== src/Nanopb/FieldDecoders/Static.antt =====
-- AppChat_Again/Pods/nanopb/pb_decode.c: the decoders of single values on static fields.
use app_chat_again.Prelude.Words.{u32}
use app_chat_again.Nanopb.FieldIter.{pb_size_max}
use app_chat_again.Nanopb.Decode.{
  pb_decode_varint32, pb_decode_svarint, pb_decode_varint, pb_decode_fixed64, pb_decode_fixed32,
}
use app_chat_again.Prelude.{
  not, ◌+◌, ◌==◌, ltb, refl, zero, ap, suc, ◌≡◌, arith, replicate, ==_iff, length, ◌≢◌, ℕ,
}
use app_chat_again.Nanopb.FieldDecoders.{
  pb_size_max, u32, pb_decode_varint32, pb_decode_svarint, pb_decode_varint, pb_decode_fixed64,
  pb_decode_fixed32, ℕ, pb_dec_varint, pb_dec_uvarint, pb_dec_svarint, pb_dec_fixed32,
  pb_dec_fixed64, pb_dec_bytes, pb_dec_string, pb_dec_fixed_length_bytes, bytes_of_size,
  string_of_size, fixed_length_of_size,
}
use app_chat_again.Nanopb.FieldDecoders.Region.{
  read_to-StaysIn, read_string-StaysIn, read_bytes_array-StaysIn, store_unsigned-StaysIn, stored_in,
  number_in, store_signed-StaysIn, StaysIn, untouched, branch, behind_stream,
}
use app_chat_again.Nanopb.Memory.{Memory, Machine}
use app_chat_again.Nanopb.Types.{Field, pb_atype}
use app_chat_again.Nanopb.Types.Atype

length-replicate : (n v : ℕ) → length (replicate n v) ≡ n
length-replicate zero v = refl
length-replicate (suc n) v = ap suc (length-replicate n v)

module _ (pb_realloc : ℕ → ℕ → Memory → ℕ × Memory) (field : Field) (target : ℕ) (s : Machine) where
  varint-StaysIn : StaysIn target field.data_size s (pb_dec_varint field target s)
  unfolding pb_dec_varint
  varint-StaysIn =
      behind_stream target field.data_size s pb_decode_varint _
        (λ value t. store_signed-StaysIn target field.data_size _ (record s { stream = t }))

  uvarint-StaysIn : StaysIn target field.data_size s (pb_dec_uvarint field target s)
  unfolding pb_dec_uvarint
  uvarint-StaysIn =
      behind_stream target field.data_size s pb_decode_varint _
        (λ value t. store_unsigned-StaysIn target field.data_size value (record s { stream = t }))

  svarint-StaysIn : StaysIn target field.data_size s (pb_dec_svarint field target s)
  unfolding pb_dec_svarint
  svarint-StaysIn =
      behind_stream target field.data_size s pb_decode_svarint _
        (λ value t. store_signed-StaysIn target field.data_size value (record s { stream = t }))

  fixed32-StaysIn : StaysIn target 4 s (pb_dec_fixed32 field target s)
  unfolding pb_dec_fixed32
  fixed32-StaysIn = behind_stream target 4 s pb_decode_fixed32 _ (λ value t.
      number_in target 4 target 4 value (record s { stream = t }) (omega arith) (omega arith))

  fixed64-StaysIn : StaysIn target 8 s (pb_dec_fixed64 field target s)
  unfolding pb_dec_fixed64
  fixed64-StaysIn = behind_stream target 8 s pb_decode_fixed64 _ (λ value t.
      number_in target 8 target 8 value (record s { stream = t }) (omega arith) (omega arith))

  fixed_length_of_size-StaysIn :
      (size : ℕ) → StaysIn target field.data_size s (fixed_length_of_size field target size s)
  unfolding fixed_length_of_size
  fixed_length_of_size-StaysIn size =
      let region = field.data_size in
      let same = untouched target region s.memory in
      branch target region s (ltb pb_size_max size) _ _ (λ _. same)
        λ _.
          branch target region s (size == 0) _ _
            (λ _.
              stored_in target region target (replicate region 0) s (omega arith)
                (omega (arith, length-replicate region 0)))
            λ _.
              branch target region s (not (size == region)) _ _ (λ _. same)
                λ _. read_to-StaysIn target region target region s (omega arith) (omega arith)

  module _ (static : pb_atype field.type ≢ Atype.pointer) where
    bytes_of_size-StaysIn :
        (size : ℕ) → StaysIn target field.data_size s (bytes_of_size pb_realloc field target size s)
    unfolding bytes_of_size
    bytes_of_size-StaysIn size =
        let region = field.data_size in
        let same = untouched target region s.memory in
        branch target region s (ltb pb_size_max size) _ _ (λ _. same)
          λ _.
            branch target region s (ltb (size + 4) size) _ _ (λ _. same)
              λ _.
                branch target region s (pb_atype field.type == Atype.pointer) _ _
                  (λ p. absurd (static ((==_iff _ _).0 p)))
                  λ _.
                    branch target region s (ltb region (size + 4)) _ _ (λ _. same)
                      λ fits. read_bytes_array-StaysIn target region size s (ground arith)

    string_of_size-StaysIn :
        (size : ℕ)
        → StaysIn target field.data_size s (string_of_size pb_realloc field target size s)
    unfolding string_of_size
    string_of_size-StaysIn size =
        let region = field.data_size in
        let same = untouched target region s.memory in
        branch target region s (ltb (u32 (size + 1)) size) _ _ (λ _. same)
          λ long.
            branch target region s (pb_atype field.type == Atype.pointer) _ _
              (λ p. absurd (static ((==_iff _ _).0 p)))
              λ _.
                branch target region s (ltb region (u32 (size + 1))) _ _ (λ _. same)
                  λ fits. read_string-StaysIn target region size s (ground arith)

-- On every stream, with success or not, the decoder of a static field of each type that is no
-- submessage stores nothing outside the `data_size` bytes of the field; those of fixed-size numbers
-- store nothing outside their 4 and 8 bytes.
pub field_decoders-StaysIn :
    (pb_realloc : ℕ → ℕ → Memory → ℕ × Memory) (field : Field) (target : ℕ) (s : Machine)
    → pb_atype field.type ≢ Atype.pointer
    → StaysIn target field.data_size s (pb_dec_varint field target s)
      × StaysIn target field.data_size s (pb_dec_uvarint field target s)
      × StaysIn target field.data_size s (pb_dec_svarint field target s)
      × StaysIn target 4 s (pb_dec_fixed32 field target s)
      × StaysIn target 8 s (pb_dec_fixed64 field target s)
      × StaysIn target field.data_size s (pb_dec_bytes pb_realloc field target s)
      × StaysIn target field.data_size s (pb_dec_string pb_realloc field target s)
      × StaysIn target field.data_size s (pb_dec_fixed_length_bytes field target s)
unfolding pb_dec_bytes pb_dec_string pb_dec_fixed_length_bytes
field_decoders-StaysIn pb_realloc field target s static = (
  varint-StaysIn pb_realloc field target s,
  uvarint-StaysIn pb_realloc field target s,
  svarint-StaysIn pb_realloc field target s,
  fixed32-StaysIn pb_realloc field target s,
  fixed64-StaysIn pb_realloc field target s,
  behind_stream target field.data_size s pb_decode_varint32 _ (λ size t.
      bytes_of_size-StaysIn pb_realloc field target (record s { stream = t }) static size),
  behind_stream target field.data_size s pb_decode_varint32 _ (λ size t.
      string_of_size-StaysIn pb_realloc field target (record s { stream = t }) static size),
  behind_stream target field.data_size s pb_decode_varint32 _ (λ size t.
      fixed_length_of_size-StaysIn pb_realloc field target (record s { stream = t }) size),
)
