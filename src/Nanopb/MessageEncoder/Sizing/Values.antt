-- ===== src/Nanopb/MessageEncoder/Sizing/Values.antt =====
-- AppChat_Again/Pods/nanopb/pb_encode.c: the encoders of single values on a stream that only counts.
use app_chat_again.Nanopb.FieldDecoders.{bytes_array_t_allocsize, is_int_size}
use app_chat_again.Prelude.{
  ◌∙◌, ◌%◌, ◌-◌, ◌^◌, ltb, ◌&&◌, ◌*◌, bit_or, ◌<◌, ◌++◌, ◌==◌, Option, subst, ℕ, zero, suc, ◌+◌,
  ◌≡◌, refl, none, some, List, [], length, if◌then◌else◌, arith,
}
use app_chat_again.Nanopb.Types.{
  pb_atype, bytes_size_exceeded, invalid_data_size, invalid_field_type, Field, Message, pb_ltype,
}
use app_chat_again.Nanopb.Memory.{Memory, load_bytes}
use app_chat_again.Nanopb.OStream.{return_error}
use app_chat_again.Nanopb.Encode.{
  pb_encode_varint, pb_encode_svarint, pb_encode_fixed32, pb_encode_fixed64, pb_encode_tag,
  pb_encode_tag_for_field, pb_encode_string, varint_buffer, to_bytes, zigzag, wiretype_of,
}
use app_chat_again.Nanopb.FieldEncoders.{
  string_size, encode_at, load_signed, load_number, pb_enc_varint, pb_enc_uvarint, pb_enc_svarint,
  pb_enc_fixed32, pb_enc_fixed64, pb_enc_bytes, pb_enc_string, pb_enc_fixed_length_bytes,
}
use app_chat_again.Nanopb.RoundTrip.Fixed.{length-to_bytes}
use app_chat_again.Nanopb.MessageEncoder.Wire.{tag_bytes, field_tag, string_at}
use app_chat_again.Nanopb.Varint.{varint}
use app_chat_again.Nanopb.Encode.Varint.{varint_buffer-varint}
use app_chat_again.Prelude.Words.{u64, IsU64}
use app_chat_again.Prelude.Bits.{bit_or_fields}
use app_chat_again.Nanopb.Types.Atype
use app_chat_again.Nanopb.MessageEncoder.Sizing.{
  Agrees-two, Agrees-and_then, Agrees-choice, Agrees, Agrees-write,
}
use app_chat_again.Nanopb.Run.{ended, no_answer}

pub length-load_bytes :
    (count address : ℕ) (memory : Memory) → length (load_bytes count address memory) ≡ count
unfolding load_bytes
length-load_bytes zero address memory = refl
length-load_bytes (suc count) address memory =
    omega (arith, length-load_bytes count (address + 1) memory)

pub Agrees-error : (msg : Message) (bytes : List ℕ) → Agrees (ended (return_error msg)) bytes
unfolding Agrees
Agrees-error msg bytes n = tt

pub Agrees-no_answer : (bytes : List ℕ) → Agrees no_answer bytes
unfolding Agrees
Agrees-no_answer bytes n = tt

pub Agrees-varint : (value : ℕ) → Agrees (ended (pb_encode_varint value)) (varint_buffer value)
unfolding pb_encode_varint
Agrees-varint value = Agrees-write (varint_buffer value) (length (varint_buffer value)) refl

-- The shortest varint of a size_t.
pub Agrees-size :
    (value : ℕ) → IsU64 value → Agrees (ended (pb_encode_varint value)) (varint 9 value)
Agrees-size value h =
    subst (Agrees (ended (pb_encode_varint value))) (varint_buffer-varint value h)
      (Agrees-varint value)

tag_bits :
    (wiretype tag : ℕ)
    → wiretype < 8
    → bit_or (u64 (tag * 2 ^ 3)) wiretype ≡ u64 (8 * tag) + wiretype
tag_bits wiretype tag h =
    let high : u64 (tag * 2 ^ 3) ≡ tag % 2 ^ 61 * 2 ^ 3 = omega arith in
    rw high (bit_or_fields 3 (tag % 2 ^ 61) wiretype h ∙ omega arith)

pub Agrees-tag :
    (wiretype tag : ℕ)
    → wiretype < 8
    → Agrees (ended (pb_encode_tag wiretype tag)) (tag_bytes wiretype tag)
unfolding pb_encode_tag
Agrees-tag wiretype tag h =
    rw (tag_bits wiretype tag h) (Agrees-size (u64 (8 * tag) + wiretype) (omega arith))

pub Agrees-fixed32 : (value : ℕ) → Agrees (ended (pb_encode_fixed32 value)) (to_bytes 4 value)
unfolding pb_encode_fixed32
Agrees-fixed32 value = Agrees-write (to_bytes 4 value) 4 (length-to_bytes 4 value)

pub Agrees-fixed64 : (value : ℕ) → Agrees (ended (pb_encode_fixed64 value)) (to_bytes 8 value)
unfolding pb_encode_fixed64
Agrees-fixed64 value = Agrees-write (to_bytes 8 value) 8 (length-to_bytes 8 value)

pub Agrees-string :
    (buffer : List ℕ) (size : ℕ)
    → length buffer ≡ size
    → Agrees (ended (pb_encode_string buffer size)) (varint_buffer size ++ buffer)
unfolding pb_encode_string
Agrees-string buffer size e =
    Agrees-and_then _ _ (varint_buffer size) buffer (Agrees-varint size)
      (Agrees-write buffer size e)

Agrees-at :
    (address size : ℕ) (memory : Memory)
    → Agrees (ended (encode_at address size memory)) (string_at address size memory)
Agrees-at address size memory =
    Agrees-string (load_bytes size address memory) size (length-load_bytes size address memory)

small_wiretype : (ltype wiretype : ℕ) → wiretype_of ltype ≡ some wiretype → wiretype < 8
unfolding wiretype_of
small_wiretype ltype wiretype e = ground (arith, e)

Agrees-tag_of :
    (f : Field) (w : Option ℕ)
    → ((wiretype : ℕ) → w ≡ some wiretype → wiretype < 8)
    → Agrees
        (ended (λ s. elim w [
          | none ↦ return_error invalid_field_type s
          | some wiretype ↦ pb_encode_tag wiretype f.tag s
        ]))
        (elim w [ none ↦ [] | some wiretype ↦ tag_bytes wiretype f.tag ])
Agrees-tag_of f none h = Agrees-error invalid_field_type []
Agrees-tag_of f (some wiretype) h = Agrees-tag wiretype f.tag (h wiretype refl)

pub Agrees-tag_for_field : (f : Field) → Agrees (ended (pb_encode_tag_for_field f)) (field_tag f)
unfolding pb_encode_tag_for_field
Agrees-tag_for_field f =
    Agrees-tag_of f (wiretype_of (pb_ltype f.type)) (small_wiretype (pb_ltype f.type))

module _ (f : Field) (src : ℕ) (memory : Memory) where
  Agrees-number :
      (value : ℕ)
      → Agrees
          (ended (λ s.
            if is_int_size f.data_size
            then pb_encode_varint value s
            else return_error invalid_data_size s))
          (varint_buffer value)
  Agrees-number value =
      Agrees-choice _ _ _ (varint_buffer value) (Agrees-varint value)
        (Agrees-error invalid_data_size (varint_buffer value))

  pub Agrees-pb_enc_varint :
      Agrees
        (ended (pb_enc_varint f src memory))
        (varint_buffer (load_signed f.data_size src memory))
  unfolding pb_enc_varint
  Agrees-pb_enc_varint = Agrees-number (load_signed f.data_size src memory)

  pub Agrees-pb_enc_uvarint :
      Agrees
        (ended (pb_enc_uvarint f src memory))
        (varint_buffer (load_number f.data_size src memory))
  unfolding pb_enc_uvarint
  Agrees-pb_enc_uvarint = Agrees-number (load_number f.data_size src memory)

  pub Agrees-pb_enc_svarint :
      Agrees
        (ended (pb_enc_svarint f src memory))
        (varint_buffer (zigzag (load_signed f.data_size src memory)))
  unfolding pb_enc_svarint pb_encode_svarint
  Agrees-pb_enc_svarint = Agrees-number (zigzag (load_signed f.data_size src memory))

  pub Agrees-pb_enc_fixed32 :
      Agrees (ended (pb_enc_fixed32 f src memory)) (to_bytes 4 (load_number 4 src memory))
  unfolding pb_enc_fixed32
  Agrees-pb_enc_fixed32 = Agrees-fixed32 (load_number 4 src memory)

  pub Agrees-pb_enc_fixed64 :
      Agrees (ended (pb_enc_fixed64 f src memory)) (to_bytes 8 (load_number 8 src memory))
  unfolding pb_enc_fixed64
  Agrees-pb_enc_fixed64 = Agrees-fixed64 (load_number 8 src memory)

  Agrees-bytes_at :
      (size : ℕ)
      → Agrees
          (ended (λ s.
            if pb_atype f.type == Atype.static && ltb f.data_size (bytes_array_t_allocsize size)
            then return_error bytes_size_exceeded s
            else encode_at (src + 4) size memory s))
          (string_at (src + 4) size memory)
  Agrees-bytes_at size =
      Agrees-choice _ _ _ (string_at (src + 4) size memory) (Agrees-error bytes_size_exceeded _)
        (Agrees-at (src + 4) size memory)

  pub Agrees-pb_enc_bytes : Agrees (ended (pb_enc_bytes f src memory)) (
      if src == 0
      then string_at src 0 memory
      else string_at (src + 4) (load_number 4 src memory) memory)
  unfolding pb_enc_bytes load_bytes
  Agrees-pb_enc_bytes =
      Agrees-two (src == 0) _ _ (string_at src 0 memory)
        (string_at (src + 4) (load_number 4 src memory) memory) (Agrees-string [] 0 refl)
        (Agrees-bytes_at (load_number 4 src memory))

  pub Agrees-pb_enc_string : Agrees (ended (pb_enc_string f src memory)) (
      if src == 0
      then string_at src 0 memory
      else string_at src
          (string_size
            (if pb_atype f.type == Atype.pointer then 2 ^ 64 - 1 else f.data_size)
            src
            memory)
          memory)
  unfolding pb_enc_string
  Agrees-pb_enc_string =
      let max_size = if pb_atype f.type == Atype.pointer then 2 ^ 64 - 1 else f.data_size in
      let size = string_size max_size src memory in
      Agrees-two (src == 0) _ _ (string_at src 0 memory) (string_at src size memory)
        (Agrees-at src 0 memory) (Agrees-at src size memory)

  pub Agrees-pb_enc_fixed_length_bytes :
      Agrees (ended (pb_enc_fixed_length_bytes f src memory)) (string_at src f.data_size memory)
  unfolding pb_enc_fixed_length_bytes
  Agrees-pb_enc_fixed_length_bytes = Agrees-at src f.data_size memory
