-- ===== src/Nanopb/FieldEncoders.antt =====
-- AppChat_Again/Pods/nanopb/pb_encode.c: the encoders of single values, pb_enc_*. They read the
-- memory and write to the stream.
use app_chat_again.Prelude.{
  zero, true, false, ◌+◌, ltb, ◌-◌, ◌&&◌, ◌^◌, [], ◌==◌, if◌then◌else◌, ◌*◌, suc, ℕ, M,
}
use app_chat_again.Nanopb.Types.{Field, pb_atype, invalid_data_size, bytes_size_exceeded}
use app_chat_again.Nanopb.Types.Atype
use app_chat_again.Nanopb.Memory.{Memory, load_bytes}
use app_chat_again.Nanopb.Decode.{from_bytes}
use app_chat_again.Nanopb.FieldDecoders.{is_int_size, sign_extend, bytes_array_t_allocsize}
use app_chat_again.Nanopb.OStream.{OStream, return_error}
use app_chat_again.Nanopb.Encode.{
  pb_encode_varint, pb_encode_svarint, pb_encode_fixed32, pb_encode_fixed64, pb_encode_string,
}

-- A number of `size` bytes, lowest first.
abbrev pub load_number : ℕ → ℕ → Memory → ℕ
load_number size address memory = from_bytes 0 (load_bytes size address memory) 0

-- The member as an int64_t, by its bits.
abbrev pub load_signed : ℕ → ℕ → Memory → ℕ
load_signed size src memory = sign_extend (8 * size) (load_number size src memory)

unfoldable pub pb_enc_varint : Field → ℕ → Memory → M OStream (Unit {0})
unfolding is_int_size sign_extend
pb_enc_varint field src memory s =
    if is_int_size field.data_size
    then pb_encode_varint (load_signed field.data_size src memory) s
    else return_error invalid_data_size s

unfoldable pub pb_enc_uvarint : Field → ℕ → Memory → M OStream (Unit {0})
unfolding is_int_size
pb_enc_uvarint field src memory s =
    if is_int_size field.data_size
    then pb_encode_varint (load_number field.data_size src memory) s
    else return_error invalid_data_size s

unfoldable pub pb_enc_svarint : Field → ℕ → Memory → M OStream (Unit {0})
unfolding is_int_size sign_extend
pb_enc_svarint field src memory s =
    if is_int_size field.data_size
    then pb_encode_svarint (load_signed field.data_size src memory) s
    else return_error invalid_data_size s

unfoldable pub pb_enc_fixed64 : Field → ℕ → Memory → M OStream (Unit {0})
pb_enc_fixed64 field src memory = pb_encode_fixed64 (load_number 8 src memory)

unfoldable pub pb_enc_fixed32 : Field → ℕ → Memory → M OStream (Unit {0})
pb_enc_fixed32 field src memory = pb_encode_fixed32 (load_number 4 src memory)

-- The memory of a string as pb_encode_string is given it.
abbrev pub encode_at : ℕ → ℕ → Memory → M OStream (Unit {0})
encode_at address size memory = pb_encode_string (load_bytes size address memory) size

-- `bytes->size` is in the first four bytes. A null pointer is an empty field.
unfoldable pub pb_enc_bytes : Field → ℕ → Memory → M OStream (Unit {0})
pb_enc_bytes field src memory s =
    let size = load_number 4 src memory in
    if src == 0
    then pb_encode_string [] 0 s
    else if pb_atype field.type == Atype.static
        && ltb field.data_size (bytes_array_t_allocsize size)
    then return_error bytes_size_exceeded s
    else encode_at (src + 4) size memory s

-- The loop over the characters, at most as many as are left.
unfoldable pub string_size : ℕ → ℕ → Memory → ℕ
string_size zero p memory = 0
string_size (suc left) p memory = elim (memory p == 0) [
  | true ↦ 0
  | false ↦ suc (string_size left (p + 1) memory)
]

unfoldable pub pb_enc_string : Field → ℕ → Memory → M OStream (Unit {0})
unfolding string_size
pb_enc_string field src memory s =
    let max_size = if pb_atype field.type == Atype.pointer then 2 ^ 64 - 1 else field.data_size in
    if src == 0
    then encode_at src 0 memory s
    else encode_at src (string_size max_size src memory) memory s

unfoldable pub pb_enc_fixed_length_bytes : Field → ℕ → Memory → M OStream (Unit {0})
pb_enc_fixed_length_bytes field src memory = encode_at src field.data_size memory
