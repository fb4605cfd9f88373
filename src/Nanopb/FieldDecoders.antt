-- ===== src/Nanopb/FieldDecoders.antt =====
-- AppChat_Again/Pods/nanopb/pb_decode.c: the decoders of single values, pb_dec_*, and allocate_field.
-- A pointer is an address in the memory; a number is stored there lowest byte first.
pub mod Region
pub mod Static
pub mod Allocate
use app_chat_again.Prelude.{
  ◌>>=◌, ◌>>◌, ◌/◌, not, ◌&&◌, ◌-◌, replicate, [], take, leb, ◌*◌, ◌||◌, ltb, none, ◌==◌, ◌∷◌,
  if◌then◌else◌, ◌^◌, List, some, Option, ◌%◌, M, ◌+◌, Bool, ℕ,
}
use app_chat_again.Prelude.Words.{u32, u64}
use app_chat_again.Nanopb.Types.{
  Message, Field, set_error, pb_atype, size_too_large, invalid_size, realloc_failed,
  invalid_data_size, integer_too_large, bytes_overflow, string_overflow,
  incorrect_fixed_length_bytes_size,
}
use app_chat_again.Nanopb.Types.Atype
use app_chat_again.Nanopb.FieldIter.{pb_size_max}
use app_chat_again.Nanopb.Memory.{Memory, Machine, on_stream, put_bytes, store_bytes, load_bytes}
use app_chat_again.Nanopb.IStream.{IStream, dest, pb_read}
use app_chat_again.Nanopb.Encode.{to_bytes}
use app_chat_again.Nanopb.Decode.{
  from_bytes, pb_decode_varint, pb_decode_varint32, pb_decode_svarint, pb_decode_fixed32,
  pb_decode_fixed64,
}

abbrev pub return_error {ℓ} : {A : Type ℓ} → Message → M Machine A
return_error msg s =
    (none, record s { stream = record (s.stream) { errmsg = set_error s.stream.errmsg msg } })

-- A number cast to a signed type of `width` bits and then to int64_t, as the bits of the latter.
unfoldable pub sign_extend : ℕ → ℕ → ℕ
sign_extend width value =
    let low = value % 2 ^ width in
    if leb (2 ^ (width - 1)) low then low + (2 ^ 64 - 2 ^ width) else low

-- The sizes that an integer field can have.
unfoldable pub is_int_size : ℕ → Bool
is_int_size size = size == 8 || size == 4 || size == 2 || size == 1

-- The number is stored first, and then compared with what was stored.
abbrev pub check_clamped : ℕ → ℕ → M Machine (Unit {0})
check_clamped clamped value s =
    if clamped == value then (some tt, s) else return_error integer_too_large s

unfoldable pub store_signed : ℕ → ℕ → ℕ → M Machine (Unit {0})
unfolding is_int_size sign_extend
store_signed size target svalue s =
    if is_int_size size
    then check_clamped (sign_extend (8 * size) svalue) svalue
        (put_bytes target (to_bytes size svalue) s)
    else return_error invalid_data_size s

unfoldable pub store_unsigned : ℕ → ℕ → ℕ → M Machine (Unit {0})
unfolding is_int_size
store_unsigned size target value s =
    if is_int_size size
    then check_clamped (value % 2 ^ (8 * size)) value (put_bytes target (to_bytes size value) s)
    else return_error invalid_data_size s

-- A value of 32 bits or less is cast to int32_t first.
unfoldable pub pb_dec_varint : Field → ℕ → M Machine (Unit {0})
unfolding sign_extend
pb_dec_varint field target = do
  value ← on_stream pb_decode_varint
  store_signed field.data_size target (if field.data_size == 8 then value else sign_extend 32 value)

unfoldable pub pb_dec_uvarint : Field → ℕ → M Machine (Unit {0})
pb_dec_uvarint field target = do
  value ← on_stream pb_decode_varint
  store_unsigned field.data_size target value

unfoldable pub pb_dec_svarint : Field → ℕ → M Machine (Unit {0})
pb_dec_svarint field target = do
  value ← on_stream pb_decode_svarint
  store_signed field.data_size target value

abbrev pub store_value : ℕ → ℕ → ℕ → M Machine (Unit {0})
store_value size target value s = (some tt, put_bytes target (to_bytes size value) s)

unfoldable pub pb_dec_fixed32 : Field → ℕ → M Machine (Unit {0})
pb_dec_fixed32 field target = do value ← on_stream pb_decode_fixed32; store_value 4 target value

unfoldable pub pb_dec_fixed64 : Field → ℕ → M Machine (Unit {0})
pb_dec_fixed64 field target = do value ← on_stream pb_decode_fixed64; store_value 8 target value

-- `pb_read(stream, target, count)`
unfoldable pub stored : ℕ → ℕ → Option (List ℕ) × IStream → Machine → Option (Unit {0}) × Machine
stored target count (none, stream) s = (none, record s { stream = stream })
stored target count (some bytes, stream) s =
    (some tt, put_bytes target (take count bytes) (record s { stream = stream }))

unfoldable pub read_to : ℕ → ℕ → M Machine (Unit {0})
unfolding stored
read_to target count s = stored target count (pb_read dest count s.stream) s

-- `*((pb_byte_t*)target + size) = 0`, whatever the status.
unfoldable pub terminate : ℕ → Option (Unit {0}) × Machine → Option (Unit {0}) × Machine
terminate address (status, s) = (status, put_bytes address (0 ∷ []) s)

unfoldable pub read_string : ℕ → ℕ → M Machine (Unit {0})
unfolding read_to terminate
read_string target size s = terminate (target + size) (read_to target size s)

-- PB_BYTES_ARRAY_T_ALLOCSIZE: the size is in the first four bytes of a pb_bytes_array_t.
abbrev pub bytes_array_t_allocsize : ℕ → ℕ
bytes_array_t_allocsize n = n + 4

unfoldable pub read_bytes_array : ℕ → ℕ → M Machine (Unit {0})
unfolding read_to
read_bytes_array bdest size s = read_to (bdest + 4) size (put_bytes bdest (to_bytes 4 size) s)

abbrev pub load_pointer : ℕ → Memory → ℕ
load_pointer address memory = from_bytes 0 (load_bytes 8 address memory) 0

unfoldable pub after_realloc : ℕ → ℕ × Memory → M Machine (Unit {0})
after_realloc p_data (ptr, memory) s =
    if ptr == 0
    then return_error realloc_failed (record s { memory = memory })
    else store_value 8 p_data ptr (record s { memory = memory })

-- `pb_realloc` is given the old pointer and a size; it answers the new one, 0 for NULL.
module _ (pb_realloc : ℕ → ℕ → Memory → ℕ × Memory) where
  unfoldable pub allocate_field : ℕ → ℕ → ℕ → M Machine (Unit {0})
  unfolding after_realloc
  allocate_field p_data data_size array_size s =
      if data_size == 0 || array_size == 0
      then return_error invalid_size s
      else if (leb (2 ^ 32) data_size || leb (2 ^ 32) array_size)
          && ltb ((2 ^ 64 - 1) / array_size) data_size
      then return_error size_too_large s
      else after_realloc p_data
          (pb_realloc (load_pointer p_data s.memory) (u64 (array_size * data_size)) s.memory) s

  -- The pointer that was stored is read again.
  unfoldable pub into_allocated : ℕ → ℕ → (ℕ → M Machine (Unit {0})) → M Machine (Unit {0})
  unfolding allocate_field
  into_allocated target alloc_size fill = do
    allocate_field target alloc_size 1
    λ s. fill (load_pointer target s.memory) s

  unfoldable pub bytes_of_size : Field → ℕ → ℕ → M Machine (Unit {0})
  bytes_of_size field target size s =
      let alloc_size = bytes_array_t_allocsize size in
      if ltb pb_size_max size
      then return_error bytes_overflow s
      else if ltb alloc_size size
      then return_error size_too_large s
      else if pb_atype field.type == Atype.pointer
      then into_allocated target alloc_size (λ bdest. read_bytes_array bdest size) s
      else if ltb field.data_size alloc_size
      then return_error bytes_overflow s
      else read_bytes_array target size s

  unfoldable pub pb_dec_bytes : Field → ℕ → M Machine (Unit {0})
  pb_dec_bytes field target = do
    size ← on_stream pb_decode_varint32
    bytes_of_size field target size

  -- `size + 1` is a uint32_t.
  unfoldable pub string_of_size : Field → ℕ → ℕ → M Machine (Unit {0})
  string_of_size field target size s =
      let alloc_size = u32 (size + 1) in
      if ltb alloc_size size
      then return_error size_too_large s
      else if pb_atype field.type == Atype.pointer
      then into_allocated target alloc_size (λ ptr. read_string ptr size) s
      else if ltb field.data_size alloc_size
      then return_error string_overflow s
      else read_string target size s

  unfoldable pub pb_dec_string : Field → ℕ → M Machine (Unit {0})
  pb_dec_string field target = do
    size ← on_stream pb_decode_varint32
    string_of_size field target size

-- An empty string stands for zeros.
unfoldable pub fixed_length_of_size : Field → ℕ → ℕ → M Machine (Unit {0})
fixed_length_of_size field target size s =
    if ltb pb_size_max size
    then return_error bytes_overflow s
    else if size == 0
    then (some tt, put_bytes target (replicate field.data_size 0) s)
    else if not (size == field.data_size)
    then return_error incorrect_fixed_length_bytes_size s
    else read_to target field.data_size s

unfoldable pub pb_dec_fixed_length_bytes : Field → ℕ → M Machine (Unit {0})
pb_dec_fixed_length_bytes field target = do
  size ← on_stream pb_decode_varint32
  fixed_length_of_size field target size
