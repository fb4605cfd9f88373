-- ===== src/Nanopb/Types.antt =====
-- AppChat_Again/Pods/nanopb/pb.h: wire types, field types, field descriptors and error texts.
pub mod Wt
pub mod Ltype
pub mod Htype
pub mod Atype
use app_chat_again.Prelude.{ℕ, Option, none, some, bit_and}
use app_chat_again.Prelude.Int.{ℤ}

-- The texts that PB_RETURN_ERROR is called with.
pub data Message : Type 0 where
  end_of_stream io_error varint_overflow invalid_wire_type parent_stream_too_short : Message
  stream_full invalid_field_type invalid_data_size integer_too_large bytes_overflow : Message
  size_too_large string_overflow incorrect_fixed_length_bytes_size : Message
  invalid_size realloc_failed bytes_size_exceeded : Message
  array_overflow too_many_array_entries callback_failed invalid_union_tag iterator_error : Message
  wrong_size_for_fixed_count_field missing_required_field invalid_field_descriptor : Message
  array_max_size_exceeded callback_error submsg_size_changed : Message

-- PB_SET_ERROR: the first message is kept.
abbrev pub set_error : Option Message → Message → Option Message
set_error none msg = some msg
set_error (some old) msg = some old

abbrev pub pb_atype : ℕ → ℕ
pb_atype x = bit_and x 0xC0

abbrev pub pb_htype : ℕ → ℕ
pb_htype x = bit_and x 0x30

abbrev pub pb_ltype : ℕ → ℕ
pb_ltype x = bit_and x 0x0F

-- pb_field_t. `pb_size_t` is `uint32_t` (PB_FIELD_32BIT); `ptr` is an address, 0 for NULL.
pub record Field : Type 0 where
  pub tag : ℕ
  pub type : ℕ
  pub data_offset : ℕ
  pub size_offset : ℤ
  pub data_size : ℕ
  pub array_size : ℕ
  pub ptr : ℕ
