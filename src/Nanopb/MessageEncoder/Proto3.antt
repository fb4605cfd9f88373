-- ===== src/Nanopb/MessageEncoder/Proto3.antt =====
-- AppChat_Again/Pods/nanopb/pb_encode.c: pb_check_proto3_default_value.
use app_chat_again.Prelude.{
  ℕ, zero, suc, ◌+◌, ◌==◌, ◌&&◌, not, Bool, true, false, none, some, Option, List, length,
  if◌then◌else◌,
}
use app_chat_again.Prelude.Int.{ℤ, pos, negsuc}
use app_chat_again.Nanopb.Types.{Field, pb_htype, pb_ltype}
use app_chat_again.Nanopb.Types.Htype
use app_chat_again.Nanopb.Types.Ltype
use app_chat_again.Nanopb.FieldIter.{Iter, current, move, pb_field_iter_begin, pb_field_iter_next}
use app_chat_again.Nanopb.Memory.{Memory}
use app_chat_again.Nanopb.FieldEncoders.{load_number}
use app_chat_again.Nanopb.Host.{Host}
use app_chat_again.Nanopb.Defaults.{has_count}
use app_chat_again.Nanopb.Release.{is_static}

-- `size_offset` as a test.
abbrev pub is_nonzero : ℤ → Bool
is_nonzero (pos n) = not (n == 0)
is_nonzero (negsuc n) = true

-- The byte-per-byte comparison.
unfoldable pub all_zero : ℕ → ℕ → Memory → Bool
all_zero zero p memory = true
all_zero (suc count) p memory =
    let rest = all_zero count (p + 1) memory in if memory p == 0 then rest else false

module _ (host : Host) (memory : Memory) where
  -- The loop over the fields of a submessage; `check` is the recursive call. The outer `none` is
  -- that of the fuel.
  unfoldable pub all_default : (Field → ℕ → Option Bool) → ℕ → Iter → Option Bool
  all_default check zero iter = none
  all_default check (suc rounds) iter = elim (check (current iter) iter.p_data) [
    | none ↦ none
    | some false ↦ some false
    | some true ↦ elim (pb_field_iter_next iter).0 [
      | true ↦ all_default check rounds (pb_field_iter_next iter).1
      | false ↦ some true
    ]
  ]

  unfoldable pub default_submessage : (Field → ℕ → Option Bool) → List Field → ℕ → Option Bool
  unfolding all_default
  default_submessage check fields p_data =
      let (begun, iter) = pb_field_iter_begin fields p_data in
      if begun then all_default check (length fields) iter else some true

  -- A static field without a presence of its own.
  unfoldable pub default_static : (Field → ℕ → Option Bool) → Field → ℕ → Option Bool
  unfolding all_zero default_submessage
  default_static check f p_data =
      if pb_ltype f.type == Ltype.bytes
      then some (load_number 4 p_data memory == 0)
      else if pb_ltype f.type == Ltype.string
      then some (memory p_data == 0)
      else if pb_ltype f.type == Ltype.fixed_length_bytes
      then some (f.data_size == 0)
      else if pb_ltype f.type == Ltype.submessage
      then default_submessage check (host.fields_at f.ptr) p_data
      else some (all_zero f.data_size p_data memory)

  unfoldable pub default_value : (Field → ℕ → Option Bool) → Field → ℕ → Option Bool
  unfolding all_zero default_static
  default_value check f p_data =
      let p_size = move p_data f.size_offset in
      if pb_htype f.type == Htype.required
      then some false
      else if has_count f
      then some (load_number 4 p_size memory == 0)
      else if pb_htype f.type == Htype.optional && is_nonzero f.size_offset
      then some (memory p_size == 0)
      else if is_static f
      then default_static check f p_data
      else some (all_zero f.data_size p_data memory)

  -- The fuel bounds the nesting of the submessages.
  unfoldable pub pb_check_proto3_default_value : ℕ → Field → ℕ → Option Bool
  unfolding default_value
  pb_check_proto3_default_value zero f p_data = none
  pb_check_proto3_default_value (suc fuel) f p_data =
      default_value (pb_check_proto3_default_value fuel) f p_data
