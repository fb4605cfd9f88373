-- ===== src/Nanopb/MessageEncoder.antt =====
-- AppChat_Again/Pods/nanopb/pb_encode.c: messages.
pub mod Submessage
pub mod Proto3
pub mod Wire
pub mod Sizing
use app_chat_again.Prelude.{
  ℕ, zero, suc, ◌+◌, ◌==◌, ◌&&◌, ◌||◌, not, Bool, true, false, none, some, Option, List, ◌∷◌, [],
  if◌then◌else◌, M,
}
use app_chat_again.Nanopb.Types.{
  Field, pb_htype, pb_ltype, pb_atype, missing_required_field, callback_error, invalid_field_type,
}
use app_chat_again.Nanopb.Types.Htype
use app_chat_again.Nanopb.Types.Atype
use app_chat_again.Nanopb.Types.Ltype
use app_chat_again.Nanopb.FieldIter.{Iter, current, field_at, move}
use app_chat_again.Nanopb.Memory.{Memory}
use app_chat_again.Nanopb.OStream.{OStream, return_error, pb_write, pb_ostream_sizing}
use app_chat_again.Nanopb.Encode.{pb_encode_tag_for_field}
use app_chat_again.Nanopb.FieldDecoders.{load_pointer}
use app_chat_again.Nanopb.FieldEncoders.{load_number}
use app_chat_again.Nanopb.Host.{
  Host, callback_function, callback_arg, extension_next, extension_type, extension_dest,
  type_encode, extension_fields,
}
use app_chat_again.Nanopb.Release.{is_pointer}
use app_chat_again.Nanopb.MessageEncoder.Submessage.{
  Encoder, encoder_of, encode_array, pb_encode_submessage,
}
use app_chat_again.Nanopb.MessageEncoder.Proto3.{is_nonzero, pb_check_proto3_default_value}
use app_chat_again.Nanopb.Run.{
  Run, ended, done, no_answer, carry_on, when, for_each_field, ◌>>=◌, ◌>>◌,
}

unfoldable pub callback_result : Option (Unit {0}) × OStream → Option (Unit {0}) × OStream
callback_result (some tt, s) = (some tt, s)
callback_result (none, s) = return_error callback_error s

module _ (host : Host) (memory : Memory) where
  unfoldable pub encode_callback_field : Field → ℕ → Run OStream (Unit {0})
  unfolding callback_result
  encode_callback_field f p_data =
      let function = callback_function p_data memory in
      when (not (function == 0)) (λ s.
        some (callback_result (host.encode_callback function f (callback_arg p_data) memory s)))

module _ (host : Host) (memory : Memory) (fuel : ℕ) where
  -- `implicit_has` behind the first tests; none is the fuel's.
  unfoldable pub implicit_has : Field → ℕ → Option Bool
  unfolding pb_check_proto3_default_value
  implicit_has f p_data =
      if is_nonzero f.size_offset || not (pb_htype f.type == Htype.optional)
      then some true
      else elim (pb_check_proto3_default_value host memory fuel f p_data) [
        | none ↦ none
        | some is_default ↦ some (not is_default)
      ]

  -- `*(const bool*)pSize`: pSize points to the member of the structure, or to `implicit_has`, which
  -- for a pointer is whether it is not NULL.
  unfoldable pub is_present : Field → ℕ → Option Bool
  unfolding implicit_has
  is_present f p_data =
      if is_nonzero f.size_offset
      then some (not (memory (move p_data f.size_offset) == 0))
      else if is_pointer f
      then some (not (load_pointer p_data memory == 0))
      else implicit_has f p_data

  module _ (encode : List Field → ℕ → Run OStream (Unit {0})) where
    unfoldable pub encode_one : Field → ℕ → Run OStream (Unit {0})
    unfolding encoder_of pb_encode_tag_for_field
    encode_one f p_data = do
      ended (pb_encode_tag_for_field f)
      encoder_of memory host encode (pb_ltype f.type) f p_data

    -- The loads of pSize are of `implicit_has`, one byte, where the field has no offset of the size.
    unfoldable pub encode_basic_field : Field → ℕ → Run OStream (Unit {0})
    unfolding is_present encode_one encode_array encoder_of
    encode_basic_field f p_field =
        let p_size = move p_field f.size_offset in
        let p_data = if is_pointer f then load_pointer p_field memory else p_field in
        if pb_htype f.type == Htype.required
        then (if p_data == 0
            then ended (return_error missing_required_field)
            else encode_one f p_data)
        else if pb_htype f.type == Htype.optional
        then elim (is_present f p_field) [
          | none ↦ no_answer
          | some present ↦ when present (encode_one f p_data)
        ]
        else if pb_htype f.type == Htype.repeated
        then encode_array memory f p_data
            (if is_nonzero f.size_offset then load_number 4 p_size memory else f.array_size)
            (encoder_of memory host encode (pb_ltype f.type))
        else when (load_number 4 p_size memory == f.tag) (encode_one f p_data)

    unfoldable pub encode_field : Field → ℕ → Run OStream (Unit {0})
    unfolding encode_basic_field encode_callback_field
    encode_field f p_data =
        if pb_atype f.type == Atype.static || pb_atype f.type == Atype.pointer
        then encode_basic_field f p_data
        else if pb_atype f.type == Atype.callback
        then encode_callback_field host memory f p_data
        else ended (return_error invalid_field_type)

    unfoldable pub default_extension_encoder : ℕ → Run OStream (Unit {0})
    unfolding encode_field
    default_extension_encoder extension =
        let f = field_at (extension_fields host extension memory) 0 in
        encode_field f (
          if is_pointer f
          then extension_dest extension
          else load_pointer (extension_dest extension) memory)

    unfoldable pub handle_extension : ℕ → Run OStream (Unit {0})
    unfolding default_extension_encoder
    handle_extension extension =
        let handler = type_encode (extension_type extension memory) memory in
        if handler == 0
        then default_extension_encoder extension
        else ended (host.encode_extension handler extension memory)

    -- `while (extension)`, a unit of fuel for each.
    unfoldable pub encode_extensions : ℕ → ℕ → Run OStream (Unit {0})
    unfolding handle_extension
    encode_extensions zero extension s = none
    encode_extensions (suc rounds) extension s = elim (extension == 0) [
      | true ↦ done tt s
      | false ↦
          carry_on (handle_extension extension s)
            λ _. encode_extensions rounds (extension_next extension memory)
    ]

    unfoldable pub encode_extension_field : ℕ → Run OStream (Unit {0})
    unfolding encode_extensions
    encode_extension_field p_data = encode_extensions (fuel + 1) (load_pointer p_data memory)

    -- The body of the loop of pb_encode.
    unfoldable pub encode_member : Iter → Run OStream (Unit {0})
    unfolding encode_extension_field encode_field
    encode_member iter =
        if pb_ltype (current iter).type == Ltype.extension
        then encode_extension_field iter.p_data
        else encode_field (current iter) iter.p_data

-- `*size`; the inner `none` is the answer `false`.
unfoldable pub encoded_size : Option (Option (Unit {0}) × OStream) → Option (Option ℕ)
encoded_size none = none
encoded_size (some (none, stream)) = some none
encoded_size (some (some tt, stream)) = some (some stream.bytes_written)

module _ (host : Host) (memory : Memory) where
  -- The fuel bounds the nesting of messages and the length of every list of extensions.
  unfoldable pub pb_encode : ℕ → List Field → ℕ → Run OStream (Unit {0})
  unfolding for_each_field encode_member
  pb_encode zero fields src_struct s = none
  pb_encode (suc fuel) fields src_struct s =
      for_each_field (encode_member host memory fuel (pb_encode fuel)) fields src_struct s

  unfoldable pub pb_encode_delimited : ℕ → List Field → ℕ → Run OStream (Unit {0})
  unfolding pb_encode pb_encode_submessage
  pb_encode_delimited fuel fields src_struct =
      pb_encode_submessage (pb_encode fuel fields src_struct)

  unfoldable pub pb_encode_nullterminated : ℕ → List Field → ℕ → Run OStream (Unit {0})
  unfolding pb_encode pb_write
  pb_encode_nullterminated fuel fields src_struct = do
    pb_encode fuel fields src_struct
    ended (pb_write (0 ∷ []) 1)

  unfoldable pub pb_get_encoded_size : ℕ → List Field → ℕ → Option (Option ℕ)
  unfolding encoded_size pb_encode
  pb_get_encoded_size fuel fields src_struct =
      encoded_size (pb_encode fuel fields src_struct pb_ostream_sizing)
