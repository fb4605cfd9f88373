-- ===== src/Nanopb/MessageEncoder/Submessage.antt =====
-- AppChat_Again/Pods/nanopb/pb_encode.c: pb_encode_submessage, with the encoder of the message as an
-- argument, the table PB_ENCODERS, and encode_array.
use app_chat_again.Prelude.{
  ℕ, zero, suc, ◌+◌, ◌*◌, ◌==◌, ◌&&◌, not, ltb, leb, none, some, Option, List, [], if◌then◌else◌,
}
use app_chat_again.Prelude.Words.{u64}
use app_chat_again.Nanopb.Types.{
  Field, pb_ltype, stream_full, submsg_size_changed, invalid_field_descriptor,
  array_max_size_exceeded,
}
use app_chat_again.Nanopb.Types.Ltype
use app_chat_again.Nanopb.Types.Wt
use app_chat_again.Nanopb.Memory.{Memory}
use app_chat_again.Nanopb.OStream.{OStream, return_error, is_sizing, pb_write, pb_ostream_sizing}
use app_chat_again.Nanopb.Encode.{pb_encode_varint, pb_encode_tag, pb_encode_tag_for_field}
use app_chat_again.Nanopb.FieldDecoders.{load_pointer}
use app_chat_again.Nanopb.FieldEncoders.{
  pb_enc_varint, pb_enc_uvarint, pb_enc_svarint, pb_enc_fixed32, pb_enc_fixed64, pb_enc_bytes,
  pb_enc_string, pb_enc_fixed_length_bytes,
}
use app_chat_again.Nanopb.Host.{Host}
use app_chat_again.Nanopb.Release.{is_text, is_pointer}
use app_chat_again.Nanopb.Run.{Run, ended, done, no_answer, carry_on, ◌>>=◌, ◌>>◌}

-- pb_encoder_t. The memory is only read.
abbrev pub Encoder : Type 0
Encoder = Field → ℕ → Run OStream (Unit {0})

-- What is written back to the stream after the second pass.
unfoldable pub after_second_pass :
    ℕ → OStream → Option (Option (Unit {0}) × OStream) → Option (Option (Unit {0}) × OStream)
after_second_pass size s none = none
after_second_pass size s (some (status, sub)) =
    let s' = record s {
      bytes_written = u64 (s.bytes_written + sub.bytes_written);
      state = sub.state;
      errmsg = sub.errmsg;
    } in
    if not (sub.bytes_written == size)
    then some (return_error submsg_size_changed s')
    else some (status, s')

-- Behind the length.
unfoldable pub second_pass : Run OStream (Unit {0}) → ℕ → Run OStream (Unit {0})
unfolding after_second_pass
second_pass encode size s =
    if is_sizing s.callback
    then some (pb_write [] size s)
    else if ltb s.max_size (u64 (s.bytes_written + size))
    then some (return_error stream_full s)
    else after_second_pass size s
        (encode (record s { max_size = size; bytes_written = 0; errmsg = none }))

unfoldable pub after_first_pass :
    Run OStream (Unit {0})
    → OStream
    → Option (Option (Unit {0}) × OStream)
    → Option (Option (Unit {0}) × OStream)
unfolding second_pass pb_encode_varint
after_first_pass encode s none = none
after_first_pass encode s (some (none, sub)) = some (none, record s { errmsg = sub.errmsg })
after_first_pass encode s (some (some tt, sub)) =
    (do ended (pb_encode_varint sub.bytes_written); second_pass encode sub.bytes_written) s

unfoldable pub pb_encode_submessage : Run OStream (Unit {0}) → Run OStream (Unit {0})
unfolding after_first_pass pb_ostream_sizing
pb_encode_submessage encode s = after_first_pass encode s (encode pb_ostream_sizing)

-- `for (i = 0; i < count; i++)`, from the pointer `p` on.
unfoldable pub encode_items : Encoder → Field → ℕ → ℕ → Run OStream (Unit {0})
encode_items func f zero p s = done tt s
encode_items func f (suc count) p s =
    carry_on (func f p s) λ _ s'. encode_items func f count (p + f.data_size) s'

-- The answer of the sizing stream; where it fails, the stream itself is left alone.
unfoldable pub size_of : Option (Option (Unit {0}) × OStream) → Run OStream ℕ
size_of none s = none
size_of (some (none, sizestream)) s = some (none, s)
size_of (some (some tt, sizestream)) s = some (some sizestream.bytes_written, s)

-- The total size of a packed array.
unfoldable pub packed_size : Encoder → Field → ℕ → ℕ → Run OStream ℕ
unfolding size_of encode_items
packed_size func f p_data count =
    if pb_ltype f.type == Ltype.fixed32
    then done (u64 (4 * count))
    else if pb_ltype f.type == Ltype.fixed64
    then done (u64 (8 * count))
    else size_of (encode_items func f count p_data pb_ostream_sizing)

unfoldable pub encode_packed : Encoder → Field → ℕ → ℕ → Run OStream (Unit {0})
unfolding packed_size encode_items
encode_packed func f p_data count = do
  ended (pb_encode_tag Wt.string f.tag)
  size ← packed_size func f p_data count
  ended (pb_encode_varint size)
  λ s.
      if is_sizing s.callback then some (pb_write [] size s) else encode_items func f count p_data s

module _ (memory : Memory) where
  -- An entry of its own; those of strings and bytes in an allocated array are pointers.
  unfoldable pub encode_entry : Encoder → Encoder
  unfolding pb_encode_tag_for_field
  encode_entry func f p = do
    ended (pb_encode_tag_for_field f)
    func f (if is_pointer f && is_text f then load_pointer p memory else p)

  unfoldable pub encode_array : Field → ℕ → ℕ → Encoder → Run OStream (Unit {0})
  unfolding encode_packed encode_items encode_entry
  encode_array f p_data count func =
      if count == 0
      then done tt
      else if not (is_pointer f) && ltb f.array_size count
      then ended (return_error array_max_size_exceeded)
      else if leb (pb_ltype f.type) Ltype.last_packable
      then encode_packed func f p_data count
      else encode_items (encode_entry func) f count p_data

  module _ (host : Host) (encode : List Field → ℕ → Run OStream (Unit {0})) where
    unfoldable pub pb_enc_submessage : Encoder
    unfolding pb_encode_submessage
    pb_enc_submessage field src =
        if field.ptr == 0
        then ended (return_error invalid_field_descriptor)
        else pb_encode_submessage (encode (host.fields_at field.ptr) src)

    -- PB_ENCODERS. The entry of extensions is NULL, and behind the table there is none.
    unfoldable pub encoder_of : ℕ → Encoder
    unfolding pb_enc_submessage
    encoder_of ltype field src =
        if ltype == Ltype.varint
        then ended (pb_enc_varint field src memory)
        else if ltype == Ltype.uvarint
        then ended (pb_enc_uvarint field src memory)
        else if ltype == Ltype.svarint
        then ended (pb_enc_svarint field src memory)
        else if ltype == Ltype.fixed32
        then ended (pb_enc_fixed32 field src memory)
        else if ltype == Ltype.fixed64
        then ended (pb_enc_fixed64 field src memory)
        else if ltype == Ltype.bytes
        then ended (pb_enc_bytes field src memory)
        else if ltype == Ltype.string
        then ended (pb_enc_string field src memory)
        else if ltype == Ltype.submessage
        then pb_enc_submessage field src
        else if ltype == Ltype.fixed_length_bytes
        then ended (pb_enc_fixed_length_bytes field src memory)
        else no_answer
