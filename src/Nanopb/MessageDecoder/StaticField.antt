-- ===== src/Nanopb/MessageDecoder/StaticField.antt =====
-- AppChat_Again/Pods/nanopb/pb_decode.c: pb_dec_submessage, the table PB_DECODERS, and decode_static_field.
use app_chat_again.Prelude.{
  Bool, ℕ, zero, suc, ◌+◌, ◌*◌, ◌==◌, ◌&&◌, ◌||◌, not, leb, true, false, none, some, Option, List,
  if◌then◌else◌,
}
use app_chat_again.Prelude.Words.{u32}
use app_chat_again.Nanopb.Types.{
  Field, pb_htype, pb_ltype, array_overflow, invalid_field_descriptor,
}
use app_chat_again.Nanopb.Types.Ltype
use app_chat_again.Nanopb.Types.Htype
use app_chat_again.Nanopb.Types.Wt
use app_chat_again.Nanopb.IStream.{IStream}
use app_chat_again.Nanopb.FieldIter.{Iter, current}
use app_chat_again.Nanopb.Memory.{Memory, Machine}
use app_chat_again.Nanopb.FieldDecoders.{
  return_error, pb_dec_varint, pb_dec_uvarint, pb_dec_svarint, pb_dec_fixed32, pb_dec_fixed64,
  pb_dec_bytes, pb_dec_string, pb_dec_fixed_length_bytes,
}
use app_chat_again.Nanopb.FieldEncoders.{load_number}
use app_chat_again.Nanopb.Host.{Host, store_bool, store_count, change, change_memory}
use app_chat_again.Nanopb.Defaults.{pb_message_set_to_defaults, clear_bytes}
use app_chat_again.Nanopb.MessageDecoder.Steps.{
  on_memory, open_substream, close_after, within, decode_with,
}
use app_chat_again.Nanopb.Run.{when, Run, ended, done, no_answer, carry_on, ◌>>=◌, ◌>>◌}

-- pb_decoder_t
abbrev pub Decoder : Type 0
Decoder = Field → ℕ → Run Machine (Unit {0})

-- The packed form of an array of numbers.
abbrev pub is_packed : ℕ → Field → Bool
is_packed wire_type f = wire_type == Wt.string && leb (pb_ltype f.type) Ltype.last_packable

-- `pData + data_size * (*size)`; the product is a uint32_t.
abbrev pub item_at : ℕ → Field → ℕ → ℕ
item_at p_data f index = p_data + u32 (f.data_size * index)

abbrev pub count_of : Iter → Memory → ℕ
count_of iter memory = load_number 4 iter.p_size memory

-- `while (substream.bytes_left > 0 && *size < array_size)`. A number takes a byte at least.
unfoldable pub packed_static : Decoder → Iter → ℕ → Run Machine (Unit {0})
packed_static func iter zero s = none
packed_static func iter (suc fuel) s =
    let f = current iter in
    let size = count_of iter s.memory in
    elim (s.stream.bytes_left == 0 || leb f.array_size size) [
      | true ↦ done tt s
      | false ↦ carry_on (func f (item_at iter.p_data f size) s) λ _ s'.
          packed_static func iter fuel
            (record s' { memory = store_count iter.p_size (count_of iter s'.memory + 1) s'.memory })
    ]

-- Behind the loop: what is left over is an error of the stream itself.
unfoldable pub close_packed :
    IStream → Option (Option (Unit {0}) × Machine) → Option (Option (Unit {0}) × Machine)
unfolding close_after
close_packed parent none = none
close_packed parent (some (status, s)) =
    if s.stream.bytes_left == 0
    then close_after parent (some (status, s))
    else some (return_error array_overflow (record s { stream = parent }))

unfoldable pub decode_packed_static : Decoder → Iter → Run Machine (Unit {0})
unfolding close_packed packed_static
decode_packed_static func iter = do
  sub ← open_substream
  λ s.
      close_packed s.stream
        (packed_static func iter (sub.bytes_left + 1) (record s { stream = sub }))

unfoldable pub decode_static_item : Decoder → Iter → Run Machine (Unit {0})
decode_static_item func iter s =
    let f = current iter in
    let size = count_of iter s.memory in
    let s' = record s { memory = store_count iter.p_size (size + 1) s.memory } in
    if leb f.array_size size
    then some (return_error array_overflow s')
    else func f (item_at iter.p_data f size) s'

module _ (host : Host) (fuel : ℕ) where
  -- `memset` and the default values.
  unfoldable pub clear_message : Field → ℕ → Run Memory (Unit {0})
  unfolding pb_message_set_to_defaults
  clear_message f target = do
    change (clear_bytes target f.data_size)
    pb_message_set_to_defaults host fuel (host.fields_at f.ptr) target

  unfoldable pub prepare_member : Iter → Run Memory (Unit {0})
  unfolding clear_message
  prepare_member iter =
      let f = current iter in
      (do
        change (store_count iter.p_size f.tag)
        when (pb_ltype f.type == Ltype.submessage) (clear_message f iter.p_data))

module _ (host : Host) (fuel : ℕ) (noinit : List Field → ℕ → Run Machine (Unit {0})) where
  -- `field->ptr` is looked at behind the opening of the substream.
  unfoldable pub pb_dec_submessage : Decoder
  unfolding within decode_with
  pb_dec_submessage field target = do
    sub ← open_substream
    (if field.ptr == 0
        then ended (return_error invalid_field_descriptor)
        else within sub (
            if pb_htype field.type == Htype.repeated
            then decode_with host fuel noinit (host.fields_at field.ptr) target
            else noinit (host.fields_at field.ptr) target))

  -- PB_DECODERS. The entry of extensions is NULL, and behind the table there is none.
  unfoldable pub decoder_of : ℕ → Decoder
  unfolding pb_dec_submessage
  decoder_of ltype field target =
      if ltype == Ltype.varint
      then ended (pb_dec_varint field target)
      else if ltype == Ltype.uvarint
      then ended (pb_dec_uvarint field target)
      else if ltype == Ltype.svarint
      then ended (pb_dec_svarint field target)
      else if ltype == Ltype.fixed32
      then ended (pb_dec_fixed32 field target)
      else if ltype == Ltype.fixed64
      then ended (pb_dec_fixed64 field target)
      else if ltype == Ltype.bytes
      then ended (pb_dec_bytes host.pb_realloc field target)
      else if ltype == Ltype.string
      then ended (pb_dec_string host.pb_realloc field target)
      else if ltype == Ltype.submessage
      then pb_dec_submessage field target
      else if ltype == Ltype.fixed_length_bytes
      then ended (pb_dec_fixed_length_bytes field target)
      else no_answer

  unfoldable pub decode_static_field : ℕ → Iter → Run Machine (Unit {0})
  unfolding decoder_of decode_packed_static decode_static_item prepare_member
  decode_static_field wire_type iter =
      let f = current iter in
      let func = decoder_of (pb_ltype f.type) in
      if pb_htype f.type == Htype.required
      then func f iter.p_data
      else if pb_htype f.type == Htype.optional
      then (do
        when (not (iter.p_size == iter.p_data)) (change_memory (store_bool iter.p_size 1))
        func f iter.p_data)
      else if pb_htype f.type == Htype.repeated
      then (if is_packed wire_type f
          then decode_packed_static func iter
          else decode_static_item func iter)
      else (do on_memory (prepare_member host fuel iter); func f iter.p_data)
