-- ===== src/Nanopb/MessageEncoder/Sizing/Messages.antt =====
-- AppChat_Again/Pods/nanopb/pb_encode.c: fields and messages on a stream that only counts.
use app_chat_again.Nanopb.Release.{is_pointer}
use app_chat_again.Nanopb.RoundTrip.Fixed.{length-to_bytes}
use app_chat_again.Nanopb.Encode.{to_bytes, pb_encode_fixed32, pb_encode_fixed64}
use app_chat_again.Nanopb.MessageEncoder.Sizing.Submessages.{Agrees-pb_encode_submessage}
use app_chat_again.Nanopb.MessageEncoder.Sizing.Arrays.{
  FixedSize, Agrees-encode_items, Agrees-encode_packed,
}
use app_chat_again.Nanopb.FieldEncoders.{load_number, pb_enc_fixed64, pb_enc_fixed32}
use app_chat_again.Nanopb.MessageEncoder.Sizing.Values.{
  Agrees-pb_enc_fixed_length_bytes, Agrees-pb_enc_string, Agrees-pb_enc_bytes, Agrees-tag_for_field,
  Agrees-pb_enc_fixed64, Agrees-pb_enc_fixed32, Agrees-pb_enc_svarint, Agrees-pb_enc_uvarint,
  Agrees-error, Agrees-no_answer, Agrees-pb_enc_varint,
}
use app_chat_again.Nanopb.OStream.{OStream}
use app_chat_again.Prelude.{[], leb, ltb, ◌&&◌, not, ◌==◌, zero, ◌≡◌, ==_iff, length, List, ℕ}
use app_chat_again.Nanopb.Memory.{Memory}
use app_chat_again.Nanopb.FieldIter.{pb_field_iter_next, pb_field_iter_begin, Iter}
use app_chat_again.Nanopb.Host.{Host}
use app_chat_again.Nanopb.Types.Ltype
use app_chat_again.Nanopb.Types.{pb_ltype, Field, array_max_size_exceeded, invalid_field_descriptor}
use app_chat_again.Nanopb.MessageEncoder.{
  is_pointer, suc, pb_ltype, List, ℕ, OStream, Host, Memory, Iter,
}
use app_chat_again.Nanopb.MessageEncoder.Wire.{
  UserBytes, entry_bytes, over_bytes, fields_bytes, with_length, value_bytes, array_bytes,
  string_at, field_tag,
}
use app_chat_again.Nanopb.MessageEncoder.Sizing.{
  Agrees-either, Agrees, Agrees-then, Agrees-branch, Agrees-test, Agrees-done, Writes-write,
}
use app_chat_again.Nanopb.MessageEncoder.Submessage.{
  encoder_of, encode_array, encode_entry, pb_enc_submessage,
}
use app_chat_again.Nanopb.Run.{Run, over_fields, for_each_field, ended}

-- An encoder of the user counts the bytes that it writes.
abbrev pub UserAgrees : Host → Memory → UserBytes → Type 0
UserAgrees host memory user =
    ((function : ℕ) (f : Field) (arg : ℕ)
      → Agrees (ended (host.encode_callback function f arg memory)) (user.callback function f arg))
    × ((handler extension : ℕ)
        → Agrees (ended (host.encode_extension handler extension memory))
            (user.extension handler extension))

pub Agrees-over_fields :
    (body : Iter → Run OStream (Unit {0})) (member : Iter → List ℕ)
    → ((iter : Iter) → Agrees (body iter) (member iter))
    → (rounds : ℕ) (iter : Iter)
    → Agrees (over_fields body rounds iter) (over_bytes member rounds iter)
unfolding over_fields over_bytes
Agrees-over_fields body member h zero iter = Agrees-no_answer []
Agrees-over_fields body member h (suc rounds) iter =
    let next = pb_field_iter_next iter in
    Agrees-then (body iter) _ (member iter) _ (h iter) (
      Agrees-test next.0 _ _ (over_bytes member rounds next.1) []
        (Agrees-over_fields body member h rounds next.1) Agrees-done)

pub Agrees-for_each_field :
    (body : Iter → Run OStream (Unit {0})) (member : Iter → List ℕ)
    → ((iter : Iter) → Agrees (body iter) (member iter))
    → (fields : List Field) (src_struct : ℕ)
    → Agrees (for_each_field body fields src_struct) (fields_bytes member fields src_struct)
unfolding for_each_field fields_bytes
Agrees-for_each_field body member h fields src_struct =
    let begun = pb_field_iter_begin fields src_struct in
    Agrees-test begun.0 _ _ (over_bytes member (length fields) begun.1) []
      (Agrees-over_fields body member h (length fields) begun.1) Agrees-done

module _ (memory : Memory) (host : Host) (user : UserBytes)
    (encode : List Field → ℕ → Run OStream (Unit {0})) (message : List Field → ℕ → List ℕ)
    (h : (fields : List Field) (src : ℕ) → Agrees (encode fields src) (message fields src)) where
  Agrees-pb_enc_submessage :
      (f : Field) (src : ℕ)
      → Agrees
          (pb_enc_submessage memory host encode f src)
          (with_length (message (host.fields_at f.ptr) src))
  unfolding pb_enc_submessage
  Agrees-pb_enc_submessage f src =
      let bytes = message (host.fields_at f.ptr) src in
      Agrees-either (f.ptr == 0) _ _ (with_length bytes)
        (λ _. Agrees-error invalid_field_descriptor (with_length bytes))
        (λ _. Agrees-pb_encode_submessage _ bytes (h (host.fields_at f.ptr) src))

  abbrev bytes_of : ℕ → Field → ℕ → List ℕ
  bytes_of = value_bytes host memory user message

  pub Agrees-encoder_of :
      (ltype : ℕ) (f : Field) (src : ℕ)
      → Agrees (encoder_of memory host encode ltype f src) (bytes_of ltype f src)
  unfolding encoder_of value_bytes
  Agrees-encoder_of ltype f src =
      Agrees-branch (ltype == Ltype.varint) _ _ _ _ (λ _. Agrees-pb_enc_varint f src memory)
        λ _.
          Agrees-branch (ltype == Ltype.uvarint) _ _ _ _ (λ _. Agrees-pb_enc_uvarint f src memory)
            λ _.
              Agrees-branch (ltype == Ltype.svarint) _ _ _ _
                (λ _. Agrees-pb_enc_svarint f src memory)
                λ _.
                  Agrees-branch (ltype == Ltype.fixed32) _ _ _ _
                    (λ _. Agrees-pb_enc_fixed32 f src memory)
                    λ _.
                      Agrees-branch (ltype == Ltype.fixed64) _ _ _ _
                        (λ _. Agrees-pb_enc_fixed64 f src memory)
                        λ _.
                          Agrees-branch (ltype == Ltype.bytes) _ _ _ _
                            (λ _. Agrees-pb_enc_bytes f src memory)
                            λ _.
                              Agrees-branch (ltype == Ltype.string) _ _ _ _
                                (λ _. Agrees-pb_enc_string f src memory)
                                λ _.
                                  Agrees-branch (ltype == Ltype.submessage) _ _ _ _
                                    (λ _. Agrees-pb_enc_submessage f src)
                                    λ _.
                                      Agrees-either (ltype == Ltype.fixed_length_bytes) _ _
                                        (string_at src f.data_size memory)
                                        (λ _. Agrees-pb_enc_fixed_length_bytes f src memory)
                                        (λ _. Agrees-no_answer _)

  -- Fixed numbers are as long in the message as PB_LTYPE_FIXED32 and PB_LTYPE_FIXED64 say.
  fixed32_size :
      (ltype : ℕ) (f : Field)
      → ltype ≡ Ltype.fixed32
      → FixedSize (encoder_of memory host encode ltype) (bytes_of ltype) f 4
  unfolding encoder_of value_bytes pb_enc_fixed32 pb_encode_fixed32
  fixed32_size ltype f e p =
      let value = load_number 4 p memory in
      rw e (length-to_bytes 4 value, Writes-write (to_bytes 4 value) 4 (length-to_bytes 4 value))

  fixed64_size :
      (ltype : ℕ) (f : Field)
      → ltype ≡ Ltype.fixed64
      → FixedSize (encoder_of memory host encode ltype) (bytes_of ltype) f 8
  unfolding encoder_of value_bytes pb_enc_fixed64 pb_encode_fixed64
  fixed64_size ltype f e p =
      let value = load_number 8 p memory in
      rw e (length-to_bytes 8 value, Writes-write (to_bytes 8 value) 8 (length-to_bytes 8 value))

  pub Agrees-encode_array :
      (f : Field) (p_data count : ℕ)
      → Agrees
          (encode_array memory f p_data count (encoder_of memory host encode (pb_ltype f.type)))
          (array_bytes host memory user (bytes_of (pb_ltype f.type)) f p_data count)
  unfolding encode_array encode_entry array_bytes
  Agrees-encode_array f p_data count =
      let func = encoder_of memory host encode (pb_ltype f.type) in
      Agrees-branch (count == 0) _ _ [] _ (λ _. Agrees-done)
        λ _.
          Agrees-either (not (is_pointer f) && ltb f.array_size count) _ _ _
            (λ _. Agrees-error array_max_size_exceeded _)
            λ _.
              Agrees-branch (leb (pb_ltype f.type) Ltype.last_packable) _ _ _ _
                (λ _.
                  Agrees-encode_packed func (bytes_of (pb_ltype f.type)) f
                    (λ e. fixed32_size (pb_ltype f.type) f ((==_iff _ _).0 e))
                    (λ e. fixed64_size (pb_ltype f.type) f ((==_iff _ _).0 e))
                    (Agrees-encoder_of (pb_ltype f.type) f) p_data count)
                (λ _.
                  Agrees-encode_items (encode_entry memory func)
                    (entry_bytes host memory user (bytes_of (pb_ltype f.type))) f
                    (λ p.
                      Agrees-then _ _ (field_tag f) _ (Agrees-tag_for_field f)
                        (Agrees-encoder_of (pb_ltype f.type) f _))
                    count p_data)
