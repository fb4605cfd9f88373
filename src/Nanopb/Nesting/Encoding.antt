-- ===== src/Nanopb/Nesting/Encoding.antt =====
-- AppChat_Again/Pods/nanopb/pb_encode.c: the encoders of the members of a nested message come back.
use app_chat_again.Nanopb.FieldEncoders.{load_number}
use app_chat_again.Nanopb.FieldDecoders.{load_pointer}
use app_chat_again.Nanopb.MessageEncoder.Proto3.{is_nonzero, pb_check_proto3_default_value}
use app_chat_again.Nanopb.Encode.{pb_encode_tag_for_field}
use app_chat_again.Nanopb.Host.{Host}
use app_chat_again.Nanopb.Types.Atype.{pointer}
use app_chat_again.Nanopb.Release.{is_pointer}
use app_chat_again.Nanopb.Memory.{Memory}
use app_chat_again.Prelude.{
  Bool, ◌||◌, if◌then◌else◌, arith, List, not, ◌==◌, ℕ, Option, none, some,
}
use app_chat_again.Nanopb.Types.Ltype
use app_chat_again.Nanopb.Types.Htype
use app_chat_again.Nanopb.Types.Atype
use app_chat_again.Nanopb.Types.{Field, pb_ltype, pb_htype, pb_atype}
use app_chat_again.Nanopb.FieldIter.{move}
use app_chat_again.Nanopb.OStream.{OStream}
use app_chat_again.Nanopb.Nesting.{IsMember}
use app_chat_again.Nanopb.Nesting.Answers.{Answers, branch-Answers, choice-Answers, when-Answers}
use app_chat_again.Nanopb.Nesting.Defaults.{nested_of}
use app_chat_again.Nanopb.Nesting.Decoders.{no_other}
use app_chat_again.Nanopb.Nesting.AnyField.{not_stored}
use app_chat_again.Nanopb.MessageEncoder.Submessage.{pb_enc_submessage, encoder_of}
use app_chat_again.Nanopb.MessageEncoder.{
  implicit_has, is_present, encode_one, encode_basic_field, encode_field,
}
use app_chat_again.Nanopb.Run.{when, no_answer, Run}
use app_chat_again.Nanopb.Nesting.Submessage.{
  behind-Answers, pb_encode_submessage-Answers, encode_array-Answers,
}

negated-Answers :
    (r : Option Bool)
    → Answers r
    → Answers (elim r [ none ↦ none | some is_default ↦ some (not is_default) ])
negated-Answers none h = h
negated-Answers (some b) h = tt

present-Answers :
    (r : Option Bool) (f : Run OStream (Unit {0})) (s : OStream)
    → Answers r
    → Answers (f s)
    → (let step : Run OStream (Unit {0}) = elim r [
      | none ↦ no_answer
      | some present ↦ when present f
    ] in
        Answers (step s))
present-Answers none f s h k = h
present-Answers (some b) f s h k = when-Answers b f s (λ _. k)

module _ (host : Host) (memory : Memory) (fuel : ℕ)
    (encode : List Field → ℕ → Run OStream (Unit {0})) (P : List Field → Type 0)
    (inner : (fields : List Field) (src_struct : ℕ) (s : OStream)
      → P fields
      → Answers (encode fields src_struct s))
    (defaults : (f : Field) (p_data : ℕ)
      → IsMember P host f
      → Answers (pb_check_proto3_default_value host memory fuel f p_data))
    (f : Field) (member : IsMember P host f) where
  pb_enc_submessage-Answers :
      (src : ℕ) (s : OStream)
      → P (host.fields_at f.ptr)
      → Answers (pb_enc_submessage memory host encode f src s)
  unfolding pb_enc_submessage
  pb_enc_submessage-Answers src s nested =
      choice-Answers (f.ptr == 0) _ _ s (λ _. tt)
        (λ _.
          pb_encode_submessage-Answers (encode (host.fields_at f.ptr) src)
            (λ s'. inner (host.fields_at f.ptr) src s' nested) s)

  encoder_of-Answers :
      (src : ℕ) (s : OStream) → Answers (encoder_of memory host encode (pb_ltype f.type) f src s)
  unfolding encoder_of
  encoder_of-Answers src s =
      let l = pb_ltype f.type in
      choice-Answers (l == Ltype.varint) _ _ s (λ _. tt)
        λ n0.
          choice-Answers (l == Ltype.uvarint) _ _ s (λ _. tt)
            λ n1.
              choice-Answers (l == Ltype.svarint) _ _ s (λ _. tt)
                λ n2.
                  choice-Answers (l == Ltype.fixed32) _ _ s (λ _. tt)
                    λ n3.
                      choice-Answers (l == Ltype.fixed64) _ _ s (λ _. tt)
                        λ n4.
                          choice-Answers (l == Ltype.bytes) _ _ s (λ _. tt)
                            λ n5.
                              choice-Answers (l == Ltype.string) _ _ s (λ _. tt)
                                λ n6.
                                  choice-Answers (l == Ltype.submessage) _ _ s
                                    (λ is_sub.
                                      pb_enc_submessage-Answers src s
                                        (nested_of P host f member.1 is_sub))
                                    λ n7.
                                      choice-Answers (l == Ltype.fixed_length_bytes) _ _ s (λ _. tt)
                                        λ n8.
                                          absurd
                                            (no_other P host f member.1 (ground arith) n5 n6 n7 n8)

  encode_one-Answers :
      (p_data : ℕ) (s : OStream) → Answers (encode_one host memory fuel encode f p_data s)
  unfolding encode_one
  encode_one-Answers p_data s =
      behind-Answers (pb_encode_tag_for_field f s) _ (λ a s'. encoder_of-Answers p_data s')

  is_present-Answers : (p_data : ℕ) → Answers (is_present host memory fuel f p_data)
  unfolding is_present implicit_has
  is_present-Answers p_data =
      branch-Answers (is_nonzero f.size_offset) _ _ (λ _. tt)
        λ _.
          branch-Answers (is_pointer f) _ _ (λ _. tt)
            λ _.
              branch-Answers (is_nonzero f.size_offset || not (pb_htype f.type == Htype.optional)) _
                _ (λ _. tt)
                (λ _.
                  negated-Answers (pb_check_proto3_default_value host memory fuel f p_data)
                    (defaults f p_data member))

  encode_basic_field-Answers :
      (p_data : ℕ) (s : OStream) → Answers (encode_basic_field host memory fuel encode f p_data s)
  unfolding encode_basic_field
  encode_basic_field-Answers p_field s =
      let p_size = move p_field f.size_offset in
      let p_data = if is_pointer f then load_pointer p_field memory else p_field in
      choice-Answers (pb_htype f.type == Htype.required) _ _ s
        (λ _. choice-Answers (p_data == 0) _ _ s (λ _. tt) (λ _. encode_one-Answers p_data s))
        λ _.
          choice-Answers (pb_htype f.type == Htype.optional) _ _ s
            (λ _.
              present-Answers (is_present host memory fuel f p_field)
                (encode_one host memory fuel encode f p_data) s (is_present-Answers p_field)
                (encode_one-Answers p_data s))
            λ _.
              choice-Answers (pb_htype f.type == Htype.repeated) _ _ s
                (λ _.
                  encode_array-Answers (encoder_of memory host encode (pb_ltype f.type)) f
                    encoder_of-Answers memory p_data _ s)
                (λ _.
                  when-Answers (load_number 4 p_size memory == f.tag) _ s
                    (λ _. encode_one-Answers p_data s))

  pub encode_field-Answers :
      (p_data : ℕ) (s : OStream) → Answers (encode_field host memory fuel encode f p_data s)
  unfolding encode_field
  encode_field-Answers p_data s =
      let atype = pb_atype f.type in
      choice-Answers (atype == Atype.static || atype == Atype.pointer) _ _ s
        (λ _. encode_basic_field-Answers p_data s)
        (λ other. absurd (not_stored f member.0 (ground arith) (ground arith)))
