-- ===== src/Nanopb/Nesting/Encoders.antt =====
-- AppChat_Again/Pods/nanopb/pb_encode.c: pb_encode and its variants come back on nested messages.
use app_chat_again.Nanopb.Memory.{Memory}
use app_chat_again.Nanopb.Host.{Host}
use app_chat_again.Prelude.{zero, ◌==◌, arith, ◌<◌, List, ℕ, Option, none, some, suc}
use app_chat_again.Nanopb.Types.Ltype
use app_chat_again.Nanopb.Types.{Field, pb_ltype}
use app_chat_again.Nanopb.FieldIter.{current}
use app_chat_again.Nanopb.OStream.{OStream, pb_ostream_sizing}
use app_chat_again.Nanopb.Nesting.{IsNested, current-IsMember}
use app_chat_again.Nanopb.Nesting.Answers.{
  Answers, carry_on-Answers, choice-Answers, for_each_field-Answers,
}
use app_chat_again.Nanopb.Nesting.Defaults.{not_extension}
use app_chat_again.Nanopb.Nesting.Proto3.{pb_check_proto3_default_value-Answers}
use app_chat_again.Nanopb.Nesting.Submessage.{pb_encode_submessage-Answers}
use app_chat_again.Nanopb.Nesting.Encoding.{encode_field-Answers}
use app_chat_again.Nanopb.MessageEncoder.{
  encode_member, encoded_size, pb_encode, pb_encode_delimited, pb_encode_nullterminated,
  pb_get_encoded_size,
}

module _ (host : Host) (memory : Memory) where
  pb_encode-Answers :
      (depth fuel : ℕ) (fields : List Field) (src_struct : ℕ) (s : OStream)
      → depth < fuel
      → IsNested host depth fields
      → Answers (pb_encode host memory fuel fields src_struct s)
  unfolding pb_encode encode_member
  pb_encode-Answers zero fuel fields src_struct s less nested = absurd nested
  pb_encode-Answers (suc depth) zero fields src_struct s less nested = absurd (omega arith)
  pb_encode-Answers (suc depth) (suc fuel) fields src_struct s less nested =
      for_each_field-Answers (encode_member host memory fuel (pb_encode host memory fuel)) fields
        src_struct nested.0
        (λ iter s' over.
          let member = current-IsMember host depth fields iter nested over in
          choice-Answers (pb_ltype (current iter).type == Ltype.extension) _ _ s'
            (λ ext.
              absurd
                (ground (arith, not_extension (IsNested host depth) host (current iter) member)))
            (λ _.
              encode_field-Answers host memory fuel (pb_encode host memory fuel)
                (IsNested host depth)
                (λ fields' src s'' inner.
                  pb_encode-Answers depth fuel fields' src s'' (omega arith) inner)
                (λ f p_data member'.
                  pb_check_proto3_default_value-Answers host memory depth fuel f p_data
                    (omega arith) member')
                (current iter) member iter.p_data s'))
        s

  encoded_size-Answers :
      (r : Option (Option (Unit {0}) × OStream)) → Answers r → Answers (encoded_size r)
  unfolding encoded_size
  encoded_size-Answers none h = h
  encoded_size-Answers (some (none, s)) h = tt
  encoded_size-Answers (some (some a, s)) h = tt

  -- On a message of static and pointer fields, without extensions and callbacks, whose submessages are
  -- such messages and which is nested less than `depth` deep, with fuel above `depth`, pb_encode, its
  -- delimited and null-terminated forms and pb_get_encoded_size come back, whatever the memory, the
  -- stream and its callback.
  pub encoders-Answers :
      (depth fuel : ℕ) (fields : List Field) (src_struct : ℕ) (s : OStream)
      → depth < fuel
      → IsNested host depth fields
      → Answers (pb_encode host memory fuel fields src_struct s)
        × Answers (pb_encode_delimited host memory fuel fields src_struct s)
        × Answers (pb_encode_nullterminated host memory fuel fields src_struct s)
        × Answers (pb_get_encoded_size host memory fuel fields src_struct)
  unfolding pb_encode_delimited pb_encode_nullterminated pb_get_encoded_size
  encoders-Answers depth fuel fields src_struct s less nested =
      let whole = λ (s' : OStream). pb_encode-Answers depth fuel fields src_struct s' less nested in
      (
        whole s,
        pb_encode_submessage-Answers (pb_encode host memory fuel fields src_struct) whole s,
        carry_on-Answers (pb_encode host memory fuel fields src_struct s) _ (whole s) (λ a s'. tt),
        encoded_size-Answers (pb_encode host memory fuel fields src_struct pb_ostream_sizing)
            (whole pb_ostream_sizing),
      )
