-- ===== src/Nanopb/Nesting/StaticField.antt =====
-- AppChat_Again/Pods/nanopb/pb_decode.c: decoding a static field of a nested message comes back.
use app_chat_again.Nanopb.Types.{pb_htype, pb_ltype, Field}
use app_chat_again.Nanopb.Memory.{Memory, Machine}
use app_chat_again.Prelude.{not, ◌==◌, arith, List, ℕ}
use app_chat_again.Nanopb.Host.{Host}
use app_chat_again.Nanopb.FieldIter.{current, Iter}
use app_chat_again.Nanopb.Types.Ltype
use app_chat_again.Nanopb.Types.Htype
use app_chat_again.Nanopb.Nesting.{IsMember}
use app_chat_again.Nanopb.Nesting.Answers.{Answers, when-Answers}
use app_chat_again.Nanopb.Nesting.Defaults.{nested_of}
use app_chat_again.Nanopb.Nesting.Packed.{decode_packed_static-Ends, decode_static_item-Ends}
use app_chat_again.Nanopb.Nesting.Decoders.{decoder_of-Ends, number-Ends, Callees}
use app_chat_again.Nanopb.Nesting.Endings.{Ends, then-Ends, choice-Ends, when-Ends, on_memory-Ends}
use app_chat_again.Nanopb.MessageDecoder.StaticField.{
  decoder_of, clear_message, prepare_member, decode_static_field, is_packed,
}
use app_chat_again.Nanopb.Run.{Run}

module _ (host : Host) (fuel : ℕ) (noinit : List Field → ℕ → Run Machine (Unit {0}))
    (P : List Field → Type 0) (callees : Callees host fuel noinit P) where
  prepare_member-Answers :
      (iter : Iter) (memory : Memory)
      → IsMember P host (current iter)
      → Answers (prepare_member host fuel iter memory)
  unfolding prepare_member clear_message
  prepare_member-Answers iter memory (stored, kind) =
      let f = current iter in
      when-Answers (pb_ltype f.type == Ltype.submessage) _ _ λ is_sub.
        callees.defaults (host.fields_at f.ptr) iter.p_data _ (nested_of P host f kind is_sub)

  pub decode_static_field-Ends :
      (wire_type : ℕ) (iter : Iter) (s : Machine)
      → IsMember P host (current iter)
      → Ends 0 s.stream.bytes_left (decode_static_field host fuel noinit wire_type iter s)
  unfolding decode_static_field
  decode_static_field-Ends wire_type iter s member =
      let f = current iter in
      let left = s.stream.bytes_left in
      let func = decoder_of host fuel noinit (pb_ltype f.type) in
      choice-Ends 0 left (pb_htype f.type == Htype.required) _ _ s
        (λ _. decoder_of-Ends host fuel noinit P callees f iter.p_data s member)
        λ _.
          choice-Ends 0 left (pb_htype f.type == Htype.optional) _ _ s
            (λ _.
              then-Ends 0 0 left _ _
                (when-Ends (not (iter.p_size == iter.p_data)) _ s (λ _. omega arith))
                (λ a s'. decoder_of-Ends host fuel noinit P callees f iter.p_data s' member))
            λ _.
              choice-Ends 0 left (pb_htype f.type == Htype.repeated) _ _ s
                (λ _.
                  choice-Ends 0 left (is_packed wire_type f) _ _ s
                    (λ packed.
                      decode_packed_static-Ends func iter
                        (λ target s'.
                          number-Ends host fuel noinit P callees f target s' (ground arith))
                        s)
                    (λ _.
                      decode_static_item-Ends func iter
                        (λ target s'. decoder_of-Ends host fuel noinit P callees f target s' member)
                        s))
                (λ _.
                  then-Ends 0 0 left _ _
                    (on_memory-Ends (prepare_member host fuel iter) s
                      (prepare_member-Answers iter s.memory member))
                    (λ a s'. decoder_of-Ends host fuel noinit P callees f iter.p_data s' member))
