-- ===== src/Nanopb/MessageEncoder/Sizing/Submessages.antt =====
-- AppChat_Again/Pods/nanopb/pb_encode.c: the two passes of a submessage, on a stream that only counts and
-- on a buffer.
use app_chat_again.Nanopb.Varint.{varint}
use app_chat_again.Nanopb.Encode.Varint.{varint_buffer-varint}
use app_chat_again.Nanopb.Encode.{varint_buffer, pb_encode_varint}
use native.Mathlib.Nat.{mod-eq_of_lt}
use app_chat_again.Nanopb.OStream.Buffer.{counter, writer}
use app_chat_again.Prelude.Words.{u64}
use app_chat_again.Prelude.{
  sym, ◌∙◌, subst, Option, ==_iff, refl, le→ltb, arith, ◌++◌, ap, ◌^◌, [], ◌<◌, if◌then◌else◌, ◌≤◌,
  length, ◌+◌, none, ℕ, some, List, ◌≡◌,
}
use app_chat_again.Nanopb.Run.{ended, Run}
use app_chat_again.Nanopb.OStream.{pb_ostream_sizing, is_sizing, OStream, pb_write}
use app_chat_again.Nanopb.MessageEncoder.Sizing.{
  Writes-write, ended, counter, writer, u64, ◌≡◌, List, OStream, pb_write, Run, Agrees, AgreesAt,
  Writes, counting, Writes-then, Agrees-then,
}
use app_chat_again.Nanopb.MessageEncoder.Sizing.Values.{Agrees-no_answer, Agrees-size}
use app_chat_again.Nanopb.MessageEncoder.Wire.{with_length}
use app_chat_again.Nanopb.MessageEncoder.Submessage.{
  second_pass, after_second_pass, after_first_pass, pb_encode_submessage,
}

-- An encoder fails on every stream.
pub Agrees-fail :
    (f : Run OStream (Unit {0})) (change : OStream → OStream) (bytes : List ℕ)
    → ((s : OStream) → f s ≡ some (none, change s))
    → Agrees f bytes
unfolding Agrees
Agrees-fail f change bytes e n = rw (e (counting n)) tt

-- A stream that only counts is given the number, and every other one the bytes.
pub Agrees-counted :
    (body : Run OStream (Unit {0})) (bytes : List ℕ) (size : ℕ)
    → Writes body bytes
    → size ≡ u64 (length bytes)
    → Agrees (λ s. if is_sizing s.callback then some (pb_write [] size s) else body s) bytes
unfolding Agrees pb_write
Agrees-counted body bytes size h e n = (rw e (ap (λ k. counter [] 0 k none) (omega arith)), h)

pub fresh :
    (z : OStream) (bytes : List ℕ) → z ≡ counting (0 + length bytes) → z ≡ counting (length bytes)
fresh z bytes e = e ∙ ap counting (omega arith)

pub from_start :
    (f : Run OStream (Unit {0})) (bytes : List ℕ)
    → Agrees f bytes
    → AgreesAt f bytes 0 (f pb_ostream_sizing)
unfolding Agrees pb_ostream_sizing
from_start f bytes h = h 0

module _ (encode : Run OStream (Unit {0})) where
  -- The second pass has the size for its limit, and writes as many bytes.
  second_pass-Writes :
      (bytes out : List ℕ) (max written : ℕ)
      → Writes encode bytes
      → written + length bytes ≤ max
      → max < 2 ^ 64
      → second_pass encode (length bytes) (writer out max written none)
        ≡ some (some tt, writer (out ++ bytes) max (written + length bytes) none)
  unfolding second_pass after_second_pass
  second_pass-Writes bytes out max written h room small =
      let exact : u64 (written + length bytes) ≡ written + length bytes =
        mod-eq_of_lt (omega arith) in
      let from_zero : 0 + length bytes ≡ length bytes = omega arith in
      rw (
        exact,
        le→ltb max (written + length bytes) room,
        h out (length bytes) 0 (omega arith) (omega arith),
        from_zero,
        (==_iff (length bytes) (length bytes)).1 refl,
        exact,
      )

  -- The size is counted modulo 2 ^ 64, and a buffer with room for the bytes is smaller.
  counted_pass-Writes :
      (bytes : List ℕ)
      → Writes encode bytes
      → Writes (second_pass encode (u64 (length bytes))) bytes
  counted_pass-Writes bytes h out max written room small =
      let exact : u64 (length bytes) ≡ length bytes = mod-eq_of_lt (omega arith) in
      rw exact (second_pass-Writes bytes out max written h room small)

  Agrees-second_pass :
      (bytes : List ℕ)
      → Writes encode bytes
      → Agrees (second_pass encode (u64 (length bytes))) bytes
  unfolding second_pass
  Agrees-second_pass bytes h =
      Agrees-counted _ bytes (u64 (length bytes)) (counted_pass-Writes bytes h) refl

  Agrees-first_pass :
      (bytes : List ℕ) (r : Option (Option (Unit {0}) × OStream))
      → AgreesAt encode bytes 0 r
      → Agrees (λ s. after_first_pass encode s r) (with_length bytes)
  unfolding after_first_pass
  Agrees-first_pass bytes none a = Agrees-no_answer (with_length bytes)
  Agrees-first_pass bytes (some (none, sub)) a =
      Agrees-fail _ (λ s. record s { errmsg = sub.errmsg }) (with_length bytes) (λ s. refl)
  Agrees-first_pass bytes (some (some tt, sub)) (e, h) =
      subst (λ k. Agrees (λ s. after_first_pass encode s (some (some tt, k))) (with_length bytes))
        (sym (fresh sub bytes e))
        (Agrees-then (ended (pb_encode_varint (u64 (length bytes)))) _
          (varint 9 (u64 (length bytes))) bytes (Agrees-size (u64 (length bytes)) (omega arith))
          (Agrees-second_pass bytes h))

  -- A submessage: the second pass writes what the first has counted.
  pub Agrees-pb_encode_submessage :
      (bytes : List ℕ)
      → Agrees encode bytes
      → Agrees (pb_encode_submessage encode) (with_length bytes)
  unfolding pb_encode_submessage
  Agrees-pb_encode_submessage bytes h =
      Agrees-first_pass bytes (encode pb_ostream_sizing) (from_start encode bytes h)

  -- The length, as the shortest varint, and the bytes of the message.
  pub pb_encode_submessage-Writes :
      (bytes : List ℕ)
      → encode pb_ostream_sizing ≡ some (some tt, counting (length bytes))
      → Writes encode bytes
      → Writes (pb_encode_submessage encode) (varint 9 (u64 (length bytes)) ++ bytes)
  unfolding pb_encode_submessage after_first_pass pb_encode_varint
  pb_encode_submessage-Writes bytes e h =
      let size = u64 (length bytes) in
      let shortest : varint_buffer size ≡ varint 9 size = varint_buffer-varint size (omega arith) in
      rw (e, sym shortest)
        (Writes-then (ended (pb_encode_varint size)) (second_pass encode size) (varint_buffer size)
          bytes (Writes-write (varint_buffer size) (length (varint_buffer size)) refl)
          (counted_pass-Writes bytes h))
