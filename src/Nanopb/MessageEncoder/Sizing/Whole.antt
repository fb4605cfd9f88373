-- ===== src/Nanopb/MessageEncoder/Sizing/Whole.antt =====
-- AppChat_Again/Pods/nanopb/pb_encode.c: pb_encode, pb_get_encoded_size and pb_encode_delimited.
use app_chat_again.Nanopb.MessageEncoder.Sizing.Members.{Agrees-pb_encode}
use app_chat_again.Nanopb.MessageEncoder.Submessage.{pb_encode_submessage}
use app_chat_again.Nanopb.OStream.Buffer.{writer}
use app_chat_again.Nanopb.Varint.{varint}
use app_chat_again.Nanopb.MessageEncoder.Sizing.Submessages.{
  pb_encode_submessage-Writes, from_start, fresh,
}
use app_chat_again.Prelude.Words.{u64}
use app_chat_again.Prelude.{
  subst, [], ◌≤◌, ◌^◌, ◌<◌, ◌++◌, ◌∙◌, sym, arith, length, ◌≡◌, none, some, Option,
}
use app_chat_again.Nanopb.OStream.{pb_ostream_sizing, pb_ostream_from_buffer, OStream}
use app_chat_again.Nanopb.Memory.{Memory}
use app_chat_again.Nanopb.MessageEncoder.{
  pb_encode_submessage, pb_encode_delimited, pb_ostream_sizing, pb_get_encoded_size, encoded_size,
  pb_encode, Field, OStream, Memory,
}
use app_chat_again.Nanopb.Host.{Host}
use app_chat_again.Prelude.{ap, List, some, ℕ, Option}
use app_chat_again.Nanopb.Types.{Field}
use app_chat_again.Nanopb.MessageEncoder.Sizing.Messages.{UserAgrees}
use native.Mathlib.Nat.{mod-eq_of_lt}
use app_chat_again.Nanopb.MessageEncoder.Wire.{UserBytes, message_bytes}
use app_chat_again.Nanopb.MessageEncoder.Sizing.{writer, u64, Option, AgreesAt, Writes, counting}
use app_chat_again.Nanopb.Run.{Run}

counted_size :
    (f : Run OStream (Unit {0})) (bytes : List ℕ) (size : ℕ)
    (r : Option (Option (Unit {0}) × OStream))
    → AgreesAt f bytes 0 r
    → encoded_size r ≡ some (some size)
    → (r ≡ some (some tt, counting (length bytes))) × (size ≡ u64 (length bytes)) × Writes f bytes
unfolding encoded_size
counted_size f bytes size none a e = ground arith
counted_size f bytes size (some (none, z)) a e = ground arith
counted_size f bytes size (some (some tt, z)) (e', h) e =
    let counted = fresh z bytes e' in
    (ap (λ k. some (some tt, k)) counted, ground (arith, e) ∙ ap (λ k. k.bytes_written) counted, h)

fits :
    (f : Run OStream (Unit {0})) (bytes : List ℕ) (bufsize : ℕ)
    → Writes f bytes
    → length bytes ≤ bufsize
    → bufsize < 2 ^ 64
    → f (writer [] bufsize 0 none) ≡ some (some tt, writer bytes bufsize (length bytes) none)
fits f bytes bufsize h room small =
    h [] bufsize 0 (omega arith) small
    ∙ ap (λ n. some (some tt, writer bytes bufsize n none)) (omega arith)

module _ (host : Host) (memory : Memory) (user : UserBytes)
    (agrees : UserAgrees host memory user) where
  sized_message :
      (fuel : ℕ) (fields : List Field) (src_struct size : ℕ)
      → pb_get_encoded_size host memory fuel fields src_struct ≡ some (some size)
      → (let bytes = message_bytes host memory user fuel fields src_struct in
          (pb_encode host memory fuel fields src_struct pb_ostream_sizing
            ≡ some (some tt, counting (length bytes)))
          × (size ≡ u64 (length bytes))
          × Writes (pb_encode host memory fuel fields src_struct) bytes)
  unfolding pb_get_encoded_size
  sized_message fuel fields src_struct size e =
      let encode = pb_encode host memory fuel fields src_struct in
      let bytes = message_bytes host memory user fuel fields src_struct in
      counted_size encode bytes size (encode pb_ostream_sizing)
        (from_start encode bytes (Agrees-pb_encode host memory user agrees fuel fields src_struct))
        e

  -- Where pb_get_encoded_size answers a size, and a buffer of less than 2 ^ 64 bytes has room for the
  -- bytes that the description message_bytes gives for the message, the size is their number, and
  -- pb_encode succeeds on the buffer, writes exactly them and counts them, whatever submessages, arrays,
  -- unions and extensions the message has. The encoders of the user are taken to count on a sizing
  -- stream, and to write on a buffer, the bytes that the description has for them.
  pub pb_get_encoded_size-pb_encode :
      (fuel : ℕ) (fields : List Field) (src_struct size bufsize : ℕ)
      → pb_get_encoded_size host memory fuel fields src_struct ≡ some (some size)
      → length (message_bytes host memory user fuel fields src_struct) ≤ bufsize
      → bufsize < 2 ^ 64
      → (let bytes = message_bytes host memory user fuel fields src_struct in
          (size ≡ length bytes)
          × (pb_encode host memory fuel fields src_struct (pb_ostream_from_buffer bufsize)
              ≡ some (some tt, writer bytes bufsize (length bytes) none)))
  unfolding pb_ostream_from_buffer
  pb_get_encoded_size-pb_encode fuel fields src_struct size bufsize e room small =
      let (counted, exact, h) = sized_message fuel fields src_struct size e in
      (
        exact ∙ mod-eq_of_lt (omega arith),
        fits (pb_encode host memory fuel fields src_struct) _ bufsize h room small,
      )

  -- Where pb_get_encoded_size answers a size, pb_encode_delimited succeeds on every buffer of less than
  -- 2 ^ 64 bytes that has room for that size as the shortest varint and the bytes that the description
  -- message_bytes gives for the message, and writes exactly these: the second pass never finds that the
  -- size has changed. The encoders of the user are taken to count on a sizing stream, and to write on a
  -- buffer, the bytes that the description has for them.
  pub pb_encode_delimited-message_bytes :
      (fuel : ℕ) (fields : List Field) (src_struct size bufsize : ℕ)
      → pb_get_encoded_size host memory fuel fields src_struct ≡ some (some size)
      → length (varint 9 size ++ message_bytes host memory user fuel fields src_struct) ≤ bufsize
      → bufsize < 2 ^ 64
      → (let bytes = varint 9 size ++ message_bytes host memory user fuel fields src_struct in
          pb_encode_delimited host memory fuel fields src_struct (pb_ostream_from_buffer bufsize)
          ≡ some (some tt, writer bytes bufsize (length bytes) none))
  unfolding pb_ostream_from_buffer pb_encode_delimited
  pb_encode_delimited-message_bytes fuel fields src_struct size bufsize e room small =
      let bytes = message_bytes host memory user fuel fields src_struct in
      let encode = pb_encode host memory fuel fields src_struct in
      let (counted, exact, h) = sized_message fuel fields src_struct size e in
      let whole =
        subst (λ n. Writes (pb_encode_submessage encode) (varint 9 n ++ bytes)) (sym exact)
          (pb_encode_submessage-Writes encode bytes counted h) in
      fits (pb_encode_submessage encode) (varint 9 size ++ bytes) bufsize whole room small
