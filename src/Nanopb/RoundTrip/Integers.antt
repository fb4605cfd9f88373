-- ===== src/Nanopb/RoundTrip/Integers.antt =====
-- AppChat_Again/Pods/nanopb: pb_encode_svarint and pb_decode_svarint, and whole streams.
use app_chat_again.Nanopb.Varint.{length-varint}
use app_chat_again.Prelude.Bits.{bit_and_mask}
use app_chat_again.Nanopb.IStream.Buffer.{reader}
use app_chat_again.Nanopb.OStream.Buffer.{writer}
use native.Mathlib.Decide.{dec_lt}
use app_chat_again.Nanopb.Types.{Message}
use app_chat_again.Prelude.Words.{IsU64}
use app_chat_again.Nanopb.IStream.{pb_istream_from_buffer}
use app_chat_again.Nanopb.Decode.{pb_decode_varint, pb_decode_svarint, unzigzag}
use app_chat_again.Prelude.{
  ap, refl, ◌∙◌, le→ltb, none, and_then, arith, [], le→leb, lt→leb, lt→ltb, length, some, ◌++◌, ◌<◌,
  ◌-◌, ◌≡◌, ◌≤◌, ◌^◌, Option, ltb, ◌+◌, if◌then◌else◌, List, ◌*◌, ℕ,
}
use app_chat_again.Nanopb.OStream.{pb_ostream_from_buffer}
use app_chat_again.Nanopb.Encode.{pb_encode_varint, pb_encode_svarint, zigzag}
use app_chat_again.Prelude.Int.{ℤ, pos, negsuc}
use app_chat_again.Nanopb.RoundTrip.{
  length-varint, reader, writer, varint, Message, IsU64, ℕ, pb_encode_varint-varint,
  pb_decode_varint-varint,
}

-- The number that the bits of an int64_t stand for.
abbrev pub signed64 : ℕ → ℤ
signed64 w = if ltb w (2 ^ 63) then pos w else negsuc (2 ^ 64 - 1 - w)

-- The code of the wire format: 0, -1, 1, -2, … become 0, 1, 2, 3, ….
abbrev pub zigzag_code : ℤ → ℕ
zigzag_code (pos n) = 2 * n
zigzag_code (negsuc n) = 2 * n + 1

zigzag_small : (w : ℕ) → w < 2 ^ 63 → zigzag w ≡ 2 * w
unfolding zigzag
zigzag_small w h = rw (lt→leb (2 ^ 63) w h) (omega arith)

zigzag_large : (w : ℕ) → 2 ^ 63 ≤ w → IsU64 w → zigzag w ≡ 2 * (2 ^ 64 - 1 - w) + 1
unfolding zigzag
zigzag_large w h k = rw (le→leb (2 ^ 63) w h) (omega arith)

unzigzag_even : (n : ℕ) → unzigzag (2 * n) ≡ n
unfolding unzigzag
unzigzag_even n = rw (bit_and_mask 1 (2 * n)) (ground arith)

unzigzag_odd : (n : ℕ) → unzigzag (2 * n + 1) ≡ 2 ^ 64 - 1 - n
unfolding unzigzag
unzigzag_odd n = rw (bit_and_mask 1 (2 * n + 1)) (ground arith)

-- The shifts and complements of pb_encode_svarint compute the code of the wire format (0, 1, 2, 3 for
-- 0, -1, 1, -2) of every int64_t, within 64 bits, and those of pb_decode_svarint take it back.
pub zigzag_lem :
    (w : ℕ)
    → IsU64 w
    → (zigzag w ≡ zigzag_code (signed64 w)) × IsU64 (zigzag w) × (unzigzag (zigzag w) ≡ w)
zigzag_lem w h = elim (dec_lt w (2 ^ 63)) [
  | yes small ↦
      rw (lt→ltb w (2 ^ 63) small, zigzag_small w small) (refl, omega arith, unzigzag_even w)
  | no large ↦
      let high : 2 ^ 63 ≤ w = omega arith in
      rw (le→ltb w (2 ^ 63) high, zigzag_large w high h)
        (refl, omega arith, unzigzag_odd (2 ^ 64 - 1 - w) ∙ omega arith)
]

module _ (v max written left : ℕ) (out input : List ℕ) (err : Option Message) where
  -- Where the buffer has room for ten bytes, pb_encode_svarint writes an int64_t as the varint of its
  -- code, and pb_decode_svarint reads that varint as the number.
  pub svarint_round_trip :
      IsU64 v
      → written + 10 ≤ max
      → max < 2 ^ 64
      → 10 ≤ left
      → (let code = varint 9 (zigzag_code (signed64 v)) in
          (pb_encode_svarint v (writer out max written err)
            ≡ (some tt, writer (out ++ code) max (written + length code) err))
          × (pb_decode_svarint (reader (code ++ input) left err)
              ≡ (some v, reader input (left - length code) err)))
  unfolding pb_encode_svarint pb_decode_svarint
  svarint_round_trip h fits m l =
      let (code, word, back) = zigzag_lem v h in
      let short = length-varint 9 (zigzag v) in
      rw (← code) (
        pb_encode_varint-varint (zigzag v) max written out err word (omega arith) m,
        rw (pb_decode_varint-varint (zigzag v) left input err word (omega arith), and_then, back),
      )

-- What pb_encode_varint puts into a buffer of at least ten bytes for a uint64_t, pb_decode_varint
-- reads from it: the number, and the stream at what follows.
pub varint_round_trip :
    (v bufsize more : ℕ) (behind : List ℕ)
    → IsU64 v
    → 10 ≤ bufsize
    → bufsize < 2 ^ 64
    → (let written = pb_encode_varint v (pb_ostream_from_buffer bufsize) in
        let buf = written.1.state ++ behind in
        (written.0 ≡ some tt)
        × (pb_decode_varint (pb_istream_from_buffer buf (written.1.bytes_written + more))
            ≡ (some v, pb_istream_from_buffer behind more)))
unfolding pb_ostream_from_buffer pb_istream_from_buffer
varint_round_trip v bufsize more behind h k m =
    let short = length-varint 9 v in
    rw (pb_encode_varint-varint v bufsize 0 [] none h (omega arith) m) (
      refl,
      pb_decode_varint-varint v _ behind none h (omega arith)
          ∙ ap (λ n. (some v, reader behind n none)) (omega arith),
    )
