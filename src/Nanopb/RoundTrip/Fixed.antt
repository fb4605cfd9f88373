-- ===== src/Nanopb/RoundTrip/Fixed.antt =====
-- AppChat_Again/Pods/nanopb: pb_encode_fixed32 and pb_encode_fixed64, and the decoders' readings.
use app_chat_again.Nanopb.IStream.{dest}
use app_chat_again.Nanopb.IStream.Buffer.{read-append_count, reader}
use app_chat_again.Nanopb.OStream.Buffer.{write-fits_count, writer}
use app_chat_again.Prelude.Words.{IsU32, IsU64}
use app_chat_again.Nanopb.Types.{Message}
use native.Mathlib.Nat.{div-add-mod}
use native.Mathlib.Numerals.{towards_suc}
use app_chat_again.Nanopb.Decode.{pb_decode_fixed64, pb_decode_fixed32, from_bytes}
use app_chat_again.Prelude.{
  ◌-◌, ◌++◌, some, ◌≤◌, Option, List, refl, ap, zero, ◌∙◌, ◌/◌, arith, suc, ◌*◌, ◌≡◌, ◌%◌, ◌+◌, ◌<◌,
  ◌^◌, length, ℕ,
}
use app_chat_again.Nanopb.Encode.{pb_encode_fixed64, pb_encode_fixed32, to_bytes}
use app_chat_again.Prelude.Bits.{bit_or_disjoint, bit_and_mask}

pub length-to_bytes : (n v : ℕ) → length (to_bytes n v) ≡ n
unfolding to_bytes
length-to_bytes zero v = refl
length-to_bytes (suc n) v = omega (arith, length-to_bytes n (v / 256))

next_byte : (p : ℕ) → 2 ^ (p + 8) ≡ 256 * 2 ^ p
next_byte p = simp towards_suc (omega arith)

carry8 : (acc v p : ℕ) → acc + v % 256 * 2 ^ p + v / 256 * 2 ^ (p + 8) ≡ acc + v * 2 ^ p
carry8 acc v p = omega (
  arith,
  ap (λ (t : ℕ). v / 256 * t) (next_byte p),
  ap (λ (t : ℕ). t * 2 ^ p) (div-add-mod v 256),
)

-- The bytes put together again, over the bits below `p`.
pub from_bytes-to_bytes :
    (n v p acc : ℕ) → v < 256 ^ n → acc < 2 ^ p → from_bytes p (to_bytes n v) acc ≡ acc + v * 2 ^ p
unfolding from_bytes to_bytes
from_bytes-to_bytes zero v p acc h a =
    let none_left : v ≡ 0 = omega arith in rw none_left (omega arith)
from_bytes-to_bytes (suc n) v p acc h a =
    rw (bit_and_mask 8 v, bit_or_disjoint p acc (v % 256) a)
      (from_bytes-to_bytes n (v / 256) (p + 8) (acc + v % 256 * 2 ^ p) (omega arith)
          (grind (arith, next_byte p))
        ∙ carry8 acc v p)

module _ (v : ℕ) (out input : List ℕ) (max written left : ℕ) (err : Option Message) where
  -- Where the buffer has room, pb_encode_fixed32 writes a 32 bit value as four bytes, lowest first,
  -- and pb_decode_fixed32 reads those four bytes as that value.
  pub fixed32_round_trip :
      IsU32 v
      → written + 4 ≤ max
      → max < 2 ^ 64
      → 4 ≤ left
      → (pb_encode_fixed32 v (writer out max written err)
          ≡ (some tt, writer (out ++ to_bytes 4 v) max (written + 4) err))
        × (pb_decode_fixed32 (reader (to_bytes 4 v ++ input) left err)
            ≡ (some v, reader input (left - 4) err))
  unfolding pb_encode_fixed32 pb_decode_fixed32
  fixed32_round_trip h fits m l = (
    write-fits_count out (to_bytes 4 v) max written err 4 (length-to_bytes 4 v) fits m,
    rw (read-append_count dest 4 (to_bytes 4 v) input left err (length-to_bytes 4 v) l) (
        ap (λ n. (some n, reader input (left - 4) err))
          (from_bytes-to_bytes 4 v 0 0 h (omega arith) ∙ omega arith)),
  )

  -- Where the buffer has room, pb_encode_fixed64 writes a 64 bit value as eight bytes, lowest first,
  -- and pb_decode_fixed64 reads those eight bytes as that value.
  pub fixed64_round_trip :
      IsU64 v
      → written + 8 ≤ max
      → max < 2 ^ 64
      → 8 ≤ left
      → (pb_encode_fixed64 v (writer out max written err)
          ≡ (some tt, writer (out ++ to_bytes 8 v) max (written + 8) err))
        × (pb_decode_fixed64 (reader (to_bytes 8 v ++ input) left err)
            ≡ (some v, reader input (left - 8) err))
  unfolding pb_encode_fixed64 pb_decode_fixed64
  fixed64_round_trip h fits m l = (
    write-fits_count out (to_bytes 8 v) max written err 8 (length-to_bytes 8 v) fits m,
    rw (read-append_count dest 8 (to_bytes 8 v) input left err (length-to_bytes 8 v) l) (
        ap (λ n. (some n, reader input (left - 8) err))
          (from_bytes-to_bytes 8 v 0 0 h (omega arith) ∙ omega arith)),
  )
