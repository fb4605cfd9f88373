-- ===== src/Nanopb/RoundTrip/SignedNumbers.antt =====
-- AppChat_Again/Pods/nanopb: the signed integers of static fields, from memory to the stream by
-- pb_enc_varint and pb_enc_svarint and back by pb_dec_varint and pb_dec_svarint.
use app_chat_again.Nanopb.Decode.Varint64.{pb_decode_varint-value}
use app_chat_again.Nanopb.RoundTrip.{
  value-varint, varint-IsVarint, pb_decode_varint-value, pb_encode_varint-varint,
}
use app_chat_again.Nanopb.RoundTrip.Integers.{signed64, zigzag_code, svarint_round_trip}
use app_chat_again.Prelude.Bits.{bit_and_mask}
use app_chat_again.Prelude.{
  ◌⊎◌, and_then, ◌-◌, refl, zero, length, sym, ◌++◌, some, ◌==◌, ◌∷◌, arith, ◌≤◌, if◌then◌else◌,
  ◌/◌, ◌*◌, ◌∙◌, ◌+◌, ap₂, ap, suc, true, Option, ◌^◌, List, ◌<◌, ◌%◌, ◌≡◌, ℕ,
}
use app_chat_again.Nanopb.Memory.{Memory, store_bytes}
use app_chat_again.Nanopb.FieldEncoders.{pb_enc_varint, pb_enc_svarint, load_number}
use app_chat_again.Nanopb.FieldDecoders.{
  pb_dec_varint, pb_dec_svarint, store_signed, is_int_size, sign_extend,
}
use app_chat_again.Nanopb.Encode.{to_bytes}
use app_chat_again.Nanopb.IStream.Buffer.{reader}
use app_chat_again.Nanopb.OStream.Buffer.{writer}
use app_chat_again.Nanopb.Types.{Message, Field}
use app_chat_again.Nanopb.Varint.{value-varint, varint-IsVarint, length-varint, varint}
use app_chat_again.Nanopb.RoundTrip.Numbers.{load_number-store, at_int_sizes}
use native.Mathlib.Nat.{
  mod-eq_of_lt, add-mul-mod_self_right, div-add-mod', mod-lt, one-le-pow, pow-suc,
}

-- The bits of an int64_t that is the number of `n` bytes whose bits are `v`.
abbrev pub SignExtended : ℕ → ℕ → ℕ → Type 0
SignExtended n v w =
    ((2 * v < 256 ^ n) × (w ≡ v)) ⊎ ((256 ^ n ≤ 2 * v) × (w + 256 ^ n ≡ v + 2 ^ 64))

signed_facts :
    (size v : ℕ)
    → v < 256 ^ size
    → is_int_size size ≡ true
    → (let w = sign_extend (8 * size) v in
        (w < 2 ^ 64)
        × ((if size == 8 then w else sign_extend 32 w) ≡ w)
        × (sign_extend (8 * size) w ≡ w)
        × (w % 256 ^ size ≡ v)
        × SignExtended size v w)
unfolding sign_extend
signed_facts size v h i =
    at_int_sizes
      (λ n.
        v < 256 ^ n
        → (let w = sign_extend (8 * n) v in
            (w < 2 ^ 64)
            × ((if n == 8 then w else sign_extend 32 w) ≡ w)
            × (sign_extend (8 * n) w ≡ w)
            × (w % 256 ^ n ≡ v)
            × SignExtended n v w))
      size (λ h. ground arith) (λ h. ground arith) (λ h. ground arith) (λ h. ground arith) i h

-- The bytes of a number below `256 ^ n` are those of any number that is the same modulo that.
byte_digit : (n w : ℕ) → w % 256 ^ suc n ≡ w / 256 % 256 ^ n * 256 + w % 256
byte_digit n w =
    ap (λ t. t % 256 ^ suc n) parts ∙ add-mul-mod_self_right low high (256 ^ suc n) ∙ small
  where
    low : ℕ
    low = w / 256 % 256 ^ n * 256 + w % 256

    high : ℕ
    high = w / 256 / 256 ^ n

    parts : w ≡ low + high * 256 ^ suc n
    parts =
        omega (arith, ap (λ (t : ℕ). high * t) (pow-suc 256 n), div-add-mod' (w / 256) (256 ^ n))

    small : low % 256 ^ suc n ≡ low
    small = mod-eq_of_lt (
        omega
          (arith, pow-suc 256 n, mod-lt (w / 256) {m = 256 ^ n} (one-le-pow n 256 (omega arith))))

to_bytes-mod : (n w : ℕ) → to_bytes n w ≡ to_bytes n (w % 256 ^ n)
unfolding to_bytes
to_bytes-mod zero w = refl
to_bytes-mod (suc n) w =
    ap₂ (λ x xs. x ∷ xs)
      (bit_and_mask 8 w ∙ omega (arith, byte_digit n w) ∙ sym (bit_and_mask 8 (w % 256 ^ suc n)))
      (to_bytes-mod n (w / 256) ∙ ap (to_bytes n) (omega (arith, byte_digit n w)))

reload :
    (n w v target : ℕ) (memory : Memory)
    → w % 256 ^ n ≡ v
    → v < 256 ^ n
    → load_number n target (store_bytes target (to_bytes n w) memory) ≡ v
reload n w v target memory bits fits =
    ap (λ bytes. load_number n target (store_bytes target bytes memory))
      (to_bytes-mod n w ∙ ap (to_bytes n) bits)
    ∙ load_number-store n v target memory fits

-- A signed integer in a static field is written by pb_enc_varint as the shortest varint of its 64
-- bits, and read back from it by pb_dec_varint: where the field has one of the four sizes and the
-- stream has room for ten bytes, the member at the target has the bits of the member at the source,
-- and the stream is behind what was written.
pub varint_field_round_trip :
    (field : Field) (v src target : ℕ) (before memory : Memory) (out input : List ℕ)
    (max written left : ℕ) (err : Option Message)
    → is_int_size field.data_size ≡ true
    → load_number field.data_size src before ≡ v
    → v < 256 ^ field.data_size
    → written + 10 ≤ max
    → max < 2 ^ 64
    → 10 ≤ left
    → (w : ℕ) × (after : Memory) × SignExtended field.data_size v w
      × (let bytes = varint 9 w in
          (pb_enc_varint field src before (writer out max written err)
            ≡ (some tt, writer (out ++ bytes) max (written + length bytes) err))
          × (pb_dec_varint field target
                (record { stream = reader (bytes ++ input) left err; memory = memory })
              ≡ (
                some tt,
                record { stream = reader input (left - length bytes) err; memory = after },
              ))
          × (load_number field.data_size target after ≡ v))
unfolding pb_enc_varint pb_dec_varint store_signed
varint_field_round_trip field v src target before memory out input max written left err size at fits
      room m enough =
    let n = field.data_size in
    let w = sign_extend (8 * n) v in
    let (small, cast, kept, bits, extended) = signed_facts n v fits size in
    let short = length-varint 9 w in
    let exact : w % 2 ^ 64 ≡ w = mod-eq_of_lt small in
    let same : (w == w) ≡ true = ground arith in
    (
      w,
      store_bytes target (to_bytes n w) memory,
      extended,
      (
        rw (size, at)
            (pb_encode_varint-varint w max written out err small (omega (arith, short)) m),
        rw
            (
              pb_decode_varint-value (varint 9 w) input left err (varint-IsVarint 9 w (omega arith))
                  short.1 (omega (arith, short)),
              value-varint 9 w (omega arith),
              exact,
              and_then,
              cast,
              size,
              kept,
              same,
            )
            refl,
        reload n w v target memory bits fits,
      ),
    )

-- A signed integer in a static field is written by pb_enc_svarint as the shortest varint of its
-- zigzag code, and read back from it by pb_dec_svarint: where the field has one of the four sizes and
-- the stream has room for ten bytes, the member at the target has the bits of the member at the
-- source, and the stream is behind what was written.
pub svarint_field_round_trip :
    (field : Field) (v src target : ℕ) (before memory : Memory) (out input : List ℕ)
    (max written left : ℕ) (err : Option Message)
    → is_int_size field.data_size ≡ true
    → load_number field.data_size src before ≡ v
    → v < 256 ^ field.data_size
    → written + 10 ≤ max
    → max < 2 ^ 64
    → 10 ≤ left
    → (w : ℕ) × (after : Memory) × SignExtended field.data_size v w
      × (let bytes = varint 9 (zigzag_code (signed64 w)) in
          (pb_enc_svarint field src before (writer out max written err)
            ≡ (some tt, writer (out ++ bytes) max (written + length bytes) err))
          × (pb_dec_svarint field target
                (record { stream = reader (bytes ++ input) left err; memory = memory })
              ≡ (
                some tt,
                record { stream = reader input (left - length bytes) err; memory = after },
              ))
          × (load_number field.data_size target after ≡ v))
unfolding pb_enc_svarint pb_dec_svarint store_signed
svarint_field_round_trip field v src target before memory out input max written left err size at
      fits room m enough =
    let n = field.data_size in
    let w = sign_extend (8 * n) v in
    let (small, cast, kept, bits, extended) = signed_facts n v fits size in
    let same : (w == w) ≡ true = ground arith in
    let (coded, decoded) =
      svarint_round_trip w max written left out input err small room m enough in
    (
      w,
      store_bytes target (to_bytes n w) memory,
      extended,
      (
        rw (size, at) coded,
        rw (decoded, and_then, size, kept, same) refl,
        reload n w v target memory bits fits,
      ),
    )
