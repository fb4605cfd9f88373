-- ===== src/Nanopb/RoundTrip/Numbers.antt =====
-- AppChat_Again/Pods/nanopb: the integers of static fields, from memory to the stream by pb_enc_* and
-- back by pb_dec_*.
use app_chat_again.Nanopb.Decode.Varint64.{pb_decode_varint-value}
use app_chat_again.Nanopb.RoundTrip.{
  value-varint, varint-IsVarint, pb_decode_varint-value, pb_encode_varint-varint,
}
use native.Mathlib.Nat.{mod-eq_of_lt}
use app_chat_again.Nanopb.RoundTrip.Fixed.{from_bytes-to_bytes, length-to_bytes}
use app_chat_again.Prelude.{
  and_then, ◌%◌, ◌-◌, ◌++◌, inr, some, Option, subst, ◌⊎◌, refl, [], inl, ◌∙◌, ◌+◌, ap₂, arith, ◌≤◌,
  sym, ap, ◌*◌, ◌==◌, ◌^◌, true, ◌∷◌, ◌<◌, ◌≡◌, length, ℕ, List,
}
use app_chat_again.Nanopb.Memory.{
  Memory, store_bytes, load_bytes, store_byte, store_bytes-SameOutside,
}
use app_chat_again.Nanopb.FieldEncoders.{pb_enc_uvarint, load_number}
use app_chat_again.Nanopb.FieldDecoders.{pb_dec_uvarint, store_unsigned, is_int_size}
use app_chat_again.Nanopb.Encode.{to_bytes}
use app_chat_again.Nanopb.Decode.{from_bytes}
use app_chat_again.Nanopb.IStream.Buffer.{reader}
use app_chat_again.Nanopb.OStream.Buffer.{writer}
use app_chat_again.Nanopb.Types.{Message, Field}
use app_chat_again.Nanopb.Varint.{value-varint, varint-IsVarint, length-varint, varint}

-- The bytes that were stored are loaded.
load_bytes-store_bytes :
    (bytes : List ℕ) (p : ℕ) (memory : Memory)
    → load_bytes (length bytes) p (store_bytes p bytes memory) ≡ bytes
unfolding load_bytes store_bytes
load_bytes-store_bytes [] p memory = refl
load_bytes-store_bytes (b ∷ bytes) p memory =
    let same : (p == p) ≡ true = ground arith in
    ap₂ (λ x xs. x ∷ xs)
      (store_bytes-SameOutside (p + 1) bytes (p + 1) (length bytes) (store_byte p b memory)
          (omega arith) (omega arith) p (inl (omega arith))
        ∙ rw same refl)
      (load_bytes-store_bytes bytes (p + 1) (store_byte p b memory))

pub load_number-store :
    (size v p : ℕ) (memory : Memory)
    → v < 256 ^ size
    → load_number size p (store_bytes p (to_bytes size v) memory) ≡ v
load_number-store size v p memory h =
    ap (λ n. from_bytes 0 (load_bytes n p (store_bytes p (to_bytes size v) memory)) 0)
      (sym (length-to_bytes size v))
    ∙ ap (λ bytes. from_bytes 0 bytes 0) (load_bytes-store_bytes (to_bytes size v) p memory)
    ∙ from_bytes-to_bytes size v 0 0 h (omega arith)
    ∙ omega arith

int_size_cases :
    (size : ℕ) → is_int_size size ≡ true → (size ≡ 1) ⊎ (size ≡ 2) ⊎ (size ≡ 4) ⊎ (size ≡ 8)
unfolding is_int_size
int_size_cases size h = ground arith

pub at_int_sizes :
    (P : ℕ → Type 0) (size : ℕ) → P 1 → P 2 → P 4 → P 8 → is_int_size size ≡ true → P size
at_int_sizes P size p1 p2 p4 p8 h = elim (int_size_cases size h) [
  | inl e ↦ subst P (sym e) p1
  | inr (inl e) ↦ subst P (sym e) p2
  | inr (inr (inl e)) ↦ subst P (sym e) p4
  | inr (inr (inr e)) ↦ subst P (sym e) p8
]

-- What fits the field fits the stream.
size_powers :
    (size : ℕ) → is_int_size size ≡ true → (2 ^ (8 * size) ≡ 256 ^ size) × (256 ^ size ≤ 2 ^ 64)
size_powers size =
    at_int_sizes (λ n. (2 ^ (8 * n) ≡ 256 ^ n) × (256 ^ n ≤ 2 ^ 64)) size (refl, omega arith)
      (refl, omega arith) (refl, omega arith) (refl, omega arith)

-- An unsigned integer in a static field is written by pb_enc_uvarint as the shortest varint, and
-- read back from it by pb_dec_uvarint: where the field has one of the four sizes, the number fits it,
-- and the stream has room for ten bytes, the same number stands at the target, and the stream is
-- behind what was written.
pub uvarint_field_round_trip :
    (field : Field) (v src target : ℕ) (before memory : Memory) (out input : List ℕ)
    (max written left : ℕ) (err : Option Message)
    → is_int_size field.data_size ≡ true
    → load_number field.data_size src before ≡ v
    → v < 256 ^ field.data_size
    → written + 10 ≤ max
    → max < 2 ^ 64
    → 10 ≤ left
    → (after : Memory) × (let bytes = varint 9 v in
        (pb_enc_uvarint field src before (writer out max written err)
          ≡ (some tt, writer (out ++ bytes) max (written + length bytes) err))
        × (pb_dec_uvarint field target
              (record { stream = reader (bytes ++ input) left err; memory = memory })
            ≡ (some tt, record { stream = reader input (left - length bytes) err; memory = after }))
        × (load_number field.data_size target after ≡ v))
unfolding pb_enc_uvarint pb_dec_uvarint store_unsigned
uvarint_field_round_trip field v src target before memory out input max written left err size at
      fits room m enough =
    let (power, small) = size_powers field.data_size size in
    let short = length-varint 9 v in
    let exact : v % 2 ^ 64 ≡ v = mod-eq_of_lt (omega arith) in
    let kept : v % 2 ^ (8 * field.data_size) ≡ v = mod-eq_of_lt (omega arith) in
    let same : (v == v) ≡ true = ground arith in
    (
      store_bytes target (to_bytes field.data_size v) memory,
      (
        rw (size, at)
            (pb_encode_varint-varint v max written out err (omega arith) (omega (arith, short)) m),
        rw
            (
              pb_decode_varint-value (varint 9 v) input left err (varint-IsVarint 9 v (omega arith))
                  short.1 (omega (arith, short)),
              value-varint 9 v (omega arith),
              exact,
              and_then,
              size,
              kept,
              same,
            )
            refl,
        load_number-store field.data_size v target memory fits,
      ),
    )
