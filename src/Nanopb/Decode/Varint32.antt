-- ===== src/Nanopb/Decode/Varint32.antt =====
-- AppChat_Again/Pods/nanopb/pb_decode.c: pb_decode_varint32 on varints of up to five bytes.
use native.Mathlib.Numerals.{towards_suc}
use native.Mathlib.Decide.{dec_lt}
use app_chat_again.Prelude.{
  zero, Bool, false, subst, [], ap₂, ◌++◌, length, and_then, ℕ, suc, ◌+◌, ◌-◌, ◌*◌, ◌%◌, ◌^◌, ◌≤◌,
  ◌<◌, ◌≡◌, ap, ◌∙◌, arith, Option, some, List, ◌∷◌, bit_and, bit_or, lt→leb, lt→ltb, ltb,
  if◌then◌else◌,
}
use app_chat_again.Prelude.Words.{u32}
use app_chat_again.Prelude.Bits.{bit_or_disjoint, low_seven, high_bits}
use app_chat_again.Nanopb.Types.{Message, varint_overflow}
use app_chat_again.Nanopb.Varint.{value, IsVarint, IsContinuation}
use app_chat_again.Nanopb.IStream.{IStream, return_error}
use app_chat_again.Nanopb.IStream.Buffer.{reader, readbyte-cons}
use app_chat_again.Nanopb.Decode.{
  pb_decode_varint32_eof, pb_decode_varint32, decode_varint32_loop, add_bits32, check_last,
}
use app_chat_again.Nanopb.Decode.TopBit.{
  top_bit_set, top_bit_clear, more_follows_set, more_follows_clear,
}
use native.Mathlib.Nat.{mod-eq_of_lt, pow-le-pow_right}

-- Below bit 28 nothing is cut off.
pub bits32_low :
    (acc b p : ℕ) → acc < 2 ^ p → p ≤ 21 → add_bits32 p acc b ≡ some (acc + b % 128 * 2 ^ p)
unfolding add_bits32
bits32_low acc b p h k =
    rw (lt→leb 32 p (omega arith))
      (ap (λ t. some (bit_or acc t)) masked ∙ ap some (bit_or_disjoint p acc (b % 128) h))
  where
    small : b % 128 * 2 ^ p < 2 ^ 32
    small = grind (arith, pow-le-pow_right {n = 2} (omega arith) {i = p} {j = 21} k)

    masked : u32 (bit_and b 0x7F * 2 ^ p) ≡ b % 128 * 2 ^ p
    masked = rw low_seven (mod-eq_of_lt small)

-- At bit 28 four bits are left.
pub bits32_top : (acc b : ℕ) → acc < 2 ^ 28 → add_bits32 28 acc b ≡ some (acc + b % 16 * 2 ^ 28)
unfolding add_bits32
bits32_top acc b h =
    ap (λ t. some (bit_or acc t)) masked ∙ ap some (bit_or_disjoint 28 acc (b % 16) h)
  where
    masked : u32 (bit_and b 0x7F * 2 ^ 28) ≡ b % 16 * 2 ^ 28
    masked = rw low_seven (omega arith)

module _ (input : List ℕ) (err : Option Message) (b p acc result left : ℕ) (h : p ≤ 248)
    (l : 0 < left) (e : add_bits32 p acc b ≡ some result) where
  pub round32_more :
      (fuel : ℕ)
      → IsContinuation b
      → decode_varint32_loop (suc fuel) p acc (reader (b ∷ input) left err)
        ≡ decode_varint32_loop fuel (p + 7) result (reader input (left - 1) err)
  unfolding decode_varint32_loop
  round32_more fuel (k, q) =
      rw (readbyte-cons input err b left l, and_then, e, more_follows_set b k q)
        (ap (λ t. decode_varint32_loop fuel t result (reader input (left - 1) err))
          (mod-eq_of_lt (omega arith)))

  pub round32_last :
      (fuel : ℕ)
      → b < 128
      → decode_varint32_loop (suc fuel) p acc (reader (b ∷ input) left err)
        ≡ check_last (p + 7) b result (reader input (left - 1) err)
  unfolding decode_varint32_loop
  round32_last fuel k =
      rw (readbyte-cons input err b left l, and_then, e, more_follows_clear b k)
        (ap (λ t. check_last t b result (reader input (left - 1) err)) (mod-eq_of_lt (omega arith)))

-- The answer for a varint that ends in reach: its value, if that fits 32 bits.
abbrev pub answer32 : ℕ → IStream → Option ℕ × IStream
answer32 n s = if ltb n (2 ^ 32) then (some n, s) else return_error varint_overflow s

check_low : (p b n : ℕ) (s : IStream) → p < 35 → n < 2 ^ 32 → check_last p b n s ≡ answer32 n s
unfolding check_last
check_low p b n s h k = rw (lt→ltb n (2 ^ 32) k) (ground arith)

check_top :
    (b acc : ℕ) (s : IStream)
    → b < 128
    → acc < 2 ^ 28
    → check_last 35 b (acc + b % 16 * 2 ^ 28) s ≡ answer32 (acc + b * 2 ^ 28) s
unfolding check_last
check_top b acc s h k = rw (high_bits b (omega arith)) (ground arith)

-- The last byte, in the round of group `j`.
last32 :
    (j b acc left fuel : ℕ) (input : List ℕ) (err : Option Message)
    → b < 128
    → j ≤ 4
    → acc < 2 ^ (7 * j)
    → 0 < left
    → decode_varint32_loop (suc fuel) (7 * j) acc (reader (b ∷ input) left err)
      ≡ answer32 (acc + (b % 128 + 0) * 2 ^ (7 * j)) (reader input (left - 1) err)
last32 j b acc left fuel input err hb hj h l = elim (dec_lt j 4) [
  | yes low ↦
      let bits = bits32_low acc b (7 * j) h (omega arith) in
      let room = pow-le-pow_right {n = 2} (omega arith) {i = 7 * j} {j = 21} (omega arith) in
      round32_last input err b (7 * j) acc _ left (omega arith) l bits fuel hb
      ∙ check_low (7 * j + 7) b _ (reader input (left - 1) err) (omega arith) (grind arith)
      ∙ ap (λ n. answer32 n (reader input (left - 1) err)) (omega arith)
  | no high ↦
      let four : 4 ≡ j = omega arith in
      subst
        (λ k.
          acc < 2 ^ (7 * k)
          → decode_varint32_loop (suc fuel) (7 * k) acc (reader (b ∷ input) left err)
            ≡ answer32 (acc + (b % 128 + 0) * 2 ^ (7 * k)) (reader input (left - 1) err))
        four
        (λ h4.
          round32_last input err b 28 acc _ left (omega arith) l (bits32_top acc b h4) fuel hb
          ∙ check_top b acc (reader input (left - 1) err) hb h4
          ∙ ap (λ n. answer32 n (reader input (left - 1) err)) (omega arith))
        h
]

pub next_group : (j : ℕ) → 2 ^ (7 * suc j) ≡ 128 * 2 ^ (7 * j)
next_group j = ap (λ t. 2 ^ t) seven ∙ simp towards_suc (omega arith)
  where
    seven : 7 * suc j ≡ 7 * j + 7
    seven = omega arith

pub carry32 :
    (acc b j v : ℕ)
    → acc + b % 128 * 2 ^ (7 * j) + v * 2 ^ (7 * suc j) ≡ acc + (b % 128 + 128 * v) * 2 ^ (7 * j)
carry32 acc b j v = omega (arith, ap (λ (t : ℕ). v * t) (next_group j))

loop32_value :
    (bs : List ℕ) (fuel j acc left : ℕ) (input : List ℕ) (err : Option Message)
    → IsVarint bs
    → j + length bs ≤ 5
    → length bs ≤ fuel
    → length bs ≤ left
    → acc < 2 ^ (7 * j)
    → decode_varint32_loop fuel (7 * j) acc (reader (bs ++ input) left err)
      ≡ answer32 (acc + value bs * 2 ^ (7 * j)) (reader input (left - length bs) err)
loop32_value [] fuel j acc left input err v n f l h = elim v [ ]
loop32_value (b ∷ bs) zero j acc left input err v n f l h = absurd (omega arith)
loop32_value (b ∷ []) (suc fuel) j acc left input err v n f l h =
    last32 j b acc left fuel input err v (omega arith) h (omega arith)
loop32_value (b ∷ c ∷ bs) (suc fuel) j acc left input err (hi, byte, v) n f l h =
    round32_more (c ∷ (bs ++ input)) err b (7 * j) acc _ left (omega arith) (omega arith)
      (bits32_low acc b (7 * j) h (omega arith)) fuel (hi, byte)
    ∙ ap
        (λ p.
          decode_varint32_loop fuel p (acc + b % 128 * 2 ^ (7 * j))
            (reader (c ∷ (bs ++ input)) (left - 1) err))
        next
    ∙ loop32_value (c ∷ bs) fuel (suc j) (acc + b % 128 * 2 ^ (7 * j)) (left - 1) input err v
        (omega arith) (omega arith) (omega arith) (grind (arith, next_group j))
    ∙ ap₂ (λ t l. answer32 t (reader input l err)) (carry32 acc b j (value (c ∷ bs))) (omega arith)
  where
    next : 7 * j + 7 ≡ 7 * suc j
    next = omega arith

-- The answer of pb_decode_varint32_eof where the first byte is there.
abbrev pub no_eof : Option ℕ × IStream → Option ℕ × IStream × Bool
no_eof (result, s) = (result, s, false)

-- The same with the flag for the end of the stream, which stays false.
pub pb_decode_varint32_eof-value :
    (bs input : List ℕ) (left : ℕ) (err : Option Message)
    → IsVarint bs
    → length bs ≤ 5
    → length bs ≤ left
    → pb_decode_varint32_eof (reader (bs ++ input) left err)
      ≡ no_eof (answer32 (value bs) (reader input (left - length bs) err))
unfolding pb_decode_varint32_eof
pb_decode_varint32_eof-value [] input left err v n l = elim v [ ]
pb_decode_varint32_eof-value (b ∷ []) input left err v n l =
    let exact : b % 128 + 0 ≡ b = omega arith in
    rw (
      readbyte-cons input err b left (omega arith),
      top_bit_clear b v,
      exact,
      lt→ltb b (2 ^ 32) (omega arith),
    )
pb_decode_varint32_eof-value (b ∷ c ∷ bs) input left err (hi, byte, v) n l =
    rw
      (
        readbyte-cons (c ∷ (bs ++ input)) err b left (omega arith),
        top_bit_set b hi byte,
        low_seven b,
      )
      (ap no_eof (
        loop32_value (c ∷ bs) (left - 1) 1 (b % 128) (left - 1) input err v (omega arith)
          (omega arith) (omega arith) (omega arith)
        ∙ ap₂ (λ t l. answer32 t (reader input l err)) (omega arith) (omega arith)))

-- pb_decode_varint32 on a varint of up to five bytes within the limit: the value if it fits 32 bits,
-- and an overflow if not; either way the stream stands behind the varint.
pub pb_decode_varint32-value :
    (bs input : List ℕ) (left : ℕ) (err : Option Message)
    → IsVarint bs
    → length bs ≤ 5
    → length bs ≤ left
    → pb_decode_varint32 (reader (bs ++ input) left err)
      ≡ answer32 (value bs) (reader input (left - length bs) err)
unfolding pb_decode_varint32
pb_decode_varint32-value bs input left err v n l =
    ap (λ r. (r.0, r.1)) (pb_decode_varint32_eof-value bs input left err v n l)
