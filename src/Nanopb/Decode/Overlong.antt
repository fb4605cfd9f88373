-- ===== src/Nanopb/Decode/Overlong.antt =====
-- AppChat_Again/Pods/nanopb/pb_decode.c: pb_decode_varint32 on varints that are longer than five
-- bytes. The position of the next group is a `uint_fast8_t`, which is one byte on the
-- application's platforms.
use app_chat_again.Nanopb.Varint.{value, IsContinuation}
use app_chat_again.Prelude.{
  [], ap₂, subst, length, refl, All, ℕ, zero, suc, ◌+◌, ◌-◌, ◌*◌, ◌%◌, ◌^◌, ◌≤◌, ◌<◌, ◌≡◌, ap, ◌∙◌,
  arith, Option, some, List, ◌∷◌, ◌++◌, bit_and, bit_or, replicate, Bool-cases, inl, inr, leb,
  and_then,
}
use app_chat_again.Prelude.Words.{u8, u32, IsU32}
use app_chat_again.Prelude.Bits.{bit_or_disjoint, low_seven}
use app_chat_again.Nanopb.Types.{Message}
use app_chat_again.Nanopb.IStream.Buffer.{reader, readbyte-cons}
use app_chat_again.Nanopb.Decode.{decode_varint32_loop, pb_decode_varint32, add_bits32, check_last}
use app_chat_again.Nanopb.Decode.TopBit.{top_bit_set}
use app_chat_again.Nanopb.Decode.Varint32.{
  carry32, next_group, bits32_top, bits32_low, round32_more, round32_last,
}

-- A byte 0x80 adds nothing at any position.
padding_bits : (p result : ℕ) → IsU32 result → add_bits32 p result 0x80 ≡ some result
unfolding add_bits32
padding_bits p result h = elim (Bool-cases (leb 32 p)) [
  | inl high ↦ rw high
  | inr low ↦ rw low (ap (λ t. some (bit_or result t)) empty ∙ ap some kept)
]
  where
    empty : u32 (0 * 2 ^ p) ≡ 0 * 2 ^ 32
    empty = omega arith

    kept : bit_or result (0 * 2 ^ 32) ≡ result
    kept = bit_or_disjoint 32 result 0 h ∙ omega arith

padding_round :
    (fuel p result left : ℕ) (input : List ℕ) (err : Option Message)
    → IsU32 result
    → 0 < left
    → decode_varint32_loop (suc fuel) p result (reader (0x80 ∷ input) left err)
      ≡ decode_varint32_loop fuel (u8 (p + 7)) result (reader input (left - 1) err)
unfolding decode_varint32_loop
padding_round fuel p result left input err h l =
    rw (readbyte-cons input err 0x80 left l, and_then, padding_bits p result h)

same_place :
    {f f' p p' l l' : ℕ} (result : ℕ) (input : List ℕ) (err : Option Message)
    → f ≡ f'
    → p ≡ p'
    → l ≡ l'
    → decode_varint32_loop f p result (reader input l err)
      ≡ decode_varint32_loop f' p' result (reader input l' err)
same_place result input err e q r = cc

pub padding :
    (n fuel p result left : ℕ) (input : List ℕ) (err : Option Message)
    → IsU32 result
    → n ≤ left
    → n ≤ fuel
    → p < 256
    → decode_varint32_loop fuel p result (reader (replicate n 0x80 ++ input) left err)
      ≡ decode_varint32_loop (fuel - n) (u8 (p + 7 * n)) result (reader input (left - n) err)
padding zero fuel p result left input err h l f k =
    same_place result input err (omega arith) (omega arith) (omega arith)
padding (suc n) zero p result left input err h l f k = absurd (omega arith)
padding (suc n) (suc fuel) p result left input err h l f k =
    padding_round fuel p result left (replicate n 0x80 ++ input) err h (omega arith)
    ∙ padding n fuel (u8 (p + 7)) result (left - 1) input err h (omega arith) (omega arith)
        (omega arith)
    ∙ same_place result input err (omega arith) (omega arith) (omega arith)

-- The group at bit 3, where the position has come round.
wrapped_bits : (low c : ℕ) → low < 8 → c < 128 → add_bits32 3 low c ≡ some (low + c * 2 ^ 3)
unfolding add_bits32
wrapped_bits low c h k = ap (λ t. some (bit_or low t)) masked ∙ ap some (bit_or_disjoint 3 low c h)
  where
    masked : u32 (bit_and c 0x7F * 2 ^ 3) ≡ c * 2 ^ 3
    masked = rw low_seven (omega arith)

-- A varint of 38 bytes whose first is 128 to 135, whose next 36 are 0x80 and whose last is any byte
-- that ends it is not refused by pb_decode_varint32: the bit position has wrapped from 252 to 3, and
-- the last byte, which counts from bit 259 on, is put in at bit 3.
pub pb_decode_varint32_wraps :
    (b c left : ℕ) (input : List ℕ) (err : Option Message)
    → 128 ≤ b
    → b < 136
    → c < 128
    → 38 ≤ left
    → pb_decode_varint32 (reader (b ∷ (replicate 36 0x80 ++ (c ∷ input))) left err)
      ≡ (some (b % 128 + c * 2 ^ 3), reader input (left - 38) err)
unfolding pb_decode_varint32 check_last
pb_decode_varint32_wraps b c left input err hb kb hc l =
    rw
      (
        readbyte-cons (replicate 36 0x80 ++ (c ∷ input)) err b left (omega arith),
        top_bit_set b hb (omega arith),
        low_seven b,
      )
      (rounds ∙ ap (λ n. (some (b % 128 + c * 2 ^ 3), reader input n err)) (omega arith))
  where
    fuel : left - 1 - 36 ≡ suc (left - 38)
    fuel = omega arith

    rounds :
        decode_varint32_loop
          (left - 1)
          7
          (b % 128)
          (reader (replicate 36 0x80 ++ (c ∷ input)) (left - 1) err)
        ≡ (some (b % 128 + c * 2 ^ 3), reader input (left - 1 - 36 - 1) err)
    rounds =
        padding 36 (left - 1) 7 (b % 128) (left - 1) (c ∷ input) err (omega arith) (omega arith)
          (omega arith) (omega arith)
        ∙ ap (λ f. decode_varint32_loop f 3 (b % 128) (reader (c ∷ input) (left - 1 - 36) err)) fuel
        ∙ round32_last input err c 3 (b % 128) (b % 128 + c * 2 ^ 3) (left - 1 - 36) (omega arith)
            (omega arith) (wrapped_bits (b % 128) c (omega arith) hc) (left - 38) hc

top_group :
    (j b acc left fuel : ℕ) (input : List ℕ) (err : Option Message)
    → IsContinuation b
    → 4 ≡ j
    → acc < 2 ^ (7 * j)
    → 0 < left
    → decode_varint32_loop (suc fuel) (7 * j) acc (reader (b ∷ input) left err)
      ≡ decode_varint32_loop fuel 35
          ((acc + (b % 128 + 0) * 2 ^ (7 * j)) % 2 ^ 32)
          (reader input (left - 1) err)
top_group j b acc left fuel input err c four h l =
    subst
      (λ k.
        acc < 2 ^ (7 * k)
        → decode_varint32_loop (suc fuel) (7 * k) acc (reader (b ∷ input) left err)
          ≡ decode_varint32_loop fuel 35 ((acc + (b % 128 + 0) * 2 ^ (7 * k)) % 2 ^ 32)
              (reader input (left - 1) err))
      four
      (λ h4.
        round32_more input err b 28 acc _ left (omega arith) l (bits32_top acc b h4) fuel c
        ∙ ap (λ n. decode_varint32_loop fuel 35 n (reader input (left - 1) err)) (omega arith))
      h

-- Groups up to bit 35, none of them the last: what they hold from bit 32 on is dropped.
loop32_continues :
    (bs : List ℕ) (fuel j acc left : ℕ) (input : List ℕ) (err : Option Message)
    → All IsContinuation bs
    → j + length bs ≡ 5
    → j ≤ 4
    → length bs ≤ fuel
    → length bs ≤ left
    → acc < 2 ^ (7 * j)
    → decode_varint32_loop fuel (7 * j) acc (reader (bs ++ input) left err)
      ≡ decode_varint32_loop
          (fuel - length bs)
          35
          ((acc + value bs * 2 ^ (7 * j)) % 2 ^ 32)
          (reader input (left - length bs) err)
loop32_continues [] fuel j acc left input err a n k f l h = absurd (omega arith)
loop32_continues (b ∷ bs) zero j acc left input err a n k f l h = absurd (omega arith)
loop32_continues (b ∷ []) (suc fuel) j acc left input err (c, a) n k f l h =
    top_group j b acc left fuel input err c (omega arith) h (omega arith)
    ∙ same_place _ input err (omega arith) refl (omega arith)
loop32_continues (b ∷ b' ∷ bs) (suc fuel) j acc left input err (c, a) n k f l h =
    round32_more (b' ∷ (bs ++ input)) err b (7 * j) acc _ left (omega arith) (omega arith)
      (bits32_low acc b (7 * j) h (omega arith)) fuel c
    ∙ same_place _ (b' ∷ (bs ++ input)) err refl next refl
    ∙ loop32_continues (b' ∷ bs) fuel (suc j) (acc + b % 128 * 2 ^ (7 * j)) (left - 1) input err a
        (omega arith) (omega arith) (omega arith) (omega arith) (grind (arith, next_group j))
    ∙ same_place _ input err (omega arith) refl (omega arith)
    ∙ ap
        (λ t.
          decode_varint32_loop (suc fuel - length (b ∷ b' ∷ bs)) 35 (t % 2 ^ 32)
            (reader input (left - length (b ∷ b' ∷ bs)) err))
        (carry32 acc b j (value (b' ∷ bs)))
  where
    next : 7 * j + 7 ≡ 7 * suc j
    next = omega arith

-- A byte 0 at bit 35 ends the number.
zero_at_35 :
    (fuel result left : ℕ) (input : List ℕ) (err : Option Message)
    → 0 < left
    → decode_varint32_loop (suc fuel) 35 result (reader (0 ∷ input) left err)
      ≡ (some result, reader input (left - 1) err)
unfolding check_last add_bits32
zero_at_35 fuel result left input err l =
    round32_last input err 0 35 result result left (omega arith) l refl fuel (omega arith)

-- From a varint of six bytes whose last is 0, pb_decode_varint32 answers its value modulo 2 ^ 32: the
-- bits of the fifth byte from 32 on are dropped, and no overflow is reported.
pub pb_decode_varint32_drops :
    (b : ℕ) (bs input : List ℕ) (left : ℕ) (err : Option Message)
    → IsContinuation b
    → All IsContinuation bs
    → length bs ≡ 4
    → 6 ≤ left
    → pb_decode_varint32 (reader (b ∷ (bs ++ (0 ∷ input))) left err)
      ≡ (some (value (b ∷ bs) % 2 ^ 32), reader input (left - 6) err)
unfolding pb_decode_varint32
pb_decode_varint32_drops b bs input left err c a n l =
    rw
      (
        readbyte-cons (bs ++ (0 ∷ input)) err b left (omega arith),
        top_bit_set b c.0 c.1,
        low_seven b,
      )
      (loop32_continues bs (left - 1) 1 (b % 128) (left - 1) (0 ∷ input) err a (omega arith)
          (omega arith) (omega arith) (omega arith) (omega arith)
        ∙ same_place _ (0 ∷ input) err more refl refl
        ∙ zero_at_35 (left - 6) _ (left - 1 - length bs) input err (omega arith)
        ∙ ap₂ (λ t q. (some (t % 2 ^ 32), reader input q err)) (omega arith) (omega arith))
  where
    more : left - 1 - length bs ≡ suc (left - 6)
    more = omega arith
