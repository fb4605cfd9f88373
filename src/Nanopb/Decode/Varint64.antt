-- ===== src/Nanopb/Decode/Varint64.antt =====
-- AppChat_Again/Pods/nanopb/pb_decode.c: pb_decode_varint against the description by digits.
use app_chat_again.Prelude.{
  ℕ, zero, suc, ◌+◌, ◌-◌, ◌*◌, ◌%◌, ◌^◌, ◌≤◌, ◌<◌, ◌≡◌, sym, ap, ap₂, ◌∙◌, arith, Option, none,
  some, List, [], ◌∷◌, ◌++◌, length, All, bit_and, bit_or, lt→leb, subst,
}
use app_chat_again.Prelude.Words.{u64}
use app_chat_again.Prelude.Bits.{bit_or_disjoint, low_seven}
use app_chat_again.Nanopb.Types.{Message, set_error, varint_overflow, end_of_stream}
use app_chat_again.Nanopb.Varint.{IsVarint, IsContinuation, value}
use app_chat_again.Nanopb.IStream.Buffer.{reader, readbyte-cons, readbyte-end}
use app_chat_again.Nanopb.Decode.{decode_varint_loop, pb_decode_varint, add_bits64}
use app_chat_again.Nanopb.Decode.TopBit.{more_follows_set, more_follows_clear}
use native.Mathlib.Nat.{mod-eq_of_lt, pow-le-pow_right}
use native.Mathlib.Numerals.{towards_suc}

shift_seven : (p : ℕ) → 2 ^ (p + 7) ≡ 128 * 2 ^ p
shift_seven p = simp towards_suc (omega arith)

-- A round at bit `p` below 57: nothing is cut off.
inner_bits :
    (acc b p : ℕ) → acc < 2 ^ p → 2 ^ p ≤ 2 ^ 56 → add_bits64 acc b p ≡ acc + b % 128 * 2 ^ p
inner_bits acc b p h k = ap (λ t. bit_or acc t) masked ∙ bit_or_disjoint p acc (b % 128) h
  where
    small : b % 128 * 2 ^ p < 2 ^ 64
    small = grind arith

    masked : u64 (bit_and b 0x7F * 2 ^ p) ≡ b % 128 * 2 ^ p
    masked = rw low_seven (mod-eq_of_lt small)

-- The tenth round, where one bit is left.
last_bit : (acc b : ℕ) → acc < 2 ^ 63 → add_bits64 acc b 63 ≡ (acc + b % 128 * 2 ^ 63) % 2 ^ 64
last_bit acc b h = ap (λ t. bit_or acc t) masked ∙ bit_or_disjoint 63 acc (b % 2) h ∙ omega arith
  where
    masked : u64 (bit_and b 0x7F * 2 ^ 63) ≡ b % 2 * 2 ^ 63
    masked = rw low_seven (omega arith)

module _ (input : List ℕ) (err : Option Message) (b p acc left : ℕ) (h : p ≤ 63)
    (l : 0 < left) where
  round_more :
      (rounds : ℕ)
      → 128 ≤ b
      → b < 256
      → decode_varint_loop (suc rounds) p acc (reader (b ∷ input) left err)
        ≡ decode_varint_loop rounds (p + 7) (add_bits64 acc b p) (reader input (left - 1) err)
  unfolding decode_varint_loop
  round_more rounds k q =
      rw (lt→leb 64 p (omega arith), readbyte-cons input err b left l, more_follows_set b k q)
        (ap (λ t. decode_varint_loop rounds t (add_bits64 acc b p) (reader input (left - 1) err))
          (mod-eq_of_lt (omega arith)))

  round_last :
      (rounds : ℕ)
      → b < 128
      → decode_varint_loop (suc rounds) p acc (reader (b ∷ input) left err)
        ≡ (some (add_bits64 acc b p), reader input (left - 1) err)
  unfolding decode_varint_loop
  round_last rounds k =
      rw (lt→leb 64 p (omega arith), readbyte-cons input err b left l, more_follows_clear b k)

below_bit_57 : (p : ℕ) → p ≤ 56 → 2 ^ p ≤ 2 ^ 56
below_bit_57 p h = pow-le-pow_right {n = 2} (omega arith) {i = p} {j = 56} h

round_end :
    (input : List ℕ) (err : Option Message) (rounds acc left : ℕ)
    → left ≡ 0
    → decode_varint_loop (suc rounds) (70 - 7 * suc rounds) acc (reader input left err)
      ≡ (none, reader input 0 (set_error err end_of_stream))
unfolding decode_varint_loop
round_end input err rounds acc left h =
    rw (h, lt→leb 64 (70 - 7 * suc rounds) (omega arith), readbyte-end input err)

-- What the last byte adds, in every round.
last_bits :
    (acc b p rounds : ℕ)
    → acc < 2 ^ p
    → p + 7 * suc rounds ≡ 70
    → add_bits64 acc b p ≡ (acc + (b % 128 + 0) * 2 ^ p) % 2 ^ 64
last_bits acc b p zero h e =
    let p63 : 63 ≡ p = omega arith in
    subst (λ t. acc < 2 ^ t → add_bits64 acc b t ≡ (acc + (b % 128 + 0) * 2 ^ t) % 2 ^ 64) p63
      (λ k. last_bit acc b k ∙ omega arith) h
last_bits acc b p (suc rounds) h e =
    let low = below_bit_57 p (omega arith) in
    let fits : acc + b % 128 * 2 ^ p < 2 ^ 64 = grind arith in
    inner_bits acc b p h low ∙ sym (mod-eq_of_lt fits) ∙ omega arith

-- The value behind the group at bit `p`.
carry :
    (acc b p v : ℕ) → acc + b % 128 * 2 ^ p + v * 2 ^ (p + 7) ≡ acc + (b % 128 + 128 * v) * 2 ^ p
carry acc b p v = omega (arith, ap (λ (t : ℕ). v * t) (shift_seven p))

-- `p` is the bit that the next group stands at, and `7 * rounds` what is left of 70.
loop_value :
    (bs : List ℕ) (rounds p acc left : ℕ) (input : List ℕ) (err : Option Message)
    → IsVarint bs
    → p + 7 * rounds ≡ 70
    → length bs ≤ rounds
    → length bs ≤ left
    → acc < 2 ^ p
    → decode_varint_loop rounds p acc (reader (bs ++ input) left err)
      ≡ (some ((acc + value bs * 2 ^ p) % 2 ^ 64), reader input (left - length bs) err)
loop_value [] rounds p acc left input err v e n l a = elim v [ ]
loop_value (b ∷ bs) zero p acc left input err v e n l a = absurd (omega arith)
loop_value (b ∷ []) (suc rounds) p acc left input err v e n l a =
    round_last input err b p acc left (omega arith) (omega arith) rounds v
    ∙ ap (λ t. (some t, reader input (left - 1) err)) (last_bits acc b p rounds a e)
loop_value (b ∷ c ∷ bs) (suc rounds) p acc left input err (hi, byte, v) e n l a =
    round_more (c ∷ (bs ++ input)) err b p acc left (omega arith) (omega arith) rounds hi byte
    ∙ ap (λ t. decode_varint_loop rounds (p + 7) t (reader (c ∷ (bs ++ input)) (left - 1) err))
        (inner_bits acc b p a low)
    ∙ loop_value (c ∷ bs) rounds (p + 7) (acc + b % 128 * 2 ^ p) (left - 1) input err v
        (omega arith) (omega arith) (omega arith) (grind (arith, shift_seven p))
    ∙ ap₂ (λ t l. (some (t % 2 ^ 64), reader input l err)) (carry acc b p (value (c ∷ bs)))
        (omega arith)
  where
    low : 2 ^ p ≤ 2 ^ 56
    low = below_bit_57 p (omega arith)

-- pb_decode_varint reads any varint of up to ten bytes within the limit, the shortest or not: its
-- value modulo 2 ^ 64, and the stream behind it.
pub pb_decode_varint-value :
    (bs input : List ℕ) (left : ℕ) (err : Option Message)
    → IsVarint bs
    → length bs ≤ 10
    → length bs ≤ left
    → pb_decode_varint (reader (bs ++ input) left err)
      ≡ (some (value bs % 2 ^ 64), reader input (left - length bs) err)
unfolding pb_decode_varint
pb_decode_varint-value bs input left err v n l =
    loop_value bs 10 0 0 left input err v (omega arith) n l (omega arith)
    ∙ ap (λ t. (some (t % 2 ^ 64), reader input (left - length bs) err)) (omega arith)

-- Bytes with the top bit set, one after the other: the loop goes on behind them.
loop_continues :
    (bs : List ℕ) (total rounds p acc left : ℕ) (input : List ℕ) (err : Option Message)
    → All IsContinuation bs
    → total ≡ length bs + rounds
    → p + 7 * total ≡ 70
    → length bs ≤ left
    → (acc' : ℕ) × (decode_varint_loop total p acc (reader (bs ++ input) left err)
        ≡ decode_varint_loop rounds (70 - 7 * rounds) acc' (reader input (left - length bs) err))
loop_continues [] total rounds p acc left input err a t e l = (
  acc,
  ap₂ (λ r q. decode_varint_loop r q acc (reader input left err)) all_left here
      ∙ ap (λ n. decode_varint_loop rounds (70 - 7 * rounds) acc (reader input n err)) none_off,
)
  where
    all_left : total ≡ rounds
    all_left = omega arith

    here : p ≡ 70 - 7 * rounds
    here = omega arith

    none_off : left ≡ left - 0
    none_off = omega arith
loop_continues (b ∷ bs) zero rounds p acc left input err a t e l = absurd (omega arith)
loop_continues (b ∷ bs) (suc total) rounds p acc left input err (c, a) t e l =
    let (acc', more) =
      loop_continues bs total rounds (p + 7) (add_bits64 acc b p) (left - 1) input err a
        (omega arith) (omega arith) (omega arith) in
    (
      acc',
      round_more (bs ++ input) err b p acc left (omega arith) (omega arith) total c.0 c.1
          ∙ more
          ∙ ap (λ n. decode_varint_loop rounds (70 - 7 * rounds) acc' (reader input n err)) off,
    )
  where
    off : left - 1 - length bs ≡ left - suc (length bs)
    off = omega arith

module _ (bs input : List ℕ) (left : ℕ) (err : Option Message) (a : All IsContinuation bs) where
  -- Ten bytes that all announce another one are refused by pb_decode_varint, and the eleventh is not
  -- read.
  pub pb_decode_varint-overflow :
      length bs ≡ 10
      → 10 ≤ left
      → pb_decode_varint (reader (bs ++ input) left err)
        ≡ (none, reader input (left - 10) (set_error err varint_overflow))
  unfolding pb_decode_varint
  pb_decode_varint-overflow n l =
      let (acc, more) =
        loop_continues bs 10 0 0 0 left input err a (omega arith) (omega arith) (omega arith) in
      more ∙ ap (λ t. (none, reader input (left - t) (set_error err varint_overflow))) n

  -- Up to nine bytes that all announce another one are refused where the limit of the stream ends
  -- behind them.
  pub pb_decode_varint-truncated :
      length bs < 10
      → length bs ≡ left
      → pb_decode_varint (reader (bs ++ input) left err)
        ≡ (none, reader input 0 (set_error err end_of_stream))
  unfolding pb_decode_varint
  pb_decode_varint-truncated n l =
      let k = 9 - length bs in
      let (acc, more) =
        loop_continues bs 10 (suc k) 0 0 left input err a (omega arith) (omega arith)
          (omega arith) in
      more ∙ round_end input err k acc (left - length bs) (omega arith)
