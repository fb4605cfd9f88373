-- ===== src/Base64/RoundTrip.antt =====
-- fbase64.c: f_b64_pton reads back the encoding that f_b64_ntop writes.
pub mod Groups
pub mod Whole
use native.Mathlib.Nat.{mod-eq_of_lt}
use app_chat_again.Prelude.Bits.{bit_or_fields, bit_and_mask}
use app_chat_again.Prelude.Words.{u8}
use app_chat_again.Base64.{
  next_index, next_state, char_of, digit3, two_read, digit1, one_read, digit2, three_read,
  none_read, digit0, State, u8, put_digit, store_digit, pton_from,
}
use app_chat_again.Prelude.{
  ◌∙◌, ap₂, ap, arith, ◌^◌, ◌%◌, set-append_next, set-append, get_or-append, lt→leb, ◌∷◌, ◌/◌, ◌*◌,
  some, ◌++◌, bit_and, ◌+◌, ◌≡◌, length, bit_or, ◌<◌, List, ℕ,
}
use app_chat_again.Base64.Alphabet.{digit_of-char_of}

module _ (targsize : ℕ) where
  -- A digit's character, where there is room for what it adds.
  digit_step :
      (state : State) (i d : ℕ) (target target' src : List ℕ)
      → d < 64
      → store_digit state d targsize i target ≡ some target'
      → pton_from targsize state i (some target) (char_of d ∷ src)
        ≡ pton_from targsize (next_state state) (next_index state i) (some target') src
  unfolding pton_from put_digit
  digit_step state i d target target' src h e =
      let (found, no_space, no_pad) = digit_of-char_of d h in rw (no_space, no_pad, found, e)

  module _ (pre post : List ℕ) (x y d : ℕ) where
    store_first :
        length pre < targsize
        → store_digit none_read d targsize (length pre) (pre ++ (x ∷ post))
          ≡ some (pre ++ (u8 (d * 4) ∷ post))
    unfolding store_digit
    store_first h = rw (lt→leb targsize (length pre) h, set-append pre x (u8 (d * 4)) post)

    store_last :
        length pre < targsize
        → store_digit three_read d targsize (length pre) (pre ++ (x ∷ post))
          ≡ some (pre ++ (u8 (bit_or x d) ∷ post))
    unfolding store_digit
    store_last h = rw (
      lt→leb targsize (length pre) h,
      get_or-append pre x 0 post,
      set-append pre x (u8 (bit_or x d)) post,
    )

    store_second :
        length pre + 1 < targsize
        → store_digit one_read d targsize (length pre) (pre ++ (x ∷ y ∷ post))
          ≡ some (pre ++ (u8 (bit_or x (d / 16)) ∷ u8 (bit_and d 0x0f * 16) ∷ post))
    unfolding store_digit
    store_second h = rw (
      lt→leb targsize (length pre + 1) h,
      get_or-append pre x 0 (y ∷ post),
      set-append pre x (u8 (bit_or x (d / 16))) (y ∷ post),
      set-append_next pre (u8 (bit_or x (d / 16))) y (u8 (bit_and d 0x0f * 16)) post,
    )

    store_third :
        length pre + 1 < targsize
        → store_digit two_read d targsize (length pre) (pre ++ (x ∷ y ∷ post))
          ≡ some (pre ++ (u8 (bit_or x (d / 4)) ∷ u8 (bit_and d 0x03 * 64) ∷ post))
    unfolding store_digit
    store_third h = rw (
      lt→leb targsize (length pre + 1) h,
      get_or-append pre x 0 (y ∷ post),
      set-append pre x (u8 (bit_or x (d / 4))) (y ∷ post),
      set-append_next pre (u8 (bit_or x (d / 4))) y (u8 (bit_and d 0x03 * 64)) post,
    )

-- The digits and the bytes as numbers.
pub digit1-parts : (a b : ℕ) → digit1 a b ≡ a % 4 * 16 + b / 16
digit1-parts a b = ap (λ t. t * 16 + b / 16) (bit_and_mask 2 a)

pub digit2-parts : (b c : ℕ) → digit2 b c ≡ b % 16 * 4 + c / 64
digit2-parts b c = ap (λ t. t * 4 + c / 64) (bit_and_mask 4 b)

digit3-parts : (c : ℕ) → digit3 c ≡ c % 64
digit3-parts c = bit_and_mask 6 c

put_together :
    (k q r v : ℕ) → r < 2 ^ k → q * 2 ^ k + r ≡ v → v < 256 → u8 (bit_or (q * 2 ^ k) r) ≡ v
put_together k q r v h e small = ap u8 (bit_or_fields k q r h ∙ e) ∙ mod-eq_of_lt small

module _ (a b c : ℕ) (ha : a < 256) (hb : b < 256) (hc : c < 256) where
  first_byte : u8 (bit_or (u8 (digit0 a * 4)) (digit1 a b / 16)) ≡ a
  first_byte =
      ap₂ (λ p q. u8 (bit_or p q)) high low
      ∙ put_together 2 (a / 4) (a % 4) a (omega arith) (omega arith) ha
    where
      high : u8 (digit0 a * 4) ≡ a / 4 * 2 ^ 2
      high = omega arith

      low : digit1 a b / 16 ≡ a % 4
      low = omega (arith, digit1-parts a b)

  second_byte : u8 (bit_or (u8 (bit_and (digit1 a b) 0x0f * 16)) (digit2 b c / 4)) ≡ b
  second_byte =
      ap₂ (λ p q. u8 (bit_or p q)) high low
      ∙ put_together 4 (b / 16) (b % 16) b (omega arith) (omega arith) hb
    where
      high : u8 (bit_and (digit1 a b) 0x0f * 16) ≡ b / 16 * 2 ^ 4
      high = omega (arith, digit1-parts a b, bit_and_mask 4 (digit1 a b))

      low : digit2 b c / 4 ≡ b % 16
      low = omega (arith, digit2-parts b c)

  third_byte : u8 (bit_or (u8 (bit_and (digit2 b c) 0x03 * 64)) (digit3 c)) ≡ c
  third_byte =
      ap₂ (λ p q. u8 (bit_or p q)) high (digit3-parts c)
      ∙ put_together 6 (c / 64) (c % 64) c (omega arith) (omega arith) hc
    where
      high : u8 (bit_and (digit2 b c) 0x03 * 64) ≡ c / 64 * 2 ^ 6
      high = omega (arith, digit2-parts b c, bit_and_mask 2 (digit2 b c))

  digit0_small : digit0 a < 64
  digit0_small = omega arith

  digit1_small : digit1 a b < 64
  digit1_small = omega (arith, digit1-parts a b)

  digit2_small : digit2 b c < 64
  digit2_small = omega (arith, digit2-parts b c)

  digit3_small : digit3 c < 64
  digit3_small = omega (arith, digit3-parts c)
