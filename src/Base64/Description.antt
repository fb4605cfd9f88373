-- ===== src/Base64/Description.antt =====
-- fbase64.c: f_b64_ntop against a description of base 64 that is independent of it: 24 bits are read as
-- one number, and its digits to the base 64, highest first, are written as the letters of RFC 1521.
use app_chat_again.Base64.Encode.{f_b64_ntop-groups, groups}
use app_chat_again.Prelude.{
  none, ◌≤◌, some, arith, length, All, IsByte, ◌-◌, [], ◌++◌, ◌%◌, ==_iff, refl, ◌+◌, subst, ltb,
  true, ◌*◌, ◌/◌, ◌≡◌, ◌<◌, take, if◌then◌else◌, ◌==◌, List, ℕ,
}
use app_chat_again.Base64.{
  f_b64_ntop, group2, group1, group3, digit0, digit2, digit1, digit3, ◌∷◌, List, ℕ, ◌==◌, char_of,
}
use app_chat_again.Prelude.Bits.{bit_and_mask, holds_below, holds_below-at}

-- A to Z, a to z, 0 to 9, + and /.
unfoldable pub letter : ℕ → ℕ
letter d =
    if ltb d 26
    then b'A' + d
    else if ltb d 52
    then b'a' + (d - 26)
    else if ltb d 62
    then b'0' + (d - 52)
    else if d == 62
    then b'+'
    else b'/'

-- The first `count` of the four digits of a number of 24 bits.
abbrev letters : ℕ → ℕ → List ℕ
letters count n =
    take count
      (letter (n / 262144) ∷ letter (n / 4096 % 64) ∷ letter (n / 64 % 64) ∷ letter (n % 64) ∷ [])

-- Bytes that are missing are zero, and a digit without a bit of a byte is written as `=`.
unfoldable pub encoding : List ℕ → List ℕ
encoding [] = []
encoding (a ∷ []) = letters 2 (65536 * a) ++ b'=' ∷ b'=' ∷ []
encoding (a ∷ b ∷ []) = letters 3 (65536 * a + 256 * b) ++ b'=' ∷ []
encoding (a ∷ b ∷ c ∷ src) = letters 4 (65536 * a + 256 * b + c) ++ encoding src

table_letters : holds_below (λ d. char_of d == letter d) 64 ≡ true
unfolding holds_below char_of letter
table_letters = refl

char_of-letter : (d e : ℕ) → d < 64 → d ≡ e → char_of d ≡ letter e
char_of-letter d e h same =
    subst (λ k. char_of d ≡ letter k) same
      ((==_iff (char_of d) (letter d)).0
        (holds_below-at (λ k. char_of k == letter k) 64 d h table_letters))

-- The digits that the code takes out of three bytes are those of their number.
module _ (a b c : ℕ) (byte0 : IsByte a) (byte1 : IsByte b) (byte2 : IsByte c) where
  first_digit : char_of (digit0 a) ≡ letter ((65536 * a + 256 * b + c) / 262144)
  first_digit = char_of-letter (digit0 a) _ (omega arith) (omega arith)

  second_digit : char_of (digit1 a b) ≡ letter ((65536 * a + 256 * b + c) / 4096 % 64)
  second_digit =
      char_of-letter (digit1 a b) _ (omega (arith, bit_and_mask 2 a))
        (omega (arith, bit_and_mask 2 a))

  third_digit : char_of (digit2 b c) ≡ letter ((65536 * a + 256 * b + c) / 64 % 64)
  third_digit =
      char_of-letter (digit2 b c) _ (omega (arith, bit_and_mask 4 b))
        (omega (arith, bit_and_mask 4 b))

  fourth_digit : char_of (digit3 c) ≡ letter ((65536 * a + 256 * b + c) % 64)
  fourth_digit =
      char_of-letter (digit3 c) _ (omega (arith, bit_and_mask 6 c))
        (omega (arith, bit_and_mask 6 c))

  group3-letters : group3 a b c ≡ letters 4 (65536 * a + 256 * b + c)
  unfolding group3
  group3-letters = rw (first_digit, second_digit, third_digit, fourth_digit) refl

groups-encoding : (src : List ℕ) → All IsByte src → groups src ≡ encoding src
unfolding groups encoding group1 group2
groups-encoding [] h = refl
groups-encoding (a ∷ []) h =
    let n : 65536 * a + 256 * 0 + 0 ≡ 65536 * a = omega arith in
    rw
      (
        ← n,
        first_digit a 0 0 h.0 (omega arith) (omega arith),
        second_digit a 0 0 h.0 (omega arith) (omega arith),
      )
      refl
groups-encoding (a ∷ b ∷ []) h =
    let n : 65536 * a + 256 * b + 0 ≡ 65536 * a + 256 * b = omega arith in
    rw
      (
        ← n,
        first_digit a b 0 h.0 h.1.0 (omega arith),
        second_digit a b 0 h.0 h.1.0 (omega arith),
        third_digit a b 0 h.0 h.1.0 (omega arith),
      )
      refl
groups-encoding (a ∷ b ∷ c ∷ src) h =
    rw (group3-letters a b c h.0 h.1.0 h.1.1.0, groups-encoding src h.1.1.1) refl

-- On bytes, f_b64_ntop succeeds exactly where the target has room for the base 64 encoding and its
-- terminator; then it writes these and returns the length of the encoding. On no path does it write past
-- the target.
pub f_b64_ntop-encoding :
    (src : List ℕ) (targsize : ℕ)
    → All IsByte src
    → (length (encoding src) < targsize
        → f_b64_ntop src targsize ≡ (some (length (encoding src)), encoding src ++ (0 ∷ [])))
      × (targsize ≤ length (encoding src) → (f_b64_ntop src targsize).0 ≡ none)
      × (length (f_b64_ntop src targsize).1 ≤ targsize)
f_b64_ntop-encoding src targsize h = rw (← groups-encoding src h) (f_b64_ntop-groups src targsize)
