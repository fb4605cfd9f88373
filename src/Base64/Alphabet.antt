-- ===== src/Base64/Alphabet.antt =====
-- fbase64.c: the table, its 64 digits, and the characters that are none of them.
use app_chat_again.Base64.{pad64, is_space, char_of, digit_of}
use app_chat_again.Prelude.{
  not, arith, ◌&&◌, none, true, refl, ◌==◌, refl, false, Bool, some, ◌<◌, true, ◌≡◌, ℕ,
}
use app_chat_again.Prelude.Bits.{holds_below, holds_below-at}

is_digit_char : ℕ → Bool
is_digit_char n =
    elim (digit_of (char_of n)) [ none ↦ false | some m ↦ m == n ]
    && (not (is_space (char_of n)) && not (char_of n == pad64))

alphabet_table : holds_below is_digit_char 64 ≡ true
unfolding holds_below is_digit_char digit_of char_of is_space
alphabet_table = refl

-- Every digit's character is found again in the table, and is neither space nor padding.
pub digit_of-char_of :
    (n : ℕ)
    → n < 64
    → (digit_of (char_of n) ≡ some n)
      × (is_space (char_of n) ≡ false)
      × ((char_of n == pad64) ≡ false)
unfolding is_digit_char
digit_of-char_of n h = let good = holds_below-at is_digit_char 64 n h alphabet_table in ground arith
