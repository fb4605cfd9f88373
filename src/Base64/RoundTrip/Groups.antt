-- ===== src/Base64/RoundTrip/Groups.antt =====
-- fbase64.c: how f_b64_pton reads the groups of an encoding, byte by byte.
use app_chat_again.Prelude.{
  get_or-append, refl, sym, ap₂, get_or, ap, ◌∙◌, arith, append_assoc, some, length-append, ◌+◌,
  ◌≡◌, ◌<◌, length, ◌*◌, [], bit_and, List, ℕ, ◌++◌, ◌∷◌,
}
use app_chat_again.Base64.{
  State, digit0, digit1, digit2, digit3, group3, pton_from, char_of, none_read, one_read, two_read,
  three_read, store_digit, u8,
}
use app_chat_again.Base64.RoundTrip.{
  digit_step, store_first, store_second, store_third, store_last, first_byte, second_byte,
  third_byte, digit0_small, digit1_small, digit2_small, digit3_small,
}

-- The byte that is being put together when two digits of a group, or three, have been read.
abbrev pub half1 : ℕ → ℕ → ℕ
half1 a b = u8 (bit_and (digit1 a b) 0x0f * 16)

abbrev pub half2 : ℕ → ℕ → ℕ
half2 b c = u8 (bit_and (digit2 b c) 0x03 * 64)

-- Storing a digit behind further bytes.
store_behind :
    (state : State) (targsize : ℕ) (pre front : List ℕ) (i d : ℕ) (rest rest' : List ℕ)
    → length pre + length front ≡ i
    → store_digit state d targsize (length (pre ++ front)) ((pre ++ front) ++ rest)
      ≡ some ((pre ++ front) ++ rest')
    → store_digit state d targsize i (pre ++ (front ++ rest)) ≡ some (pre ++ (front ++ rest'))
store_behind state targsize pre front i d rest rest' p e =
    ap₂ (λ i t. store_digit state d targsize i t) (omega (arith, length-append pre front))
      (sym (append_assoc pre front rest))
    ∙ e
    ∙ ap some (append_assoc pre front rest')

pub get_or-behind :
    (pre front : List ℕ) (i x : ℕ) (rest : List ℕ)
    → length pre + length front ≡ i
    → get_or (pre ++ (front ++ (x ∷ rest))) i 0 ≡ x
get_or-behind pre front i x rest p =
    ap₂ (λ i t. get_or t i 0) (omega (arith, length-append pre front))
      (sym (append_assoc pre front (x ∷ rest)))
    ∙ get_or-append (pre ++ front) x 0 rest

module _ (targsize : ℕ) (pre src : List ℕ) (a b c x y : ℕ) (post : List ℕ) (ha : a < 256)
    (hb : b < 256) (hc : c < 256) where
  pub read_two :
      length pre + 1 < targsize
      → pton_from targsize none_read
          (length pre)
          (some (pre ++ (x ∷ y ∷ post)))
          (char_of (digit0 a) ∷ char_of (digit1 a b) ∷ src)
        ≡ pton_from targsize two_read (length pre + 1) (some (pre ++ (a ∷ half1 a b ∷ post))) src
  read_two h =
      digit_step targsize none_read (length pre) (digit0 a) _ _ _ (digit0_small a b c ha hb hc)
        (store_first targsize pre (y ∷ post) x y (digit0 a) (omega arith))
      ∙ digit_step targsize one_read (length pre) (digit1 a b) _ _ _ (digit1_small a b c ha hb hc) (
          store_second targsize pre post _ y (digit1 a b) h
          ∙ ap (λ t. some (pre ++ (t ∷ half1 a b ∷ post))) (first_byte a b c ha hb hc))

module _ (targsize : ℕ) (pre src : List ℕ) (a b c x y z : ℕ) (post : List ℕ) (ha : a < 256)
    (hb : b < 256) (hc : c < 256) where
  pub read_three :
      length pre + 2 < targsize
      → pton_from targsize none_read
          (length pre)
          (some (pre ++ (x ∷ y ∷ z ∷ post)))
          (char_of (digit0 a) ∷ char_of (digit1 a b) ∷ char_of (digit2 b c) ∷ src)
        ≡ pton_from targsize three_read
            (length pre + 2)
            (some (pre ++ (a ∷ b ∷ half2 b c ∷ post)))
            src
  read_three h =
      read_two targsize pre (char_of (digit2 b c) ∷ src) a b c x y (z ∷ post) ha hb hc (omega arith)
      ∙ digit_step targsize two_read (length pre + 1) (digit2 b c) _ _ _
          (digit2_small a b c ha hb hc)
          (store_behind two_read targsize pre (a ∷ []) (length pre + 1) (digit2 b c) _
            (b ∷ half2 b c ∷ post) refl
            (store_third targsize (pre ++ (a ∷ [])) post (half1 a b) z (digit2 b c)
                (omega (arith, length-append pre (a ∷ [])))
              ∙ ap (λ t. some ((pre ++ (a ∷ [])) ++ (t ∷ half2 b c ∷ post)))
                  (second_byte a b c ha hb hc)))
      ∙ ap (λ i. pton_from targsize three_read i (some (pre ++ (a ∷ b ∷ half2 b c ∷ post))) src)
          (omega arith)

module _ (targsize : ℕ) (pre src : List ℕ) (a b c x y z : ℕ) (post : List ℕ) (ha : a < 256)
    (hb : b < 256) (hc : c < 256) where
  -- A whole group.
  pub read_group :
      length pre + 2 < targsize
      → pton_from targsize none_read
          (length pre)
          (some (pre ++ (x ∷ y ∷ z ∷ post)))
          (group3 a b c ++ src)
        ≡ pton_from targsize none_read (length pre + 3) (some (pre ++ (a ∷ b ∷ c ∷ post))) src
  unfolding group3
  read_group h =
      read_three targsize pre (char_of (digit3 c) ∷ src) a b c x y z post ha hb hc h
      ∙ digit_step targsize three_read (length pre + 2) (digit3 c) _ _ _
          (digit3_small a b c ha hb hc)
          (store_behind three_read targsize pre (a ∷ b ∷ []) (length pre + 2) (digit3 c) _
            (c ∷ post) refl
            (store_last targsize (pre ++ (a ∷ b ∷ [])) post (half2 b c) z (digit3 c)
                (omega (arith, length-append pre (a ∷ b ∷ [])))
              ∙ ap (λ t. some ((pre ++ (a ∷ b ∷ [])) ++ (t ∷ post))) (third_byte a b c ha hb hc)))
      ∙ ap (λ i. pton_from targsize none_read i (some (pre ++ (a ∷ b ∷ c ∷ post))) src)
          (omega arith)
