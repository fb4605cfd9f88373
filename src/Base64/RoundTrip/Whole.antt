-- ===== src/Base64/RoundTrip/Whole.antt =====
-- fbase64.c: f_b64_pton on whole encodings.
use app_chat_again.Prelude.Bits.{bit_and_mask}
use app_chat_again.Prelude.{
  ◌/◌, ◌*◌, append_assoc, sym, ap₂, length-append, ap, refl, ◌∙◌, [], ◌∷◌, ◌≤◌, ◌++◌, some, ◌+◌,
  length, IsByte, get_or, All, arith, ◌<◌, List, ◌≡◌, ℕ,
}
use app_chat_again.Base64.{
  f_b64_ntop, digit2, digit1, ◌∷◌, pad64, two_read, three_read, none_read, group2, pton_from,
  group1, ℕ, f_b64_pton, after_pad, second_pad, at_pad, all_space, is_space,
}
use app_chat_again.Base64.RoundTrip.Groups.{
  half1, half2, read_two, read_three, read_group, get_or-behind,
}
use app_chat_again.Base64.Encode.{groups, f_b64_ntop-groups, length-groups}
use app_chat_again.Base64.RoundTrip.{bit_and_mask, digit1-parts, digit2-parts}

half1-zero : (a : ℕ) → half1 a 0 ≡ 0
half1-zero a = omega (arith, digit1-parts a 0, bit_and_mask 4 (digit1 a 0))

half2-zero : (b : ℕ) → half2 b 0 ≡ 0
half2-zero b = omega (arith, digit2-parts b 0, bit_and_mask 2 (digit2 b 0))

module _ (targsize : ℕ) where
  -- Behind the padding of a group of two bytes, and of one.
  padded_two :
      (i : ℕ) (target : List ℕ)
      → get_or target i 0 ≡ 0
      → pton_from targsize three_read i (some target) (pad64 ∷ []) ≡ (some i, some target)
  unfolding pton_from at_pad after_pad all_space is_space
  padded_two i target e = rw e refl

  padded_one :
      (i : ℕ) (target : List ℕ)
      → get_or target i 0 ≡ 0
      → pton_from targsize two_read i (some target) (pad64 ∷ pad64 ∷ []) ≡ (some i, some target)
  unfolding pton_from at_pad second_pad after_pad all_space is_space
  padded_one i target e = rw e refl

  -- What is read back behind `pre`: the bytes, and cells of the target that are left over.
  ReadsBack : List ℕ → List ℕ → List ℕ → Type 0
  ReadsBack src pre cells =
      (rest : List ℕ) × (pton_from targsize none_read (length pre) (some (pre ++ cells))
          (groups src)
        ≡ (some (length pre + length src), some (pre ++ (src ++ rest))))
      × (length src + length rest ≡ length cells)

  read_one :
      (a : ℕ) (pre cells : List ℕ)
      → a < 256
      → length pre + 1 < targsize
      → targsize ≤ length pre + length cells
      → ReadsBack (a ∷ []) pre cells
  unfolding ReadsBack groups group1
  read_one a pre [] ha h room = absurd (omega arith)
  read_one a pre (x ∷ []) ha h room = absurd (omega arith)
  read_one a pre (x ∷ y ∷ post) ha h room = (
    half1 a 0 ∷ post,
    read_two targsize pre (pad64 ∷ pad64 ∷ []) a 0 0 x y post ha (omega arith) (omega arith) h
        ∙ padded_one (length pre + 1) (pre ++ (a ∷ half1 a 0 ∷ post))
            (get_or-behind pre (a ∷ []) (length pre + 1) (half1 a 0) post refl ∙ half1-zero a),
    omega arith,
  )

  read_pair :
      (a b : ℕ) (pre cells : List ℕ)
      → a < 256
      → b < 256
      → length pre + 2 < targsize
      → targsize ≤ length pre + length cells
      → ReadsBack (a ∷ b ∷ []) pre cells
  unfolding ReadsBack groups group2
  read_pair a b pre [] ha hb h room = absurd (omega arith)
  read_pair a b pre (x ∷ []) ha hb h room = absurd (omega arith)
  read_pair a b pre (x ∷ y ∷ []) ha hb h room = absurd (omega arith)
  read_pair a b pre (x ∷ y ∷ z ∷ post) ha hb h room = (
    half2 b 0 ∷ post,
    read_three targsize pre (pad64 ∷ []) a b 0 x y z post ha hb (omega arith) h
        ∙ padded_two (length pre + 2) (pre ++ (a ∷ b ∷ half2 b 0 ∷ post))
            (get_or-behind pre (a ∷ b ∷ []) (length pre + 2) (half2 b 0) post refl ∙ half2-zero b),
    omega arith,
  )

  read_back :
      (src pre cells : List ℕ)
      → All IsByte src
      → length pre + length src < targsize
      → targsize ≤ length pre + length cells
      → ReadsBack src pre cells
  unfolding ReadsBack groups pton_from
  read_back [] pre cells hs h room =
      (cells, ap (λ n. (some n, some (pre ++ cells))) (omega arith), omega arith)
  read_back (a ∷ []) pre cells hs h room = read_one a pre cells hs.0 h room
  read_back (a ∷ b ∷ []) pre cells hs h room = read_pair a b pre cells hs.0 hs.1.0 h room
  read_back (a ∷ b ∷ c ∷ src) pre (x ∷ y ∷ z ∷ post) hs h room =
      let (rest, e, n) =
        read_back src (pre ++ bytes) post hs.1.1.1 (omega (arith, longer))
          (omega (arith, longer)) in
      (
        rest,
        read_group targsize pre (groups src) a b c x y z post hs.0 hs.1.0 hs.1.1.0 (omega arith)
            ∙ ap₂ (λ i t. pton_from targsize none_read i (some t) (groups src)) (sym longer)
                (sym (append_assoc pre bytes post))
            ∙ e
            ∙ ap₂ (λ i t. (some i, some t)) (omega (arith, longer))
                (append_assoc pre bytes (src ++ rest)),
        omega (arith, n),
      )
    where
      bytes : List ℕ
      bytes = a ∷ b ∷ c ∷ []

      longer : length (pre ++ bytes) ≡ length pre + 3
      longer = length-append pre bytes
  read_back (a ∷ b ∷ c ∷ src) pre [] hs h room = absurd (omega arith)
  read_back (a ∷ b ∷ c ∷ src) pre (x ∷ []) hs h room = absurd (omega arith)
  read_back (a ∷ b ∷ c ∷ src) pre (x ∷ y ∷ []) hs h room = absurd (omega arith)

-- The characters that f_b64_ntop writes into a buffer with room for them and the terminator are
-- read back by f_b64_pton into a target with room for the bytes and a cell more: it returns the
-- number of the bytes, the target starts with them, and its length stays.
pub base64_round_trip :
    (src target : List ℕ) (textsize targsize : ℕ)
    → All IsByte src
    → 4 * ((length src + 2) / 3) < textsize
    → length src < targsize
    → targsize ≤ length target
    → (text rest : List ℕ) × (f_b64_ntop src textsize ≡ (some (length text), text ++ (0 ∷ [])))
      × (f_b64_pton text (some target) targsize ≡ (some (length src), some (src ++ rest)))
      × (length src + length rest ≡ length target)
unfolding f_b64_pton ReadsBack
base64_round_trip src target textsize targsize hs fits h room =
    let (rest, e, n) = read_back targsize src [] target hs (omega arith) (omega arith) in
    (
      groups src,
      rest,
      (f_b64_ntop-groups src textsize).0 (omega (arith, length-groups src)),
      e ∙ ap (λ k. (some k, some (src ++ rest))) (omega arith),
      n,
    )
