-- ===== src/Nanopb/MessageDecoder/Required/Complete.antt =====
-- AppChat_Again/Pods/nanopb/pb_decode.c: when the check of the required fields passes.
use app_chat_again.Prelude.{
  Bool, ==_iff, le→ltb, zero, lt→ltb, subst, ltb, ap, inr, inl, sym, ◌==◌, refl, ◌%◌, ◌∙◌, ◌/◌, ◌⊎◌,
  [], true, Bool-cases, ◌-◌, false, if◌then◌else◌, ◌+◌, arith, ◌≡◌, ◌^◌, ◌*◌, ◌<◌, ◌≤◌, List, ℕ,
}
use native.Mathlib.Decide.{dec_lt}
use native.Mathlib.Nat.{pow-le-pow_right}
use app_chat_again.Prelude.Bits.{holds_below, holds_below-at}
use app_chat_again.Prelude.Bits.Positions.{bit, bit_or-bound, bit-full, same_bits}
use app_chat_again.Nanopb.MessageDecoder.Required.{
  suc, ◌∷◌, ℕ, List, all_seen, whole_words_seen, allbits,
}
use app_chat_again.Nanopb.MessageDecoder.Required.Seen.{
  at-all_among, all_among-at, all_among, is_among, seen_after, Below, word, seen-bit, seen-length,
  set_seen-word, none_seen-word,
}

abbrev digit : Bool → ℕ
digit b = if b then 1 else 0

power_bound : (r : ℕ) → r ≤ 32 → 2 ^ r ≤ 2 ^ 32
power_bound r h = pow-le-pow_right (omega arith) h

power_bound_31 : (r : ℕ) → r ≤ 31 → 2 ^ r ≤ 2 ^ 31
power_bound_31 r h = pow-le-pow_right (omega arith) h

seen-bound : (indexes : List ℕ) (k : ℕ) → Below 64 indexes → word k (seen_after indexes) < 2 ^ 32
seen-bound [] k below = rw (none_seen-word k) (omega arith)
seen-bound (j ∷ indexes) k below =
    let seen = seen_after indexes in
    rw (set_seen-word k j seen (seen-length indexes) below.0) (elim (Bool-cases (k == j / 32)) [
      | inl same ↦ rw same (
          bit_or-bound 32 (word (j / 32) seen) (2 ^ (j % 32)) (seen-bound indexes (j / 32) below.1)
            (omega (arith, power_bound_31 (j % 32) (omega arith))))
      | inr other ↦ rw other (seen-bound indexes k below.1)
    ])

not_among :
    (count i : ℕ) (indexes : List ℕ) → Below count indexes → count ≤ i → is_among i indexes ≡ false
not_among count i [] below h = refl
not_among count i (j ∷ indexes) below h =
    ground (arith, not_among count i indexes below.1 h, below.0)

widen : (count : ℕ) (indexes : List ℕ) → count ≤ 64 → Below count indexes → Below 64 indexes
widen count [] h below = tt
widen count (j ∷ indexes) h below = (omega (arith, below.0), widen count indexes h below.1)

module _ (indexes : List ℕ) (count : ℕ) (small : count ≤ 64) (below : Below count indexes) where
  -- The bit at `k` of word `j`.
  bit_at :
      (j k : ℕ)
      → j < 2
      → k < 32
      → bit k (word j (seen_after indexes)) ≡ (if is_among (32 * j + k) indexes then 1 else 0)
  bit_at j k hj hk =
      let position : (32 * j + k) / 32 ≡ j = omega arith in
      let rest : (32 * j + k) % 32 ≡ k = omega arith in
      subst
        (λ p.
          bit k (word p (seen_after indexes)) ≡ (if is_among (32 * j + k) indexes then 1 else 0))
        position
        (subst
          (λ q.
            bit q (word ((32 * j + k) / 32) (seen_after indexes))
            ≡ (if is_among (32 * j + k) indexes then 1 else 0))
          rest (seen-bit indexes (32 * j + k) (widen count indexes small below) (omega arith)))

  word_marked :
      (j r k : ℕ)
      → j < 2
      → r ≤ 32
      → k < r
      → word j (seen_after indexes) ≡ 2 ^ r - 1
      → is_among (32 * j + k) indexes ≡ true
  word_marked j r k hj hr hk e =
      let full : bit k (2 ^ r - 1) ≡ 1 = bit-full k r ∙ ground arith in
      let b = sym (bit_at j k hj (omega arith)) ∙ ap (bit k) e ∙ full in ground (arith, b)

  same_bit :
      (j r k : ℕ)
      → (count ≤ 32 * j + r) ⊎ (r ≡ 32)
      → ((k' : ℕ) → k' < r → is_among (32 * j + k') indexes ≡ true)
      → k < 32
      → digit (is_among (32 * j + k) indexes) ≡ digit (ltb k r)
  same_bit j r k ends all hk = elim (dec_lt k r) [
    | yes inside ↦ rw (all k inside, lt→ltb k r inside)
    | no outside ↦
        let over : count ≤ 32 * j + k = ground arith in
        rw (not_among count (32 * j + k) indexes below over, le→ltb k r (omega arith))
  ]

  word_full :
      (j r : ℕ)
      → j < 2
      → r ≤ 32
      → (count ≤ 32 * j + r) ⊎ (r ≡ 32)
      → ((k : ℕ) → k < r → is_among (32 * j + k) indexes ≡ true)
      → word j (seen_after indexes) ≡ 2 ^ r - 1
  word_full j r hj hr ends all =
      same_bits 32 (word j (seen_after indexes)) (2 ^ r - 1)
        (seen-bound indexes j (widen count indexes small below)) (omega (arith, power_bound r hr))
        λ k hk. bit_at j k hj hk ∙ same_bit j r k ends all hk ∙ sym (bit-full k r)

  whole_words-word :
      (m j : ℕ)
      → whole_words_seen m (seen_after indexes) ≡ true
      → j < m
      → word j (seen_after indexes) ≡ allbits
  unfolding whole_words_seen
  whole_words-word zero j e h = absurd (omega arith)
  whole_words-word (suc m) j e h = elim (dec_lt j m) [
    | yes inside ↦ whole_words-word m j (ground arith) inside
    | no last ↦
        let same : m ≡ j = omega arith in
        subst (λ i. word i (seen_after indexes) ≡ allbits) same (ground arith)
  ]

  word-whole_words :
      (m : ℕ)
      → ((j : ℕ) → j < m → word j (seen_after indexes) ≡ allbits)
      → whole_words_seen m (seen_after indexes) ≡ true
  unfolding whole_words_seen
  word-whole_words zero all = refl
  word-whole_words (suc m) all =
      let before = word-whole_words m (λ j h. all j (omega arith)) in
      let here = all m (omega arith) in ground arith

remaining_bits_table : holds_below (λ r. (2 ^ 32 - 1) / 2 ^ (32 - r) == 2 ^ r - 1) 33 ≡ true
unfolding holds_below
remaining_bits_table = refl

remaining_bits : (r : ℕ) → r < 33 → allbits / 2 ^ (32 - r) ≡ 2 ^ r - 1
remaining_bits r h =
    (==_iff _ _).0
      (holds_below-at (λ r. (2 ^ 32 - 1) / 2 ^ (32 - r) == 2 ^ r - 1) 33 r h remaining_bits_table)

module _ (indexes : List ℕ) (count : ℕ) (small : count ≤ 64) (below : Below count indexes) where
  -- The check passes where every index was marked.
  all_marked-all_seen :
      ((i : ℕ) → i < count → is_among i indexes ≡ true) → all_seen count (seen_after indexes) ≡ true
  unfolding all_seen
  all_marked-all_seen all =
      let whole = word-whole_words indexes count small below (count / 32) (λ j h.
        word_full indexes count small below j 32 (omega arith) (omega arith) (inr refl)
          (λ k hk. all (32 * j + k) (omega arith))) in
      rw whole (elim (Bool-cases (count % 32 == 0)) [
        | inl even ↦ rw even
        | inr other ↦
            let odd : 0 < count % 32 = ground arith in
            rw other (
              (==_iff _ _).1 (
                word_full indexes count small below (count / 32) (count % 32) (omega arith)
                  (omega arith) (inl (omega arith))
                  (λ k hk. all (32 * (count / 32) + k) (omega arith))
                ∙ sym (remaining_bits (count % 32) (omega arith))))
      ])

  at_index :
      (i j r : ℕ)
      → i / 32 ≡ j
      → j < 2
      → r ≤ 32
      → i % 32 < r
      → word j (seen_after indexes) ≡ 2 ^ r - 1
      → is_among i indexes ≡ true
  at_index i j r e hj hr inside full =
      let position : 32 * j + i % 32 ≡ i = omega arith in
      subst (λ p. is_among p indexes ≡ true) position
        (word_marked indexes count small below j r (i % 32) hj hr inside full)

  all_seen-all_marked :
      all_seen count (seen_after indexes) ≡ true → (i : ℕ) → i < count → is_among i indexes ≡ true
  unfolding all_seen
  all_seen-all_marked e i h = elim (dec_lt (i / 32) (count / 32)) [
    | yes whole ↦
        at_index i (i / 32) 32 refl (omega arith) (omega arith) (omega arith)
          (whole_words-word indexes count small below (count / 32) (i / 32) (ground arith) whole)
    | no last ↦
        let even : (count % 32 == 0) ≡ false = ground arith in
        let bits : word (count / 32) (seen_after indexes) ≡ allbits / 2 ^ (32 - count % 32) =
          ground arith in
        at_index i (count / 32) (count % 32) (omega arith) (omega arith) (omega arith) (omega arith)
          (bits ∙ remaining_bits (count % 32) (omega arith))
  ]

-- The words, against a search in the list for each index.
pub all_seen-all_among :
    (indexes : List ℕ) (count : ℕ)
    → count ≤ 64
    → Below count indexes
    → all_seen count (seen_after indexes) ≡ all_among count indexes
all_seen-all_among indexes count small below = elim (Bool-cases (all_among count indexes)) [
  | inl all ↦
      all_marked-all_seen indexes count small below (λ i. all_among-at indexes count i all)
      ∙ sym all
  | inr some_missing ↦ elim (Bool-cases (all_seen count (seen_after indexes))) [
    | inl passed ↦
        let all =
          at-all_among indexes count (all_seen-all_marked indexes count small below passed) in
        absurd (ground arith)
    | inr refused ↦ refused ∙ sym some_missing
  ]
]
