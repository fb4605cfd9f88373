-- ===== src/Nanopb/MessageDecoder/Required/Seen.antt =====
-- AppChat_Again/Pods/nanopb/pb_decode.c: the two words of required fields, against the set of the
-- indexes.
use native.Mathlib.Decide.{dec_lt}
use Prim.Native.Nat.{max}
use app_chat_again.Prelude.{
  subst, ◌&&◌, true, inr, inl, Bool-cases, ap₂, length-set, zero, ◌||◌, ap, arith, ◌/◌, ◌^◌, ◌==◌,
  refl, ◌%◌, set, if◌then◌else◌, false, [], bit_or, ◌∙◌, ◌≡◌, Bool, All, length, get_or, ◌<◌, List,
  ℕ,
}
use app_chat_again.Prelude.Bits.Positions.{zero_bits, bit, bit_or-bit, bit-power}
use app_chat_again.Nanopb.MessageDecoder.Required.{suc, ◌∷◌, List, ℕ, none_seen, set_seen}

abbrev pub is_among : ℕ → List ℕ → Bool
is_among i [] = false
is_among i (j ∷ indexes) = i == j || is_among i indexes

-- Each of the first `count` indexes is in the list.
unfoldable pub all_among : ℕ → List ℕ → Bool
all_among zero indexes = true
all_among (suc count) indexes = is_among count indexes && all_among count indexes

pub all_among-at :
    (indexes : List ℕ) (count i : ℕ)
    → all_among count indexes ≡ true
    → i < count
    → is_among i indexes ≡ true
unfolding all_among
all_among-at indexes zero i e h = absurd (omega arith)
all_among-at indexes (suc count) i e h = elim (dec_lt i count) [
  | yes before ↦ all_among-at indexes count i (ground arith) before
  | no last ↦
      let same : count ≡ i = omega arith in
      subst (λ k. is_among k indexes ≡ true) same (ground arith)
]

pub at-all_among :
    (indexes : List ℕ) (count : ℕ)
    → ((i : ℕ) → i < count → is_among i indexes ≡ true)
    → all_among count indexes ≡ true
unfolding all_among
at-all_among indexes zero all = refl
at-all_among indexes (suc count) all =
    let here = all count (omega arith) in
    let before = at-all_among indexes count (λ i h. all i (omega arith)) in ground arith

-- The words once these indexes were marked, the last of them first.
abbrev pub seen_after : List ℕ → List ℕ
seen_after [] = none_seen
seen_after (index ∷ indexes) = set_seen index (seen_after indexes)

get_or-set :
    (xs : List ℕ) (i j v : ℕ)
    → j < length xs
    → get_or (set xs j v) i 0 ≡ (if i == j then v else get_or xs i 0)
get_or-set [] i j v h = absurd (omega arith)
get_or-set (x ∷ xs) zero zero v h = refl
get_or-set (x ∷ xs) zero (suc j) v h = ground arith
get_or-set (x ∷ xs) (suc i) zero v h = ground arith
get_or-set (x ∷ xs) (suc i) (suc j) v h = get_or-set xs i j v (omega arith) ∙ ground arith

abbrev pub word : ℕ → List ℕ → ℕ
word j seen = get_or seen j 0

abbrev pub Below : ℕ → List ℕ → Type 0
Below count indexes = All (λ i. i < count) indexes

pub seen-length : (indexes : List ℕ) → length (seen_after indexes) ≡ 2
unfolding set_seen
seen-length [] = refl
seen-length (i ∷ indexes) = length-set (seen_after indexes) _ _ ∙ seen-length indexes

pub set_seen-word :
    (i j : ℕ) (seen : List ℕ)
    → length seen ≡ 2
    → j < 64
    → word i (set_seen j seen)
      ≡ (if i == j / 32 then bit_or (word (j / 32) seen) (2 ^ (j % 32)) else word i seen)
unfolding set_seen
set_seen-word i j seen two small = get_or-set seen i (j / 32) _ (omega arith)

set_bit : (k w j b : ℕ) → bit k w ≡ b → bit k (bit_or w (2 ^ j)) ≡ max b (if k == j then 1 else 0)
set_bit k w j b e = bit_or-bit k w (2 ^ j) ∙ ap₂ max e (bit-power k j)

pub none_seen-word : (k : ℕ) → word k none_seen ≡ 0
none_seen-word zero = refl
none_seen-word (suc zero) = refl
none_seen-word (suc (suc k)) = refl

pub seen-bit :
    (indexes : List ℕ) (i : ℕ)
    → Below 64 indexes
    → i < 64
    → bit (i % 32) (word (i / 32) (seen_after indexes)) ≡ (if is_among i indexes then 1 else 0)
seen-bit [] i below h = ap (bit (i % 32)) (none_seen-word (i / 32)) ∙ zero_bits (i % 32)
seen-bit (j ∷ indexes) i below h =
    let seen = seen_after indexes in
    let rest = seen-bit indexes i below.1 h in
    ap (bit (i % 32)) (set_seen-word (i / 32) j seen (seen-length indexes) below.0)
    ∙ elim (Bool-cases (i / 32 == j / 32)) [
      | inl same ↦
          let e : j / 32 ≡ i / 32 = ground arith in
          rw (same, e) (set_bit (i % 32) (word (i / 32) seen) (j % 32) _ rest ∙ ground arith)
      | inr other ↦ rw other (rest ∙ ground arith)
    ]
