-- ===== src/Nanopb/Encode/Varint.antt =====
-- AppChat_Again/Pods/nanopb/pb_encode.c: the bytes of pb_encode_varint.
use app_chat_again.Prelude.{
  ℕ, zero, suc, ◌+◌, ◌-◌, ◌/◌, ◌%◌, ◌^◌, ◌≤◌, ◌<◌, ◌≡◌, refl, ap, ◌∙◌, arith, List, [], ◌∷◌, length,
  bit_and, bit_or, Bool-cases, inl, inr, leb, ltb,
}
use app_chat_again.Prelude.Words.{u8, IsU64}
use app_chat_again.Prelude.Bits.{low_seven, set_top_bit}
use app_chat_again.Nanopb.Varint.{varint}
use app_chat_again.Nanopb.Encode.{varint_groups, clear_last, varint_buffer}

-- The bytes that the loop stores: all have the top bit set.
group : (v : ℕ) → u8 (bit_or (bit_and v 0x7F) 0x80) ≡ v % 128 + 128
group v = rw (low_seven v, set_top_bit (v % 128) (omega arith)) (omega arith)

-- The loop ends after `k` rounds on a value of `k` groups: more rounds change nothing.
groups_enough :
    (k more rounds v : ℕ)
    → v < 128 ^ k
    → rounds ≡ k + more
    → varint_groups rounds v ≡ varint_groups k v
unfolding varint_groups
groups_enough zero more zero v h e = refl
groups_enough zero more (suc rounds) v h e = ground arith
groups_enough (suc k) more zero v h e = absurd (omega arith)
groups_enough (suc k) more (suc rounds) v h e =
    ground (arith, groups_enough k more rounds (v / 128) (omega arith) (omega arith))

groups_bound : (k rounds v : ℕ) → v < 128 ^ k → length (varint_groups rounds v) ≤ k
unfolding varint_groups
groups_bound k zero v h = omega arith
groups_bound zero (suc rounds) v h = ground arith
groups_bound (suc k) (suc rounds) v h =
    ground (arith, groups_bound k rounds (v / 128) (omega arith))

-- `while (value)` ends within ten rounds on every uint64_t, so the buffer of ten bytes is not
-- overrun however long the loop may run.
pub varint_groups_bound :
    (rounds v : ℕ)
    → IsU64 v
    → 10 ≤ rounds
    → (varint_groups rounds v ≡ varint_groups 10 v) × (length (varint_groups rounds v) ≤ 10)
varint_groups_bound rounds v h k = (
  groups_enough 10 (rounds - 10) rounds v (omega arith) (omega arith),
  groups_bound 10 rounds v (omega arith),
)

clear_last-cons : (b c : ℕ) (bs : List ℕ) → clear_last (b ∷ c ∷ bs) ≡ b ∷ clear_last (c ∷ bs)
unfolding clear_last
clear_last-cons b c bs =
    let e : suc (suc (length bs)) - 1 ≡ suc (suc (length bs) - 1) = omega arith in rw e

groups_zero : (k : ℕ) → varint_groups k 0 ≡ []
unfolding varint_groups
groups_zero zero = refl
groups_zero (suc k) = refl

groups_pos :
    (k v : ℕ) → 0 < v → varint_groups (suc k) v ≡ (v % 128 + 128) ∷ varint_groups k (v / 128)
unfolding varint_groups
groups_pos k v h = ground (arith, group v)

clear_last_one : (v : ℕ) → v < 128 → clear_last ((v % 128 + 128) ∷ []) ≡ v ∷ []
unfolding clear_last
clear_last_one v h = rw (low_seven (v % 128 + 128)) (ap (λ b. b ∷ []) (omega arith))

-- What the loop leaves of a value of one group.
clear_groups_one : (k v : ℕ) → 0 < v → v < 128 → clear_last (varint_groups (suc k) v) ≡ v ∷ []
clear_groups_one k v h l =
    let over : v / 128 ≡ 0 = omega arith in
    rw (groups_pos k v h, over, groups_zero k) (clear_last_one v l)

-- One round on a value of more than one group.
clear_groups_more :
    (k v : ℕ)
    → 128 ≤ v
    → clear_last (varint_groups (suc (suc k)) v)
      ≡ (v % 128 + 128) ∷ clear_last (varint_groups (suc k) (v / 128))
clear_groups_more k v h =
    rw (groups_pos (suc k) v (omega arith), groups_pos k (v / 128) (omega arith))
      (clear_last-cons _ _ _)

clear_groups :
    (k v : ℕ) → 0 < v → v < 128 ^ suc k → clear_last (varint_groups (suc k) v) ≡ varint k v
unfolding varint
clear_groups zero v h l = clear_groups_one 0 v h (omega arith)
clear_groups (suc k) v h l = elim (Bool-cases (ltb v 128)) [
  | inl one ↦ rw one (clear_groups_one (suc k) v h (ground arith))
  | inr more ↦ rw more (
      clear_groups_more k v (ground arith)
      ∙ ap (λ bs. (v % 128 + 128) ∷ bs) (clear_groups k (v / 128) (ground arith) (omega arith)))
]

-- For every uint64_t, the buffer of pb_encode_varint holds the shortest varint of the number.
pub varint_buffer-varint : (v : ℕ) → IsU64 v → varint_buffer v ≡ varint 9 v
unfolding varint_buffer
varint_buffer-varint v h = elim (Bool-cases (leb v 0x7F)) [
  | inl small ↦ rw small (unfold varint in ground arith)
  | inr large ↦ rw large (clear_groups 9 v (ground arith) (omega arith))
]
