-- ===== src/Nanopb/Varint.antt =====
-- The variable-length integers of the wire format, as AppChat_Again/Pods/nanopb reads and writes
-- them: an independent description by digits to the base 128, lowest first.
use app_chat_again.Prelude.{
  ℕ, zero, suc, ◌+◌, ◌*◌, ◌/◌, ◌%◌, ◌^◌, ◌≤◌, ◌<◌, ◌≡◌, arith, List, [], ◌∷◌, ltb, if◌then◌else◌,
  length,
}

-- A byte behind which another one follows.
abbrev pub IsContinuation : ℕ → Type 0
IsContinuation b = (128 ≤ b) × (b < 256)

-- Every byte but the last has its top bit set.
abbrev pub IsVarint : List ℕ → Type 0
IsVarint [] = ⊥
IsVarint (b ∷ []) = b < 128
IsVarint (b ∷ c ∷ bs) = (128 ≤ b) × (b < 256) × IsVarint (c ∷ bs)

-- The number that the bytes stand for, at every width.
abbrev pub value : List ℕ → ℕ
value [] = 0
value (b ∷ bs) = b % 128 + 128 * value bs

-- The shortest varint of `v`, for `v` below 128 ^ (k + 1).
unfoldable pub varint : ℕ → ℕ → List ℕ
varint zero v = v ∷ []
varint (suc k) v =
    let rest = varint k (v / 128) in if ltb v 128 then v ∷ [] else ((v % 128 + 128) ∷ rest)

pub length-varint : (k v : ℕ) → (1 ≤ length (varint k v)) × (length (varint k v) ≤ k + 1)
unfolding varint
length-varint zero v = omega arith
length-varint (suc k) v = ground (arith, length-varint k (v / 128))

pub value-varint : (k v : ℕ) → v < 128 ^ suc k → value (varint k v) ≡ v
unfolding varint
value-varint zero v h = omega arith
value-varint (suc k) v h = ground (arith, value-varint k (v / 128) (omega arith))

cons-IsVarint : (b : ℕ) (bs : List ℕ) → 128 ≤ b → b < 256 → IsVarint bs → IsVarint (b ∷ bs)
cons-IsVarint b [] h k q = elim q [ ]
cons-IsVarint b (c ∷ bs) h k q = (h, k, q)

pub varint-IsVarint : (k v : ℕ) → v < 128 ^ suc k → IsVarint (varint k v)
unfolding varint
varint-IsVarint zero v h = omega arith
varint-IsVarint (suc k) v h = ground (
  arith,
  varint-IsVarint k (v / 128) (omega arith),
  cons-IsVarint (v % 128 + 128) (varint k (v / 128)) (omega arith) (omega arith),
)

-- A smaller number takes no more bytes than its own bound says.
pub length-varint_lt : (k m v : ℕ) → v < 128 ^ suc k → length (varint m v) ≤ suc k
unfolding varint
length-varint_lt k zero v h = omega arith
length-varint_lt zero (suc m) v h = ground arith
length-varint_lt (suc k) (suc m) v h = ground (arith, length-varint_lt k m (v / 128) (omega arith))
