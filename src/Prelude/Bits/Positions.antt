-- ===== src/Prelude/Bits/Positions.antt =====
-- The bits of a word by their positions.
use Prim.Native.Nat.{ℕ, zero, suc, ◌-◌, ◌/◌, ◌%◌, ◌^◌, ◌<◌, bit_or, max}
use mathlib.Core.Path.{◌≡◌, refl, sym, ap, ◌∙◌}
use native.Mathlib.Omega.{arith}
use native.Mathlib.Nat.{pow-suc, one-le-pow}
use app_chat_again.Prelude.Tests.{ltb, if◌then◌else◌, ◌==◌}
use app_chat_again.Prelude.Bits.Digits.{bit_or_digit}

unfoldable pub bit : ℕ → ℕ → ℕ
bit zero w = w % 2
bit (suc k) w = bit k (w / 2)

pub zero_bits : (k : ℕ) → bit k 0 ≡ 0
unfolding bit
zero_bits zero = refl
zero_bits (suc k) = zero_bits k

below_one : (a : ℕ) → a < 2 ^ 0 → a ≡ 0
below_one a h = omega arith

half_or : (a b : ℕ) → bit_or a b / 2 ≡ bit_or (a / 2) (b / 2)
half_or a b = ground (arith, bit_or_digit a b)

pub bit_or-bit : (k a b : ℕ) → bit k (bit_or a b) ≡ max (bit k a) (bit k b)
unfolding bit
bit_or-bit zero a b = ground (arith, bit_or_digit a b)
bit_or-bit (suc k) a b = ap (bit k) (half_or a b) ∙ bit_or-bit k (a / 2) (b / 2)

half_power : (j : ℕ) → 2 ^ suc j / 2 ≡ 2 ^ j
half_power j = omega (arith, pow-suc 2 j)

pub bit-power : (k j : ℕ) → bit k (2 ^ j) ≡ (if k == j then 1 else 0)
unfolding bit
bit-power zero zero = refl
bit-power zero (suc j) = ground (arith, pow-suc 2 j)
bit-power (suc k) zero = zero_bits k ∙ ground arith
bit-power (suc k) (suc j) = ap (bit k) (half_power j) ∙ bit-power k j ∙ ground arith

half_full : (r : ℕ) → (2 ^ suc r - 1) / 2 ≡ 2 ^ r - 1
half_full r = omega (arith, pow-suc 2 r)

-- All bits below `r`.
pub bit-full : (k r : ℕ) → bit k (2 ^ r - 1) ≡ (if ltb k r then 1 else 0)
unfolding bit
bit-full k zero = zero_bits k ∙ ground arith
bit-full zero (suc r) =
    let odd : (2 ^ suc r - 1) % 2 ≡ 1 = omega (arith, pow-suc 2 r, one-le-pow r 2 (omega arith)) in
    odd ∙ ground arith
bit-full (suc k) (suc r) = ap (bit k) (half_full r) ∙ bit-full k r ∙ ground arith

pub bit_or-bound : (n a b : ℕ) → a < 2 ^ n → b < 2 ^ n → bit_or a b < 2 ^ n
bit_or-bound zero a b h k = rw (below_one a h, below_one b k) (omega arith)
bit_or-bound (suc n) a b h k =
    let below =
      bit_or-bound n (a / 2) (b / 2) (omega (arith, pow-suc 2 n)) (omega (arith, pow-suc 2 n)) in
    ground (arith, bit_or_digit a b, pow-suc 2 n, below)

pub same_bits : (n a b : ℕ) → a < 2 ^ n → b < 2 ^ n → ((k : ℕ) → k < n → bit k a ≡ bit k b) → a ≡ b
unfolding bit
same_bits zero a b h h' same = below_one a h ∙ sym (below_one b h')
same_bits (suc n) a b h h' same =
    let low : a % 2 ≡ b % 2 = same zero (omega arith) in
    let high : a / 2 ≡ b / 2 =
      same_bits n (a / 2) (b / 2) (omega (arith, pow-suc 2 n)) (omega (arith, pow-suc 2 n))
        (λ k below. same (suc k) (omega arith)) in
    omega (arith, low, high)
