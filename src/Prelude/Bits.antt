-- ===== src/Prelude/Bits.antt =====
-- `&` with a mask of low ones and `|` of disjoint fields, as arithmetic.
mod Digits
pub mod Positions
use Digits.{bit_or_digit, bit_and_digit}
use Prim.Native.Nat.{ℕ, zero, suc, ◌+◌, ◌-◌, ◌*◌, ◌/◌, ◌%◌, ◌^◌, ◌≤◌, ◌<◌, bit_and, bit_or}
use mathlib.Core.Path.{◌≡◌, refl, ap, ◌∙◌}
use mathlib.Core.Bool.{Bool, true, false, ◌&&◌}
use native.Mathlib.Nat.{
  pow-suc, one-le-pow, add-mul-mod_self_right, mod-eq_of_lt, mod-lt, div-add-mod',
}
use native.Mathlib.Omega.{arith}
use app_chat_again.Prelude.Tests.{◌==◌, ==_iff}

zero-bit_or : (k b : ℕ) → b ≤ k → bit_or 0 b ≡ b
zero-bit_or zero zero h = refl
zero-bit_or zero (suc b) h = absurd (omega arith)
zero-bit_or (suc k) zero h = refl
zero-bit_or (suc k) (suc b) h =
    omega (arith, bit_or_digit 0 (suc b), zero-bit_or k (suc b / 2) (omega arith))

bit_and-zero : (k a : ℕ) → a ≤ k → bit_and a 0 ≡ 0
bit_and-zero k zero h = refl
bit_and-zero zero (suc a) h = absurd (omega arith)
bit_and-zero (suc k) (suc a) h =
    omega (arith, bit_and_digit (suc a) 0, bit_and-zero k (suc a / 2) (omega arith))

double_shift : (q k : ℕ) → q * 2 ^ suc k ≡ 2 * (q * 2 ^ k)
double_shift q k = omega (arith, ap (λ (t : ℕ). q * t) (pow-suc 2 k))

-- `r | (q << k)` where `r` fits `k` bits.
pub bit_or_disjoint : (k r q : ℕ) → r < 2 ^ k → bit_or r (q * 2 ^ k) ≡ r + q * 2 ^ k
bit_or_disjoint zero zero q h = rw (zero-bit_or (q * 2 ^ 0) (q * 2 ^ 0) (omega arith)) (omega arith)
bit_or_disjoint zero (suc r) q h = absurd (omega arith)
bit_or_disjoint (suc k) r q h = omega (
  arith,
  bit_or_digit r (q * 2 ^ suc k),
  double_shift q k,
  ap (λ (t : ℕ). bit_or (r / 2) t) (half_shift q k),
  bit_or_disjoint k (r / 2) q (omega (arith, pow-suc 2 k)),
)
  where
    half_shift : (q k : ℕ) → q * 2 ^ suc k / 2 ≡ q * 2 ^ k
    half_shift q k = omega (arith, double_shift q k)

bit_or-comm_below : (n a b : ℕ) → a + b ≤ n → bit_or a b ≡ bit_or b a
bit_or-comm_below n zero zero h = refl
bit_or-comm_below zero (suc a) b h = absurd (omega arith)
bit_or-comm_below zero zero (suc b) h = absurd (omega arith)
bit_or-comm_below (suc n) zero (suc b) h = omega (
  arith,
  bit_or_digit 0 (suc b),
  bit_or_digit (suc b) 0,
  bit_or-comm_below n 0 (suc b / 2) (omega arith),
)
bit_or-comm_below (suc n) (suc a) b h = omega (
  arith,
  bit_or_digit (suc a) b,
  bit_or_digit b (suc a),
  bit_or-comm_below n (suc a / 2) (b / 2) (omega arith),
)

pub bit_or_comm : (a b : ℕ) → bit_or a b ≡ bit_or b a
bit_or_comm a b = bit_or-comm_below (a + b) a b (omega arith)

-- `(q << k) | r`
pub bit_or_fields : (k q r : ℕ) → r < 2 ^ k → bit_or (q * 2 ^ k) r ≡ q * 2 ^ k + r
bit_or_fields k q r h = omega (arith, bit_or_comm (q * 2 ^ k) r, bit_or_disjoint k r q h)

mod_digit : (k a : ℕ) → a % 2 ^ suc k ≡ a / 2 % 2 ^ k * 2 + a % 2
mod_digit k a = ap (λ t. t % 2 ^ suc k) parts ∙ add-mul-mod_self_right low high (2 ^ suc k) ∙ small
  where
    low : ℕ
    low = a / 2 % 2 ^ k * 2 + a % 2

    high : ℕ
    high = a / 2 / 2 ^ k

    parts : a ≡ low + high * 2 ^ suc k
    parts = omega (arith, double_shift high k, div-add-mod' (a / 2) (2 ^ k))

    small : low % 2 ^ suc k ≡ low
    small =
        mod-eq_of_lt
          (omega (arith, pow-suc 2 k, mod-lt (a / 2) {m = 2 ^ k} (one-le-pow k 2 (omega arith))))

-- `a & (2^k - 1)`.
pub bit_and_mask : (k a : ℕ) → bit_and a (2 ^ k - 1) ≡ a % 2 ^ k
bit_and_mask zero a = rw (bit_and-zero a a (omega arith)) (omega arith)
bit_and_mask (suc k) a = omega (
  arith,
  bit_and_digit a (2 ^ suc k - 1),
  mod_digit k a,
  ap (λ (t : ℕ). bit_and (a / 2) t) half_mask,
  bit_and_mask k (a / 2),
  pow-suc 2 k,
  one-le-pow k 2,
)
  where
    half_mask : (2 ^ suc k - 1) / 2 ≡ 2 ^ k - 1
    half_mask = omega (arith, pow-suc 2 k, one-le-pow k 2)

-- A test of the numbers below a bound, by evaluation.
unfoldable pub holds_below : (ℕ → Bool) → ℕ → Bool
holds_below test zero = true
holds_below test (suc bound) = holds_below test bound && test bound

pub holds_below-at :
    (test : ℕ → Bool) (bound v : ℕ) → v < bound → holds_below test bound ≡ true → test v ≡ true
unfolding holds_below
holds_below-at test zero v below good = absurd (omega arith)
holds_below-at test (suc bound) v below good = ground (arith, holds_below-at test bound v)

top_bit_table : holds_below (λ x. bit_and x 0x80 == x / 128 * 128) 256 ≡ true
unfolding holds_below
top_bit_table = refl

pub top_bit : (b : ℕ) → b < 256 → bit_and b 0x80 ≡ b / 128 * 128
top_bit b h = (==_iff _ _).0 (holds_below-at _ 256 b h top_bit_table)

high_bits_table : holds_below (λ x. bit_and x 0x70 == x % 128 / 16 * 16) 256 ≡ true
unfolding holds_below
high_bits_table = refl

-- The bits that do not fit where a byte of a 32 bit varint stands at bit 28.
pub high_bits : (b : ℕ) → b < 256 → bit_and b 0x70 ≡ b % 128 / 16 * 16
high_bits b h = (==_iff _ _).0 (holds_below-at _ 256 b h high_bits_table)

-- Seven bits of payload, and the bit that says that more bytes follow.
pub low_seven : (b : ℕ) → bit_and b 0x7f ≡ b % 128
low_seven b = bit_and_mask 7 b

pub set_top_bit : (b : ℕ) → b < 128 → bit_or b 0x80 ≡ b + 128
set_top_bit b h = bit_or_disjoint 7 b 1 h
