-- ===== src/Nanopb/Decode/TopBit.antt =====
-- AppChat_Again/Pods/nanopb/pb_decode.c: the test `byte & 0x80` on the bytes of a varint.
use app_chat_again.Prelude.{◌≤◌, ◌<◌, ℕ, ◌≡◌, true, false, arith, bit_and, ◌==◌}
use app_chat_again.Prelude.Bits.{top_bit}
use app_chat_again.Nanopb.Decode.{more_follows}

pub top_bit_set : (b : ℕ) → 128 ≤ b → b < 256 → (bit_and b 0x80 == 0) ≡ false
top_bit_set b h k = rw (top_bit b k) (ground arith)

pub top_bit_clear : (b : ℕ) → b < 128 → (bit_and b 0x80 == 0) ≡ true
top_bit_clear b h = rw (top_bit b (omega arith)) (ground arith)

pub more_follows_set : (b : ℕ) → 128 ≤ b → b < 256 → more_follows b ≡ true
more_follows_set b h k = rw (top_bit_set b h k)

pub more_follows_clear : (b : ℕ) → b < 128 → more_follows b ≡ false
more_follows_clear b h = rw (top_bit_clear b h)
