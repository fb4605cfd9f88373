-- ===== src/Nanopb/IStream/Limit.antt =====
-- AppChat_Again/Pods/nanopb/pb_decode.c: what pb_read and pb_readbyte keep to under every
-- callback, by their bookkeeping of `bytes_left`.
use app_chat_again.Prelude.{
  ℕ, zero, suc, ◌+◌, ◌-◌, ◌≤◌, ◌<◌, ◌≡◌, arith, Option, none, some, List, Bool-cases, ltb, inl, inr,
  and_then, ◌==◌,
}
use app_chat_again.Nanopb.IStream.{
  IStream, Buf, null, dest, Callback, buf_read, custom, IoResult, transferred, io_failed, at_end,
  pb_read, pb_readbyte, read_checked, skip_loop, take_off, take_byte, call_back, after_custom,
  not_buf_read,
}

-- A call that takes exactly `count` bytes where it succeeds, and never gives any back.
abbrev pub Takes {ℓ} : {A : Type ℓ} → ℕ → IStream → Option A × IStream → Type 0
Takes count s (none, s') = s'.bytes_left ≤ s.bytes_left
Takes count s (some a, s') = s'.bytes_left + count ≡ s.bytes_left

after_custom-Takes : (r : IoResult) (s : IStream) → Takes 0 s (after_custom r s)
unfolding after_custom
after_custom-Takes (transferred bytes state) s = omega arith
after_custom-Takes (io_failed state) s = omega arith
after_custom-Takes (at_end state) s = omega arith

call_back-Takes : (c : Callback) (count : ℕ) (s : IStream) → Takes 0 s (call_back c count s)
unfolding call_back
call_back-Takes buf_read count s = omega arith
call_back-Takes (custom f) count s = after_custom-Takes (f s.state s.bytes_left count) s

take_off-Takes :
    (count : ℕ) (s : IStream) (r : Option (List ℕ) × IStream)
    → count ≤ s.bytes_left
    → Takes 0 s r
    → Takes count s (take_off count r)
unfolding take_off
take_off-Takes count s (none, s') h k = k
take_off-Takes count s (some bytes, s') h k = omega arith

take_byte-Takes :
    (s : IStream) (r : Option (List ℕ) × IStream)
    → 0 < s.bytes_left
    → Takes 0 s r
    → Takes 1 s (take_byte r)
unfolding take_byte
take_byte-Takes s (none, s') h k = k
take_byte-Takes s (some bytes, s') h k = omega arith

read_checked-Takes : (count : ℕ) (s : IStream) → Takes count s (read_checked count s)
unfolding read_checked
read_checked-Takes count s = elim (Bool-cases (ltb s.bytes_left count)) [
  | inl short ↦ rw short (omega arith)
  | inr enough ↦ rw enough (
      take_off-Takes count s (call_back s.callback count s) (ground arith)
        (call_back-Takes s.callback count s))
]

behind {ℓ} :
    {A : Type ℓ} (m n k : ℕ) (s s' : IStream) (r : Option A × IStream)
    → m + n ≡ k
    → s'.bytes_left + m ≡ s.bytes_left
    → Takes n s' r
    → Takes k s r
behind m n k s s' (none, t) e h q = omega arith
behind m n k s s' (some b, t) e h q = omega arith

-- One call behind another: the counts add up.
pub and_then-Takes {ℓ κ} :
    {A : Type ℓ} {B : Type κ} (m n k : ℕ) (s : IStream) (r : Option A × IStream)
    (f : A → IStream → Option B × IStream)
    → m + n ≡ k
    → Takes m s r
    → ((a : A) (s' : IStream) → Takes n s' (f a s'))
    → Takes k s (and_then r f)
and_then-Takes m n k s (none, s') f e h q = h
and_then-Takes m n k s (some a, s') f e h q = behind m n k s s' (f a s') e h (q a s')

skip_loop-Takes : (fuel count : ℕ) (s : IStream) → Takes count s (skip_loop fuel count s)
unfolding skip_loop
skip_loop-Takes zero count s = read_checked-Takes count s
skip_loop-Takes (suc fuel) count s = elim (Bool-cases (ltb 16 count)) [
  | inl long ↦ rw long (
      and_then-Takes 16 (count - 16) count s (read_checked 16 s)
        (λ _ s'. skip_loop fuel (count - 16) s') (ground arith) (read_checked-Takes 16 s)
        (λ _ s'. skip_loop-Takes fuel (count - 16) s'))
  | inr short ↦ rw short (read_checked-Takes count s)
]

-- pb_read takes `count` bytes off the limit where it succeeds, for every callback, also when it
-- skips in pieces of 16; where it fails, the limit does not grow.
pub pb_read-Takes : (buf : Buf) (count : ℕ) (s : IStream) → Takes count s (pb_read buf count s)
unfolding pb_read
pb_read-Takes dest count s = read_checked-Takes count s
pb_read-Takes null count s = elim (Bool-cases (not_buf_read s.callback)) [
  | inl skips ↦ rw skips (skip_loop-Takes count count s)
  | inr copies ↦ rw copies (read_checked-Takes count s)
]

-- pb_readbyte takes one byte off the limit where it succeeds, for every callback; where it fails,
-- the limit does not grow.
pub pb_readbyte-Takes : (s : IStream) → Takes 1 s (pb_readbyte s)
unfolding pb_readbyte
pb_readbyte-Takes s = elim (Bool-cases (s.bytes_left == 0)) [
  | inl over ↦ rw over (omega arith)
  | inr more ↦
      rw more (
        take_byte-Takes s (call_back s.callback 1 s) (ground arith)
          (call_back-Takes s.callback 1 s))
]
