-- ===== src/Nanopb/Nesting/Limit.antt =====
-- AppChat_Again/Pods/nanopb/pb_decode.c: the functions of the decoder that only read take from the limit
-- of the stream, and give nothing back.
use app_chat_again.Nanopb.Types.Wt
use app_chat_again.Nanopb.Types.{varint_overflow}
use app_chat_again.Prelude.Words.{u8}
use app_chat_again.Prelude.{
  inr, inl, Bool-cases, get_or, bit_and, not, ◌&&◌, leb, zero, ◌==◌, suc, refl, if◌then◌else◌,
  and_then, false, none, true, ◌+◌, arith, ◌≤◌, some, M, ◌≡◌, Option, Bool, ℕ,
}
use app_chat_again.Nanopb.IStream.Limit.{Takes, pb_read-Takes, pb_readbyte-Takes}
use app_chat_again.Nanopb.IStream.{Buf, IStream, null, dest, pb_read, pb_readbyte, return_error}
use app_chat_again.Nanopb.Decode.{
  pb_decode_varint, decode_varint_loop, pb_decode_varint32, pb_decode_varint32_eof, varint32_from,
  decode_varint32_loop, check_last, add_bits32, pb_skip_varint, skip_varint_loop, pb_skip_string,
  pb_skip_field, skip_bytes, pb_decode_tag, tag_from, more_follows,
}

-- A call that takes `count` bytes at least where it succeeds, and never gives any back.
abbrev pub Eats {ℓ} : {A : Type ℓ} → ℕ → ℕ → Option A × IStream → Type 0
Eats count left (none, s) = s.bytes_left ≤ left
Eats count left (some a, s) = s.bytes_left + count ≤ left

pub Takes-Eats {ℓ} :
    {A : Type ℓ} (count : ℕ) (s : IStream) (r : Option A × IStream)
    → Takes count s r
    → Eats count s.bytes_left r
Takes-Eats count s (none, s') h = h
Takes-Eats count s (some a, s') h = omega arith

pub weaken-Eats {ℓ} :
    {A : Type ℓ} (m n left : ℕ) (r : Option A × IStream) → n ≤ m → Eats m left r → Eats n left r
weaken-Eats m n left (none, s) h e = e
weaken-Eats m n left (some a, s) h e = omega arith

-- What is behind a call eats from what the call has left.
add-Eats {ℓ} :
    {A : Type ℓ} (m n left between : ℕ) (r : Option A × IStream)
    → between + m ≤ left
    → Eats n between r
    → Eats (m + n) left r
add-Eats m n left between (none, s) h e = omega arith
add-Eats m n left between (some a, s) h e = omega arith

pub then-Eats {ℓ κ} :
    {A : Type ℓ} {B : Type κ} (m n left : ℕ) (r : Option A × IStream) (k : A → M IStream B)
    → Eats m left r
    → ((a : A) (s : IStream) → Eats n s.bytes_left (k a s))
    → Eats (m + n) left (and_then r k)
then-Eats m n left (none, s) k h g = h
then-Eats m n left (some a, s) k h g = add-Eats m n left s.bytes_left (k a s) h (g a s)

pub choice-Eats {ℓ} :
    {A : Type ℓ} (count left : ℕ) (b : Bool) (x y : Option A × IStream)
    → (b ≡ true → Eats count left x)
    → (b ≡ false → Eats count left y)
    → Eats count left (if b then x else y)
choice-Eats count left true x y h k = h refl
choice-Eats count left false x y h k = k refl

readbyte-Eats : (s : IStream) → Eats 1 s.bytes_left (pb_readbyte s)
readbyte-Eats s = Takes-Eats 1 s (pb_readbyte s) (pb_readbyte-Takes s)

pub read-Eats :
    (buf : Buf) (count : ℕ) (s : IStream) → Eats count s.bytes_left (pb_read buf count s)
read-Eats buf count s = Takes-Eats count s (pb_read buf count s) (pb_read-Takes buf count s)

varint_loop-Eats :
    (rounds bitpos result : ℕ) (s : IStream)
    → Eats 1 s.bytes_left (decode_varint_loop rounds bitpos result s)
unfolding decode_varint_loop
varint_loop-Eats zero bitpos result s = omega arith
varint_loop-Eats (suc rounds) bitpos result s =
    choice-Eats 1 s.bytes_left (leb 64 bitpos) _ _ (λ _. omega arith)
      λ _. then-Eats 1 0 s.bytes_left (pb_readbyte s) _ (readbyte-Eats s) λ byte s'.
        choice-Eats 0 s'.bytes_left (more_follows byte) _ _
          (λ _. weaken-Eats 1 0 s'.bytes_left _ (omega arith) (varint_loop-Eats rounds _ _ s'))
          (λ _. omega arith)

pub pb_decode_varint-Eats : (s : IStream) → Eats 1 s.bytes_left (pb_decode_varint s)
unfolding pb_decode_varint
pb_decode_varint-Eats s = varint_loop-Eats 10 0 0 s

check_last-Eats :
    (bitpos byte result : ℕ) (s : IStream) → Eats 0 s.bytes_left (check_last bitpos byte result s)
unfolding check_last
check_last-Eats bitpos byte result s =
    choice-Eats 0 s.bytes_left (bitpos == 35 && not (bit_and byte 0x70 == 0)) _ _ (λ _. omega arith)
      (λ _. omega arith)

abbrev added : ℕ → ℕ → ℕ → IStream → Option ℕ → Option ℕ × IStream
added fuel bitpos byte s (some result) =
    if more_follows byte
    then decode_varint32_loop fuel (u8 (bitpos + 7)) result s
    else check_last (u8 (bitpos + 7)) byte result s
added fuel bitpos byte s none = return_error varint_overflow s

varint32_loop-Eats :
    (fuel bitpos result : ℕ) (s : IStream)
    → Eats 0 s.bytes_left (decode_varint32_loop fuel bitpos result s)
unfolding decode_varint32_loop
varint32_loop-Eats zero bitpos result s =
    weaken-Eats 1 0 s.bytes_left _ (omega arith)
      (then-Eats 1 0 s.bytes_left (pb_readbyte s) _ (readbyte-Eats s) (λ byte s'. omega arith))
varint32_loop-Eats (suc fuel) bitpos result s = weaken-Eats 1 0 s.bytes_left _ (omega arith) (
    then-Eats 1 0 s.bytes_left (pb_readbyte s) _ (readbyte-Eats s) λ byte s'.
      elim (add_bits32 bitpos result byte)
        as (λ o. Eats 0 s'.bytes_left (added fuel bitpos byte s' o)) [
          | none ↦ omega arith
          | some result' ↦
              choice-Eats 0 s'.bytes_left (more_follows byte) _ _
                (λ _. varint32_loop-Eats fuel _ _ s') (λ _. check_last-Eats _ byte result' s')
        ])

-- The answer of a function that also says `eof`.
abbrev pub without_eof {ℓ} : {A : Type ℓ} → Option A × IStream × Bool → Option A × IStream
without_eof (result, s, eof) = (result, s)

varint32_from-Eats :
    (left : ℕ) (r : Option ℕ × IStream)
    → Eats 1 left r
    → Eats 1 left (without_eof (varint32_from r))
unfolding varint32_from
varint32_from-Eats left (none, s) h = h
varint32_from-Eats left (some byte, s) h = elim (Bool-cases (bit_and byte 0x80 == 0)) [
  | inl last ↦ rw last h
  | inr more ↦ rw more (
      weaken-Eats (1 + 0) 1 left _ (omega arith) (
        add-Eats 1 0 left s.bytes_left _ h
          (varint32_loop-Eats s.bytes_left 7 (bit_and byte 0x7F) s)))
]

pub pb_decode_varint32_eof-Eats :
    (s : IStream) → Eats 1 s.bytes_left (without_eof (pb_decode_varint32_eof s))
unfolding pb_decode_varint32_eof
pb_decode_varint32_eof-Eats s = varint32_from-Eats s.bytes_left (pb_readbyte s) (readbyte-Eats s)

pub pb_decode_varint32-Eats : (s : IStream) → Eats 1 s.bytes_left (pb_decode_varint32 s)
unfolding pb_decode_varint32
pb_decode_varint32-Eats s = pb_decode_varint32_eof-Eats s

tag_from-Eats :
    (left : ℕ) (r : Option ℕ × IStream × Bool)
    → Eats 1 left (without_eof r)
    → Eats 1 left (without_eof (tag_from r))
unfolding tag_from
tag_from-Eats left (none, s, eof) h = h
tag_from-Eats left (some temp, s, eof) h = elim (Bool-cases (temp == 0)) [
  | inl end ↦ rw end (omega arith)
  | inr more ↦ rw more h
]

pub pb_decode_tag-Eats : (s : IStream) → Eats 1 s.bytes_left (without_eof (pb_decode_tag s))
unfolding pb_decode_tag
pb_decode_tag-Eats s =
    tag_from-Eats s.bytes_left (pb_decode_varint32_eof s) (pb_decode_varint32_eof-Eats s)

skip_varint_loop-Eats : (fuel : ℕ) (s : IStream) → Eats 0 s.bytes_left (skip_varint_loop fuel s)
unfolding skip_varint_loop
skip_varint_loop-Eats zero s =
    weaken-Eats 1 0 s.bytes_left _ (omega arith) (
      then-Eats 1 0 s.bytes_left (pb_read dest 1 s) _ (read-Eats dest 1 s)
        (λ bytes s'. omega arith))
skip_varint_loop-Eats (suc fuel) s = weaken-Eats 1 0 s.bytes_left _ (omega arith) (
    then-Eats 1 0 s.bytes_left (pb_read dest 1 s) _ (read-Eats dest 1 s) λ bytes s'.
      choice-Eats 0 s'.bytes_left (more_follows (get_or bytes 0 0)) _ _
        (λ _. skip_varint_loop-Eats fuel s') (λ _. omega arith))

skip_bytes-Eats : (count : ℕ) (s : IStream) → Eats 0 s.bytes_left (skip_bytes count s)
unfolding skip_bytes
skip_bytes-Eats count s = weaken-Eats (count + 0) 0 s.bytes_left _ (omega arith) (
    then-Eats count 0 s.bytes_left (pb_read null count s) _ (read-Eats null count s)
      (λ bytes s'. omega arith))

pub pb_skip_field-Eats :
    (wire_type : ℕ) (s : IStream) → Eats 0 s.bytes_left (pb_skip_field wire_type s)
unfolding pb_skip_field pb_skip_varint pb_skip_string
pb_skip_field-Eats wire_type s =
    choice-Eats 0 s.bytes_left (wire_type == Wt.varint) _ _
      (λ _. skip_varint_loop-Eats s.bytes_left s)
      λ _.
        choice-Eats 0 s.bytes_left (wire_type == Wt.bits64) _ _ (λ _. skip_bytes-Eats 8 s)
          λ _.
            choice-Eats 0 s.bytes_left (wire_type == Wt.string) _ _
              (λ _. weaken-Eats 1 0 s.bytes_left _ (omega arith) (
                then-Eats 1 0 s.bytes_left (pb_decode_varint32 s) _ (pb_decode_varint32-Eats s)
                  skip_bytes-Eats))
              λ _.
                choice-Eats 0 s.bytes_left (wire_type == Wt.bits32) _ _ (λ _. skip_bytes-Eats 4 s)
                  (λ _. omega arith)
