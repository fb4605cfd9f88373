-- ===== src/Nanopb/Nesting/Numbers.antt =====
-- AppChat_Again/Pods/nanopb/pb_decode.c: numbers and substreams take from the limit of the stream, and
-- the decoders of single values leave an answer behind.
use app_chat_again.Prelude.{
  refl, if◌then◌else◌, false, true, none, ◌==◌, ◌^◌, ltb, and_then, ◌≡◌, ◌*◌, some, ◌%◌, List, Bool,
  M, ◌≤◌, ◌+◌, Option, ℕ, arith,
}
use app_chat_again.Nanopb.Types.{Field}
use app_chat_again.Nanopb.Nesting.Limit.{
  Eats, weaken-Eats, then-Eats, choice-Eats, read-Eats, pb_decode_varint-Eats,
  pb_decode_varint32-Eats,
}
use app_chat_again.Nanopb.IStream.{IStream, dest, pb_read}
use app_chat_again.Nanopb.Decode.{
  pb_decode_varint32, pb_decode_varint, pb_decode_svarint, pb_decode_fixed32, pb_decode_fixed64,
  pb_make_string_substream, pb_close_string_substream, split_stream, close_with,
}
use app_chat_again.Nanopb.Memory.{Machine, on_stream}
use app_chat_again.Nanopb.FieldDecoders.{
  sign_extend, pb_dec_varint, pb_dec_uvarint, pb_dec_svarint, pb_dec_fixed32, pb_dec_fixed64,
  store_signed, store_unsigned, is_int_size,
}

pub pb_decode_svarint-Eats : (s : IStream) → Eats 1 s.bytes_left (pb_decode_svarint s)
unfolding pb_decode_svarint
pb_decode_svarint-Eats s =
    then-Eats 1 0 s.bytes_left (pb_decode_varint s) _ (pb_decode_varint-Eats s)
      (λ value s'. omega arith)

pub pb_decode_fixed32-Eats : (s : IStream) → Eats 1 s.bytes_left (pb_decode_fixed32 s)
unfolding pb_decode_fixed32
pb_decode_fixed32-Eats s =
    weaken-Eats 4 1 s.bytes_left _ (omega arith) (
      then-Eats 4 0 s.bytes_left (pb_read dest 4 s) _ (read-Eats dest 4 s)
        (λ bytes s'. omega arith))

pub pb_decode_fixed64-Eats : (s : IStream) → Eats 1 s.bytes_left (pb_decode_fixed64 s)
unfolding pb_decode_fixed64
pb_decode_fixed64-Eats s =
    weaken-Eats 8 1 s.bytes_left _ (omega arith) (
      then-Eats 8 0 s.bytes_left (pb_read dest 8 s) _ (read-Eats dest 8 s)
        (λ bytes s'. omega arith))

pub pb_make_string_substream-Eats : (s : IStream) → Eats 0 s.bytes_left (pb_make_string_substream s)
unfolding pb_make_string_substream split_stream
pb_make_string_substream-Eats s = weaken-Eats 1 0 s.bytes_left _ (omega arith) (
    then-Eats 1 0 s.bytes_left (pb_decode_varint32 s) _ (pb_decode_varint32-Eats s) λ size s'.
      choice-Eats 0 s'.bytes_left (ltb s'.bytes_left size) _ _ (λ _. omega arith)
        (λ _. omega arith))

close_with-Eats :
    (r : Option (List ℕ) × IStream) (s : IStream) → Eats 0 s.bytes_left (close_with r s)
unfolding close_with
close_with-Eats (none, sub) s = omega arith
close_with-Eats (some bytes, sub) s = omega arith

-- The limit of the stream stays what it is where a substream is closed.
pub pb_close_string_substream-Eats :
    (sub s : IStream) → Eats 0 s.bytes_left (pb_close_string_substream sub s)
unfolding pb_close_string_substream
pb_close_string_substream-Eats sub s = close_with-Eats _ s

-- The same for a function of the stream and the memory.
abbrev pub Leaves {ℓ} : {A : Type ℓ} → ℕ → ℕ → Option A × Machine → Type 0
Leaves count left (none, s) = s.stream.bytes_left ≤ left
Leaves count left (some a, s) = s.stream.bytes_left + count ≤ left

pub weaken-Leaves {ℓ} :
    {A : Type ℓ} (m n left : ℕ) (r : Option A × Machine) → n ≤ m → Leaves m left r → Leaves n left r
weaken-Leaves m n left (none, s) h e = e
weaken-Leaves m n left (some a, s) h e = omega arith

pub choice-Leaves {ℓ} :
    {A : Type ℓ} (count left : ℕ) (b : Bool) (x y : Option A × Machine)
    → (b ≡ true → Leaves count left x)
    → (b ≡ false → Leaves count left y)
    → Leaves count left (if b then x else y)
choice-Leaves count left true x y h k = h refl
choice-Leaves count left false x y h k = k refl

pub keep-Leaves {ℓ} :
    {A : Type ℓ} (count left between : ℕ) (r : Option A × Machine)
    → between + count ≤ left
    → Leaves 0 between r
    → Leaves count left r
keep-Leaves count left between (none, s) h e = omega arith
keep-Leaves count left between (some a, s) h e = omega arith

result-Leaves {ℓ κ} :
    {A : Type ℓ} {B : Type κ} (count left : ℕ) (s : Machine) (r : Option A × IStream)
    (k : A → M Machine B)
    → Eats count left r
    → ((a : A) (s : Machine) → Leaves 0 s.stream.bytes_left (k a s))
    → Leaves count left (and_then (r.0, record s { stream = r.1 }) k)
result-Leaves count left s (none, t) k h g = h
result-Leaves count left s (some a, t) k h g =
    keep-Leaves count left t.bytes_left (k a (record s { stream = t })) h
      (g a (record s { stream = t }))

pub on_stream-Leaves {ℓ κ} :
    {A : Type ℓ} {B : Type κ} (count : ℕ) (s : Machine) (f : M IStream A) (k : A → M Machine B)
    → Eats count s.stream.bytes_left (f s.stream)
    → ((a : A) (s : Machine) → Leaves 0 s.stream.bytes_left (k a s))
    → Leaves count s.stream.bytes_left (and_then (on_stream f s) k)
on_stream-Leaves count s f k h g = result-Leaves count s.stream.bytes_left s (f s.stream) k h g

store_signed-Leaves :
    (size target value : ℕ) (s : Machine)
    → Leaves 0 s.stream.bytes_left (store_signed size target value s)
unfolding store_signed
store_signed-Leaves size target value s =
    choice-Leaves 0 s.stream.bytes_left (is_int_size size) _ _
      (λ _.
        choice-Leaves 0 s.stream.bytes_left (sign_extend (8 * size) value == value) _ _
          (λ _. omega arith) (λ _. omega arith))
      (λ _. omega arith)

store_unsigned-Leaves :
    (size target value : ℕ) (s : Machine)
    → Leaves 0 s.stream.bytes_left (store_unsigned size target value s)
unfolding store_unsigned
store_unsigned-Leaves size target value s =
    choice-Leaves 0 s.stream.bytes_left (is_int_size size) _ _
      (λ _.
        choice-Leaves 0 s.stream.bytes_left (value % 2 ^ (8 * size) == value) _ _ (λ _. omega arith)
          (λ _. omega arith))
      (λ _. omega arith)

-- Decoders of numbers take a byte at least.
module _ (f : Field) (target : ℕ) (s : Machine) where
  pub pb_dec_varint-Leaves : Leaves 1 s.stream.bytes_left (pb_dec_varint f target s)
  unfolding pb_dec_varint
  pb_dec_varint-Leaves =
      on_stream-Leaves 1 s pb_decode_varint _ (pb_decode_varint-Eats s.stream)
        (λ v. store_signed-Leaves _ target _)

  pub pb_dec_uvarint-Leaves : Leaves 1 s.stream.bytes_left (pb_dec_uvarint f target s)
  unfolding pb_dec_uvarint
  pb_dec_uvarint-Leaves =
      on_stream-Leaves 1 s pb_decode_varint _ (pb_decode_varint-Eats s.stream)
        (λ v. store_unsigned-Leaves _ target _)

  pub pb_dec_svarint-Leaves : Leaves 1 s.stream.bytes_left (pb_dec_svarint f target s)
  unfolding pb_dec_svarint
  pb_dec_svarint-Leaves =
      on_stream-Leaves 1 s pb_decode_svarint _ (pb_decode_svarint-Eats s.stream)
        (λ v. store_signed-Leaves _ target _)

  pub pb_dec_fixed32-Leaves : Leaves 1 s.stream.bytes_left (pb_dec_fixed32 f target s)
  unfolding pb_dec_fixed32
  pb_dec_fixed32-Leaves =
      on_stream-Leaves 1 s pb_decode_fixed32 _ (pb_decode_fixed32-Eats s.stream)
        (λ v s'. omega arith)

  pub pb_dec_fixed64-Leaves : Leaves 1 s.stream.bytes_left (pb_dec_fixed64 f target s)
  unfolding pb_dec_fixed64
  pb_dec_fixed64-Leaves =
      on_stream-Leaves 1 s pb_decode_fixed64 _ (pb_decode_fixed64-Eats s.stream)
        (λ v s'. omega arith)
