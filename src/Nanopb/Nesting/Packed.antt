-- ===== src/Nanopb/Nesting/Packed.antt =====
-- AppChat_Again/Pods/nanopb/pb_decode.c: the arrays of static fields: their loops come back.
use app_chat_again.Nanopb.Memory.{Machine}
use app_chat_again.Prelude.{zero, none, ◌||◌, some, Option, ◌==◌, arith, ◌<◌, leb, ◌+◌, ℕ, suc}
use app_chat_again.Nanopb.Host.{store_count}
use app_chat_again.Nanopb.FieldIter.{current, Iter}
use app_chat_again.Nanopb.Nesting.Answers.{Answers, test-Answers}
use app_chat_again.Nanopb.Nesting.Endings.{
  Ends, then-Ends, branch-Ends, open_substream-Ends, close_packed-Ends,
}
use app_chat_again.Nanopb.MessageDecoder.Steps.{open_substream}
use app_chat_again.Nanopb.MessageDecoder.StaticField.{
  Decoder, packed_static, decode_packed_static, decode_static_item, item_at, count_of,
}
use app_chat_again.Nanopb.Run.{Run, carry_on}

-- The step behind one that takes a byte at least.
pub ate-Answers {ℓ κ} :
    {A : Type ℓ} {B : Type κ} (left : ℕ) (r : Option (Option A × Machine)) (k : A → Run Machine B)
    → Ends 1 left r
    → ((a : A) (s : Machine) → s.stream.bytes_left < left → Answers (k a s))
    → Answers (carry_on r k)
ate-Answers left none k h g = h
ate-Answers left (some (none, s)) k h g = tt
ate-Answers left (some (some a, s)) k h g = g a s (omega arith)

module _ (func : Decoder) (iter : Iter) where
  -- Each item takes a byte at least.
  packed_static-Answers :
      ((target : ℕ) (s : Machine) → Ends 1 s.stream.bytes_left (func (current iter) target s))
      → (fuel : ℕ) (s : Machine) → s.stream.bytes_left < fuel
      → Answers (packed_static func iter fuel s)
  unfolding packed_static
  packed_static-Answers h zero s enough = absurd (omega arith)
  packed_static-Answers h (suc fuel) s enough =
      let f = current iter in
      let size = count_of iter s.memory in
      test-Answers (s.stream.bytes_left == 0 || leb f.array_size size) _ _ (λ _. tt)
        λ more.
          ate-Answers s.stream.bytes_left (func f (item_at iter.p_data f size) s) _
            (h (item_at iter.p_data f size) s)
            λ a s' less. packed_static-Answers h fuel _ (omega arith)

  pub decode_packed_static-Ends :
      ((target : ℕ) (s : Machine) → Ends 1 s.stream.bytes_left (func (current iter) target s))
      → (s : Machine) → Ends 0 s.stream.bytes_left (decode_packed_static func iter s)
  unfolding decode_packed_static
  decode_packed_static-Ends h s =
      then-Ends 0 0 s.stream.bytes_left (open_substream s) _ (open_substream-Ends s) λ sub s'.
        close_packed-Ends s'.stream _
          (packed_static-Answers h (sub.bytes_left + 1) (record s' { stream = sub }) (omega arith))

  pub decode_static_item-Ends :
      ((target : ℕ) (s : Machine) → Ends 0 s.stream.bytes_left (func (current iter) target s))
      → (s : Machine) → Ends 0 s.stream.bytes_left (decode_static_item func iter s)
  unfolding decode_static_item
  decode_static_item-Ends h s =
      let f = current iter in
      branch-Ends 0 s.stream.bytes_left (leb f.array_size (count_of iter s.memory)) _ _
        (λ _. omega arith)
        (λ _.
          h _ (record s { memory = store_count iter.p_size (count_of iter s.memory + 1) s.memory }))
