-- ===== src/Nanopb/Nesting/Strings.antt =====
-- AppChat_Again/Pods/nanopb/pb_decode.c: the decoders of strings and bytes give nothing back of the limit.
use app_chat_again.Nanopb.FieldIter.{pb_size_max}
use app_chat_again.Prelude.Words.{u32}
use app_chat_again.Nanopb.Decode.{pb_decode_varint32}
use app_chat_again.Prelude.{
  ◌/◌, ◌-◌, ◌&&◌, ◌^◌, not, leb, none, ◌||◌, some, and_then, ltb, List, Option, arith, ◌==◌, ◌+◌, M,
  ℕ,
}
use app_chat_again.Nanopb.Types.{pb_atype, Field}
use app_chat_again.Nanopb.Types.Atype
use app_chat_again.Nanopb.Nesting.Limit.{Eats, weaken-Eats, read-Eats, pb_decode_varint32-Eats}
use app_chat_again.Nanopb.Nesting.Numbers.{Leaves, keep-Leaves, choice-Leaves, on_stream-Leaves}
use app_chat_again.Nanopb.IStream.{IStream, dest, pb_read}
use app_chat_again.Nanopb.Memory.{Machine, Memory}
use app_chat_again.Nanopb.FieldDecoders.{
  pb_dec_bytes, pb_dec_string, pb_dec_fixed_length_bytes, stored, read_to, terminate, read_string,
  read_bytes_array, allocate_field, after_realloc, into_allocated, bytes_of_size, string_of_size,
  fixed_length_of_size, bytes_array_t_allocsize, load_pointer,
}

pub then-Leaves {ℓ κ} :
    {A : Type ℓ} {B : Type κ} (left : ℕ) (r : Option A × Machine) (k : A → M Machine B)
    → Leaves 0 left r
    → ((a : A) (s : Machine) → Leaves 0 s.stream.bytes_left (k a s))
    → Leaves 0 left (and_then r k)
then-Leaves left (none, s) k h g = h
then-Leaves left (some a, s) k h g = keep-Leaves 0 left s.stream.bytes_left (k a s) h (g a s)

stored-Leaves :
    (target count left : ℕ) (r : Option (List ℕ) × IStream) (s : Machine)
    → Eats 0 left r
    → Leaves 0 left (stored target count r s)
unfolding stored
stored-Leaves target count left (none, t) s h = h
stored-Leaves target count left (some bytes, t) s h = h

pub read_to-Leaves :
    (target count : ℕ) (s : Machine) → Leaves 0 s.stream.bytes_left (read_to target count s)
unfolding read_to
read_to-Leaves target count s =
    stored-Leaves target count s.stream.bytes_left (pb_read dest count s.stream) s
      (weaken-Eats count 0 s.stream.bytes_left _ (omega arith) (read-Eats dest count s.stream))

terminate-Leaves :
    (address left : ℕ) (r : Option (Unit {0}) × Machine)
    → Leaves 0 left r
    → Leaves 0 left (terminate address r)
unfolding terminate
terminate-Leaves address left (none, s) h = h
terminate-Leaves address left (some a, s) h = h

read_string-Leaves :
    (target count : ℕ) (s : Machine) → Leaves 0 s.stream.bytes_left (read_string target count s)
unfolding read_string
read_string-Leaves target count s =
    terminate-Leaves (target + count) s.stream.bytes_left (read_to target count s)
      (read_to-Leaves target count s)

read_bytes_array-Leaves :
    (target count : ℕ) (s : Machine)
    → Leaves 0 s.stream.bytes_left (read_bytes_array target count s)
unfolding read_bytes_array
read_bytes_array-Leaves target count s = read_to-Leaves (target + 4) count _

after_realloc-Leaves :
    (p_data : ℕ) (r : ℕ × Memory) (s : Machine)
    → Leaves 0 s.stream.bytes_left (after_realloc p_data r s)
unfolding after_realloc
after_realloc-Leaves p_data (ptr, memory) s =
    choice-Leaves 0 s.stream.bytes_left (ptr == 0) _ _ (λ _. omega arith) (λ _. omega arith)

module _ (pb_realloc : ℕ → ℕ → Memory → ℕ × Memory) where
  pub allocate_field-Leaves :
      (p_data data_size array_size : ℕ) (s : Machine)
      → Leaves 0 s.stream.bytes_left (allocate_field pb_realloc p_data data_size array_size s)
  unfolding allocate_field
  allocate_field-Leaves p_data data_size array_size s =
      choice-Leaves 0 s.stream.bytes_left (data_size == 0 || array_size == 0) _ _ (λ _. omega arith)
        λ _.
          choice-Leaves 0 s.stream.bytes_left
            ((leb (2 ^ 32) data_size || leb (2 ^ 32) array_size)
              && ltb ((2 ^ 64 - 1) / array_size) data_size)
            _ _ (λ _. omega arith) (λ _. after_realloc-Leaves p_data _ s)

  into_allocated-Leaves :
      (target alloc_size : ℕ) (fill : ℕ → M Machine (Unit {0})) (s : Machine)
      → ((p : ℕ) (s : Machine) → Leaves 0 s.stream.bytes_left (fill p s))
      → Leaves 0 s.stream.bytes_left (into_allocated pb_realloc target alloc_size fill s)
  unfolding into_allocated
  into_allocated-Leaves target alloc_size fill s h =
      then-Leaves s.stream.bytes_left (allocate_field pb_realloc target alloc_size 1 s) _
        (allocate_field-Leaves target alloc_size 1 s) (λ a s'. h (load_pointer target s'.memory) s')

  pub pb_dec_bytes-Leaves :
      (f : Field) (target : ℕ) (s : Machine)
      → Leaves 0 s.stream.bytes_left (pb_dec_bytes pb_realloc f target s)
  unfolding pb_dec_bytes bytes_of_size
  pb_dec_bytes-Leaves f target s =
      on_stream-Leaves 0 s pb_decode_varint32 _
        (weaken-Eats 1 0 s.stream.bytes_left _ (omega arith) (pb_decode_varint32-Eats s.stream))
        λ size s'.
          let left = s'.stream.bytes_left in
          let alloc_size = bytes_array_t_allocsize size in
          choice-Leaves 0 left (ltb pb_size_max size) _ _ (λ _. omega arith)
            λ _.
              choice-Leaves 0 left (ltb alloc_size size) _ _ (λ _. omega arith)
                λ _.
                  choice-Leaves 0 left (pb_atype f.type == Atype.pointer) _ _
                    (λ _.
                      into_allocated-Leaves target alloc_size _ s'
                        (λ p. read_bytes_array-Leaves p size))
                    λ _.
                      choice-Leaves 0 left (ltb f.data_size alloc_size) _ _ (λ _. omega arith)
                        (λ _. read_bytes_array-Leaves target size s')

  pub pb_dec_string-Leaves :
      (f : Field) (target : ℕ) (s : Machine)
      → Leaves 0 s.stream.bytes_left (pb_dec_string pb_realloc f target s)
  unfolding pb_dec_string string_of_size
  pb_dec_string-Leaves f target s =
      on_stream-Leaves 0 s pb_decode_varint32 _
        (weaken-Eats 1 0 s.stream.bytes_left _ (omega arith) (pb_decode_varint32-Eats s.stream))
        λ size s'.
          let left = s'.stream.bytes_left in
          let alloc_size = u32 (size + 1) in
          choice-Leaves 0 left (ltb alloc_size size) _ _ (λ _. omega arith)
            λ _.
              choice-Leaves 0 left (pb_atype f.type == Atype.pointer) _ _
                (λ _. into_allocated-Leaves target alloc_size _ s' (λ p. read_string-Leaves p size))
                λ _.
                  choice-Leaves 0 left (ltb f.data_size alloc_size) _ _ (λ _. omega arith)
                    (λ _. read_string-Leaves target size s')

pub pb_dec_fixed_length_bytes-Leaves :
    (f : Field) (target : ℕ) (s : Machine)
    → Leaves 0 s.stream.bytes_left (pb_dec_fixed_length_bytes f target s)
unfolding pb_dec_fixed_length_bytes fixed_length_of_size
pb_dec_fixed_length_bytes-Leaves f target s =
    on_stream-Leaves 0 s pb_decode_varint32 _
      (weaken-Eats 1 0 s.stream.bytes_left _ (omega arith) (pb_decode_varint32-Eats s.stream))
      λ size s'.
        let left = s'.stream.bytes_left in
        choice-Leaves 0 left (ltb pb_size_max size) _ _ (λ _. omega arith)
          λ _.
            choice-Leaves 0 left (size == 0) _ _ (λ _. omega arith)
              λ _.
                choice-Leaves 0 left (not (size == f.data_size)) _ _ (λ _. omega arith)
                  (λ _. read_to-Leaves target f.data_size s')
