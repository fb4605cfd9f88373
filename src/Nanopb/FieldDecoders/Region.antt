-- ===== src/Nanopb/FieldDecoders/Region.antt =====
-- AppChat_Again/Pods/nanopb/pb_decode.c: where the decoders of single values store.
use app_chat_again.Nanopb.IStream.{pb_read, IStream}
use app_chat_again.Prelude.{
  if◌then◌else◌, inr, inl, false, [], none, ◌∷◌, true, ◌==◌, take, sym, and_then, List, subst, ◌∙◌,
  Bool-cases, arith, Bool, M, zero, suc, ◌+◌, ◌≡◌, Option, refl, length, ◌≤◌, ℕ,
}
use app_chat_again.Nanopb.FieldDecoders.{
  dest, some, IStream, is_int_size, pb_read, ℕ, store_signed, store_unsigned, stored, read_to,
  terminate, read_string, read_bytes_array, check_clamped,
}
use app_chat_again.Nanopb.Memory.{
  Memory, Machine, SameOutside, store_bytes-SameOutside, on_stream, put_bytes,
}
use app_chat_again.Nanopb.Encode.{to_bytes}
use app_chat_again.Nanopb.RoundTrip.Fixed.{length-to_bytes}

-- A call that leaves the memory outside a region alone.
abbrev pub StaysIn {ℓ} : {A : Type ℓ} → ℕ → ℕ → Machine → Option A × Machine → Type 0
StaysIn start size s r = SameOutside start size s.memory r.1.memory

length-take_le {ℓ} : {A : Type ℓ} (n : ℕ) (xs : List A) → length (take n xs) ≤ n
length-take_le zero xs = omega arith
length-take_le (suc n) [] = omega arith
length-take_le (suc n) (x ∷ xs) = omega (arith, length-take_le n xs)

module _ (start size : ℕ) where
  pub untouched : (memory : Memory) → SameOutside start size memory memory
  untouched memory a out = refl

  pub branch {ℓ} :
      {A : Type ℓ} (s : Machine) (b : Bool) (x y : Option A × Machine)
      → (b ≡ true → StaysIn start size s x)
      → (b ≡ false → StaysIn start size s y)
      → StaysIn start size s (if b then x else y)
  branch s true x y h k = h refl
  branch s false x y h k = k refl

  pub stored_in :
      (address : ℕ) (bytes : List ℕ) (s : Machine)
      → start ≤ address
      → address + length bytes ≤ start + size
      → SameOutside start size s.memory (put_bytes address bytes s).memory
  stored_in address bytes s low high =
      store_bytes-SameOutside address bytes start size s.memory low high

  pub number_in :
      (address count value : ℕ) (s : Machine)
      → start ≤ address
      → address + count ≤ start + size
      → SameOutside start size s.memory (put_bytes address (to_bytes count value) s).memory
  number_in address count value s low high =
      stored_in address (to_bytes count value) s low (omega (arith, length-to_bytes count value))

  -- Nothing happens to the memory while the stream is read.
  behind_result {ℓ} :
      {A : Type ℓ} (s : Machine) (r : Option A × IStream) (k : A → M Machine (Unit {0}))
      → ((a : A) (t : IStream) → StaysIn start size s (k a (record s { stream = t })))
      → StaysIn start size s (and_then (r.0, record s { stream = r.1 }) k)
  behind_result s (none, t) k h = untouched s.memory
  behind_result s (some a, t) k h = h a t

  pub behind_stream {ℓ} :
      {A : Type ℓ} (s : Machine) (f : M IStream A) (k : A → M Machine (Unit {0}))
      → ((a : A) (t : IStream) → StaysIn start size s (k a (record s { stream = t })))
      → StaysIn start size s (and_then (on_stream f s) k)
  behind_stream s f k h = behind_result s (f s.stream) k h

  check_clamped-memory :
      (clamped value : ℕ) (s : Machine) → (check_clamped clamped value s).1.memory ≡ s.memory
  check_clamped-memory clamped value s = elim (Bool-cases (clamped == value)) [
    | inl same ↦ rw same refl
    | inr other ↦ rw other refl
  ]

  checked_in :
      (clamped value : ℕ) (s t : Machine)
      → SameOutside start size s.memory t.memory
      → StaysIn start size s (check_clamped clamped value t)
  checked_in clamped value s t h =
      subst (SameOutside start size s.memory) (sym (check_clamped-memory clamped value t)) h

  pub store_signed-StaysIn :
      (svalue : ℕ) (s : Machine) → StaysIn start size s (store_signed size start svalue s)
  unfolding store_signed
  store_signed-StaysIn svalue s =
      branch s (is_int_size size) _ _
        (λ _. checked_in _ svalue s _ (number_in start size svalue s (omega arith) (omega arith)))
        (λ _. untouched s.memory)

  pub store_unsigned-StaysIn :
      (value : ℕ) (s : Machine) → StaysIn start size s (store_unsigned size start value s)
  unfolding store_unsigned
  store_unsigned-StaysIn value s =
      branch s (is_int_size size) _ _
        (λ _. checked_in _ value s _ (number_in start size value s (omega arith) (omega arith)))
        (λ _. untouched s.memory)

  stored-StaysIn :
      (target count : ℕ) (r : Option (List ℕ) × IStream) (s : Machine)
      → start ≤ target
      → target + count ≤ start + size
      → StaysIn start size s (stored target count r s)
  unfolding stored
  stored-StaysIn target count (none, t) s low high = untouched s.memory
  stored-StaysIn target count (some bytes, t) s low high =
      stored_in target (take count bytes) s low (omega (arith, length-take_le count bytes))

  pub read_to-StaysIn :
      (target count : ℕ) (s : Machine)
      → start ≤ target
      → target + count ≤ start + size
      → StaysIn start size s (read_to target count s)
  unfolding read_to
  read_to-StaysIn target count s low high =
      stored-StaysIn target count (pb_read dest count s.stream) s low high

  SameOutside-trans :
      (before between after : Memory)
      → SameOutside start size before between
      → SameOutside start size between after
      → SameOutside start size before after
  SameOutside-trans before between after h k a out = k a out ∙ h a out

  pub read_string-StaysIn :
      (count : ℕ) (s : Machine)
      → count + 1 ≤ size
      → StaysIn start size s (read_string start count s)
  unfolding read_string terminate
  read_string-StaysIn count s room =
      let t = (read_to start count s).1 in
      SameOutside-trans s.memory t.memory _
        (read_to-StaysIn start count s (omega arith) (omega arith))
        (stored_in (start + count) (0 ∷ []) t (omega arith) (omega arith))

  pub read_bytes_array-StaysIn :
      (count : ℕ) (s : Machine)
      → count + 4 ≤ size
      → StaysIn start size s (read_bytes_array start count s)
  unfolding read_bytes_array
  read_bytes_array-StaysIn count s room =
      let t = put_bytes start (to_bytes 4 count) s in
      SameOutside-trans s.memory t.memory _ (number_in start 4 count s (omega arith) (omega arith))
        (read_to-StaysIn (start + 4) count t (omega arith) (omega arith))
