-- ===== src/Nanopb/Memory.antt =====
-- AppChat_Again/Pods/nanopb: the memory that the fields of a structure stand in, byte by byte, and
-- what the field decoders work on: a stream and that memory.
use app_chat_again.Prelude.{
  refl, ◌∙◌, arith, length, ◌⊎◌, ℕ, zero, suc, ◌+◌, ◌≤◌, ◌<◌, ◌≡◌, List, [], ◌∷◌, ◌==◌,
  if◌then◌else◌, M,
}
use app_chat_again.Nanopb.IStream.{IStream}

-- The byte at an address; 0 is NULL.
abbrev pub Memory : Type 0
Memory = ℕ → ℕ

abbrev pub store_byte : ℕ → ℕ → Memory → Memory
store_byte address byte memory a = if a == address then byte else memory a

unfoldable pub store_bytes : ℕ → List ℕ → Memory → Memory
store_bytes address [] memory = memory
store_bytes address (byte ∷ bytes) memory =
    store_bytes (address + 1) bytes (store_byte address byte memory)

unfoldable pub load_bytes : ℕ → ℕ → Memory → List ℕ
load_bytes zero address memory = []
load_bytes (suc count) address memory = memory address ∷ load_bytes count (address + 1) memory

pub record Machine : Type 0 where
  pub stream : IStream
  pub memory : Memory

-- A function that only works on the stream.
abbrev pub on_stream {ℓ} : {A : Type ℓ} → M IStream A → M Machine A
on_stream f s = let (result, stream) = f s.stream in (result, record s { stream = stream })

abbrev pub put_bytes : ℕ → List ℕ → Machine → Machine
put_bytes address bytes s = record s { memory = store_bytes address bytes s.memory }

-- The bytes outside a region are what they were.
abbrev pub SameOutside : ℕ → ℕ → Memory → Memory → Type 0
SameOutside start size before after =
    (a : ℕ) → (a < start) ⊎ (start + size ≤ a) → after a ≡ before a

pub store_bytes-SameOutside :
    (address : ℕ) (bytes : List ℕ) (start size : ℕ) (memory : Memory)
    → start ≤ address
    → address + length bytes ≤ start + size
    → SameOutside start size memory (store_bytes address bytes memory)
unfolding store_bytes
store_bytes-SameOutside address [] start size memory low high a out = refl
store_bytes-SameOutside address (byte ∷ bytes) start size memory low high a out =
    store_bytes-SameOutside (address + 1) bytes start size (store_byte address byte memory)
      (omega arith) (omega arith) a out
    ∙ ground arith
