-- ===== src/Nanopb/RoundTrip/Strings.antt =====
-- AppChat_Again/Pods/nanopb: the strings of static fields, from memory to the stream by pb_enc_string
-- and back by pb_dec_string.
use app_chat_again.Nanopb.Decode.Varint32.{pb_decode_varint32-value}
use app_chat_again.Nanopb.RoundTrip.Fields.{pb_encode_string-writer}
use app_chat_again.Prelude.Words.{u32}
use app_chat_again.Prelude.{
  length-append, and_then, lt→ltb, ◌∙◌, le→ltb, append_assoc, inl, Bool, ◌-◌, some, ◌++◌, ◌≤◌, ◌^◌,
  subst, Option, true, zero, ap, false, ◌==◌, suc, refl, [], arith, ap₂, ◌≢◌, ◌<◌, ◌∷◌, ◌≡◌, All,
  length, ◌+◌, ℕ, List,
}
use app_chat_again.Nanopb.Memory.{
  Memory, Machine, store_bytes, load_bytes, store_byte, store_bytes-SameOutside,
}
use app_chat_again.Nanopb.FieldEncoders.{pb_enc_string, string_size}
use app_chat_again.Nanopb.FieldDecoders.{
  pb_dec_string, string_of_size, read_string, read_to, stored, terminate,
}
use app_chat_again.Nanopb.IStream.{dest}
use app_chat_again.Nanopb.IStream.Buffer.{read-append, reader}
use app_chat_again.Nanopb.OStream.Buffer.{take-length, writer}
use app_chat_again.Nanopb.Types.{Message, Field, pb_atype}
use app_chat_again.Nanopb.Types.Atype
use app_chat_again.Nanopb.Varint.{value-varint, varint-IsVarint, length-varint_lt, varint}

-- The characters at an address, and the terminator behind them.
abbrev pub StringAt : List ℕ → ℕ → Memory → Type 0
StringAt [] p memory = memory p ≡ 0
StringAt (c ∷ chars) p memory = (memory p ≡ c) × (c ≢ 0) × StringAt chars (p + 1) memory

stop : (b : Bool) (n : ℕ) → b ≡ true → elim b [ true ↦ 0 | false ↦ n ] ≡ 0
stop true n h = refl
stop false n h = absurd (ground arith)

go_on : (b : Bool) (n : ℕ) → b ≡ false → elim b [ true ↦ 0 | false ↦ n ] ≡ n
go_on true n h = absurd (ground arith)
go_on false n h = refl

string_size-StringAt :
    (chars : List ℕ) (left p : ℕ) (memory : Memory)
    → StringAt chars p memory
    → length chars < left
    → string_size left p memory ≡ length chars
unfolding string_size
string_size-StringAt chars zero p memory h l = absurd (omega arith)
string_size-StringAt [] (suc left) p memory h l = stop (memory p == 0) _ (ground arith)
string_size-StringAt (c ∷ chars) (suc left) p memory (at, nonzero, h) l =
    go_on (memory p == 0) _ (ground arith)
    ∙ ap suc (string_size-StringAt chars left (p + 1) memory h (omega arith))

load_bytes-StringAt :
    (chars : List ℕ) (p : ℕ) (memory : Memory)
    → StringAt chars p memory
    → load_bytes (length chars) p memory ≡ chars
unfolding load_bytes
load_bytes-StringAt [] p memory h = refl
load_bytes-StringAt (c ∷ chars) p memory (at, nonzero, h) =
    ap₂ (λ x xs. x ∷ xs) at (load_bytes-StringAt chars (p + 1) memory h)

-- What pb_dec_string leaves in the memory.
abbrev string_stored : List ℕ → ℕ → Memory → Memory
string_stored chars p memory = store_byte (p + length chars) 0 (store_bytes p chars memory)

string_stored-StringAt :
    (chars : List ℕ) (p : ℕ) (memory : Memory)
    → All (λ c. c ≢ 0) chars
    → StringAt chars p (string_stored chars p memory)
unfolding store_bytes
string_stored-StringAt [] p memory h = let same : (p == p + 0) ≡ true = ground arith in rw same refl
string_stored-StringAt (c ∷ chars) p memory (nonzero, h) = (
  (let other : (p == p + suc (length chars)) ≡ false = ground arith in
      let same : (p == p) ≡ true = ground arith in
      rw other (
        store_bytes-SameOutside (p + 1) chars (p + 1) (length chars) (store_byte p c memory)
          (omega arith) (omega arith) p (inl (omega arith))
        ∙ rw same refl)),
  nonzero,
  subst
      (λ i.
        StringAt chars (p + 1) (store_byte i 0 (store_bytes (p + 1) chars (store_byte p c memory))))
      (omega arith) (string_stored-StringAt chars (p + 1) (store_byte p c memory) h),
)

ne→== : (a b : ℕ) → a ≢ b → (a == b) ≡ false
ne→== a b h = ground arith

StringAt-All :
    (chars : List ℕ) (p : ℕ) (memory : Memory) → StringAt chars p memory → All (λ c. c ≢ 0) chars
StringAt-All [] p memory h = tt
StringAt-All (c ∷ chars) p memory (at, nonzero, h) = (nonzero, StringAt-All chars (p + 1) memory h)

module _ (field : Field) (static : pb_atype field.type ≢ Atype.pointer) (err : Option Message) where
  enc_string-StringAt :
      (chars out : List ℕ) (src max written : ℕ) (memory : Memory)
      → 0 < src
      → StringAt chars src memory
      → length chars < field.data_size
      → field.data_size < 2 ^ 32
      → written + 5 + length chars ≤ max
      → max < 2 ^ 64
      → (let bytes = varint 9 (length chars) ++ chars in
          pb_enc_string field src memory (writer out max written err)
          ≡ (some tt, writer (out ++ bytes) max (written + length bytes) err))
  unfolding pb_enc_string
  enc_string-StringAt chars out src max written memory pos h fits small room m =
      let written_string = pb_encode_string-writer chars out max written err (omega arith) room m in
      rw
        (
          ne→== src 0 (omega arith),
          ne→== (pb_atype field.type) Atype.pointer static,
          string_size-StringAt chars field.data_size src memory h fits,
          load_bytes-StringAt chars src memory h,
        )
        (written_string.0)

  string_of_size-fits :
      (pb_realloc : ℕ → ℕ → Memory → ℕ × Memory) (size target : ℕ) (s : Machine)
      → size < field.data_size
      → field.data_size < 2 ^ 32
      → string_of_size pb_realloc field target size s ≡ read_string target size s
  unfolding string_of_size
  string_of_size-fits pb_realloc size target s fits small =
      let exact : u32 (size + 1) ≡ size + 1 = omega arith in
      rw (
        exact,
        le→ltb (size + 1) size (omega arith),
        ne→== (pb_atype field.type) Atype.pointer static,
        le→ltb field.data_size (size + 1) (omega arith),
      )

  read_string-body :
      (chars input : List ℕ) (target left : ℕ) (memory : Memory)
      → length chars ≤ left
      → read_string target
          (length chars)
          (record { stream = reader (chars ++ input) left err; memory = memory })
        ≡ (
          some tt,
          record {
            stream = reader input (left - length chars) err;
            memory = string_stored chars target memory;
          },
        )
  unfolding read_string read_to stored terminate store_bytes
  read_string-body chars input target left memory room =
      rw (read-append dest chars input left err room, take-length chars) refl

  dec_string-body :
      (pb_realloc : ℕ → ℕ → Memory → ℕ × Memory) (chars input : List ℕ) (target left : ℕ)
      (memory : Memory)
      → length chars < field.data_size
      → field.data_size < 2 ^ 32
      → 5 + length chars ≤ left
      → (let bytes = varint 9 (length chars) ++ chars in
          pb_dec_string pb_realloc field target
            (record { stream = reader (bytes ++ input) left err; memory = memory })
          ≡ (
            some tt,
            record {
              stream = reader input (left - length bytes) err;
              memory = string_stored chars target memory;
            },
          ))
  unfolding pb_dec_string
  dec_string-body pb_realloc chars input target left memory fits small room =
      let bytes = varint 9 (length chars) in
      let short = length-varint_lt 4 9 (length chars) (omega arith) in
      rw
        (
          append_assoc bytes chars input,
          pb_decode_varint32-value bytes (chars ++ input) left err
              (varint-IsVarint 9 (length chars) (omega arith)) short (omega (arith, short)),
          value-varint 9 (length chars) (omega arith),
          lt→ltb (length chars) (2 ^ 32) (omega arith),
          and_then,
          string_of_size-fits pb_realloc (length chars) target
              (record {
                stream = reader (chars ++ input) (left - length bytes) err;
                memory = memory;
              })
              fits small,
          read_string-body chars input target (left - length bytes) memory (omega (arith, short)),
        )
        (ap
          (λ n. (
            some tt,
            record { stream = reader input n err; memory = string_stored chars target memory },
          ))
          (omega (arith, length-append bytes chars)))

-- A string in a static field is written by pb_enc_string as the varint of its length and its
-- characters, and read back by pb_dec_string: where the stream has room for it and the field's size is
-- below 2 ^ 32 and leaves a place for the terminator, the same string stands, terminated, at the
-- target, and the stream is behind what was written.
pub string_field_round_trip :
    (pb_realloc : ℕ → ℕ → Memory → ℕ × Memory) (field : Field) (chars : List ℕ) (src target : ℕ)
    (before memory : Memory) (out input : List ℕ) (max written left : ℕ) (err : Option Message)
    → pb_atype field.type ≢ Atype.pointer
    → 0 < src
    → StringAt chars src before
    → length chars < field.data_size
    → field.data_size < 2 ^ 32
    → written + 5 + length chars ≤ max
    → max < 2 ^ 64
    → 5 + length chars ≤ left
    → (after : Memory) × (let bytes = varint 9 (length chars) ++ chars in
        (pb_enc_string field src before (writer out max written err)
          ≡ (some tt, writer (out ++ bytes) max (written + length bytes) err))
        × (pb_dec_string pb_realloc field target
              (record { stream = reader (bytes ++ input) left err; memory = memory })
            ≡ (some tt, record { stream = reader input (left - length bytes) err; memory = after }))
        × StringAt chars target after)
string_field_round_trip pb_realloc field chars src target before memory out input max written left
      err static pos h fits small room m enough =
    (
      string_stored chars target memory,
      (
        enc_string-StringAt field static err chars out src max written before pos h fits small room
            m,
        dec_string-body field static err pb_realloc chars input target left memory fits small
            enough,
        string_stored-StringAt chars target memory (StringAt-All chars src before h),
      ),
    )
