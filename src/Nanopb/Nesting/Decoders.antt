-- ===== src/Nanopb/Nesting/Decoders.antt =====
-- AppChat_Again/Pods/nanopb/pb_decode.c: the table PB_DECODERS for members of a nested message: each
-- decoder comes back.
use app_chat_again.Nanopb.FieldIter.{current, Iter}
use app_chat_again.Nanopb.FieldDecoders.{
  pb_dec_fixed64, pb_dec_fixed32, pb_dec_svarint, pb_dec_uvarint, pb_dec_varint,
}
use app_chat_again.Nanopb.Release.{pb_release_single_field, pb_release}
use app_chat_again.Nanopb.Defaults.{pb_message_set_to_defaults}
use app_chat_again.Nanopb.Types.{pb_htype, pb_ltype, Field}
use app_chat_again.Nanopb.Memory.{Memory, Machine}
use app_chat_again.Prelude.{
  false, ◌≤◌, if◌then◌else◌, ◌⊎◌, none, true, some, ◌≡◌, Option, ◌==◌, arith, leb, List, ℕ, inl,
  inr,
}
use app_chat_again.Nanopb.Host.{Host}
use app_chat_again.Nanopb.Types.Ltype
use app_chat_again.Nanopb.Types.Htype
use app_chat_again.Nanopb.Nesting.{IsMember, IsScalar}
use app_chat_again.Nanopb.Nesting.Answers.{choice-Answers, Answers, carry_on-Answers}
use app_chat_again.Nanopb.Nesting.Defaults.{nested_of}
use app_chat_again.Nanopb.Nesting.Numbers.{
  weaken-Leaves, pb_dec_varint-Leaves, pb_dec_uvarint-Leaves, pb_dec_svarint-Leaves,
  pb_dec_fixed32-Leaves, pb_dec_fixed64-Leaves,
}
use app_chat_again.Nanopb.Nesting.Strings.{
  pb_dec_bytes-Leaves, pb_dec_string-Leaves, pb_dec_fixed_length_bytes-Leaves,
}
use app_chat_again.Nanopb.Nesting.Endings.{
  Ends, Ends-Answers, then-Ends, choice-Ends, on_memory-Ends, open_substream-Ends, close_after-Ends,
}
use app_chat_again.Nanopb.MessageDecoder.Steps.{
  on_memory, open_substream, within, decode_with, release_failed,
}
use app_chat_again.Nanopb.MessageDecoder.StaticField.{decoder_of, pb_dec_submessage}
use app_chat_again.Nanopb.Run.{Run, ended}

-- The first five entries of the table.
abbrev numbers : ℕ → Field → ℕ → Run Machine (Unit {0}) → Run Machine (Unit {0})
numbers ltype f target rest =
    if ltype == Ltype.varint
    then ended (pb_dec_varint f target)
    else if ltype == Ltype.uvarint
    then ended (pb_dec_uvarint f target)
    else if ltype == Ltype.svarint
    then ended (pb_dec_svarint f target)
    else if ltype == Ltype.fixed32
    then ended (pb_dec_fixed32 f target)
    else if ltype == Ltype.fixed64
    then ended (pb_dec_fixed64 f target)
    else rest

numbers-Ends :
    (count ltype : ℕ) (f : Field) (target : ℕ) (rest : Run Machine (Unit {0})) (s : Machine)
    → count ≤ 1
    → (leb ltype Ltype.last_packable ≡ false → Ends count s.stream.bytes_left (rest s))
    → Ends count s.stream.bytes_left (numbers ltype f target rest s)
numbers-Ends count l f target rest s le h =
    let left = s.stream.bytes_left in
    let weaken = λ (r : Option (Unit {0}) × Machine). weaken-Leaves 1 count left r le in
    choice-Ends count left (l == Ltype.varint) _ _ s
      (λ _. weaken (pb_dec_varint f target s) (pb_dec_varint-Leaves f target s))
      λ n0.
        choice-Ends count left (l == Ltype.uvarint) _ _ s
          (λ _. weaken (pb_dec_uvarint f target s) (pb_dec_uvarint-Leaves f target s))
          λ n1.
            choice-Ends count left (l == Ltype.svarint) _ _ s
              (λ _. weaken (pb_dec_svarint f target s) (pb_dec_svarint-Leaves f target s))
              λ n2.
                choice-Ends count left (l == Ltype.fixed32) _ _ s
                  (λ _. weaken (pb_dec_fixed32 f target s) (pb_dec_fixed32-Leaves f target s))
                  λ n3.
                    choice-Ends count left (l == Ltype.fixed64) _ _ s
                      (λ _. weaken (pb_dec_fixed64 f target s) (pb_dec_fixed64-Leaves f target s))
                      λ n4. h (ground arith)

pub no_other :
    (P : List Field → Type 0) (host : Host) (f : Field)
    → IsScalar f ⊎ ((pb_ltype f.type ≡ Ltype.submessage) × P (host.fields_at f.ptr))
    → leb (pb_ltype f.type) Ltype.last_packable ≡ false
    → (pb_ltype f.type == Ltype.bytes) ≡ false
    → (pb_ltype f.type == Ltype.string) ≡ false
    → (pb_ltype f.type == Ltype.submessage) ≡ false
    → (pb_ltype f.type == Ltype.fixed_length_bytes) ≡ false
    → ⊥
no_other P host f (inl (inl lower)) n0 n1 n2 n3 n4 = ground arith
no_other P host f (inl (inr fixed)) n0 n1 n2 n3 n4 = ground arith
no_other P host f (inr (is_sub, nested)) n0 n1 n2 n3 n4 = ground arith

-- What comes back on the messages of `P`: what the decoders of members call.
pub record Callees (host : Host) (fuel : ℕ) (noinit : List Field → ℕ → Run Machine (Unit {0}))
    (P : List Field → Type 0) : Type 0 where
  pub defaults :
      (fields : List Field) (dest_struct : ℕ) (memory : Memory)
      → P fields
      → Answers (pb_message_set_to_defaults host fuel fields dest_struct memory)
  pub released :
      (fields : List Field) (dest_struct : ℕ) (memory : Memory)
      → P fields
      → Answers (pb_release host fuel fields dest_struct memory)
  pub released_single :
      (iter : Iter) (memory : Memory)
      → IsMember P host (current iter)
      → Answers (pb_release_single_field host fuel iter memory)
  pub inner :
      (fields : List Field) (dest_struct : ℕ) (s : Machine)
      → P fields
      → Answers (noinit fields dest_struct s)

module _ (host : Host) (fuel : ℕ) (noinit : List Field → ℕ → Run Machine (Unit {0}))
    (P : List Field → Type 0) (callees : Callees host fuel noinit P) where
  release_failed-Answers :
      (fields : List Field) (dest_struct : ℕ) (r : Option (Option (Unit {0}) × Machine))
      → P fields
      → Answers r
      → Answers (release_failed host fuel fields dest_struct r)
  unfolding release_failed
  release_failed-Answers fields dest_struct none nested h = h
  release_failed-Answers fields dest_struct (some (some a, s)) nested h = tt
  release_failed-Answers fields dest_struct (some (none, s)) nested h =
      carry_on-Answers (on_memory (pb_release host fuel fields dest_struct) s) _
        (Ends-Answers 0 s.stream.bytes_left _ (
          on_memory-Ends (pb_release host fuel fields dest_struct) s
            (callees.released fields dest_struct s.memory nested)))
        (λ a s'. tt)

  pub decode_with-Answers :
      (fields : List Field) (dest_struct : ℕ) (s : Machine)
      → P fields
      → Answers (decode_with host fuel noinit fields dest_struct s)
  unfolding decode_with
  decode_with-Answers fields dest_struct s nested =
      carry_on-Answers (on_memory (pb_message_set_to_defaults host fuel fields dest_struct) s) _
        (Ends-Answers 0 s.stream.bytes_left _ (
          on_memory-Ends (pb_message_set_to_defaults host fuel fields dest_struct) s
            (callees.defaults fields dest_struct s.memory nested)))
        (λ a s'.
          release_failed-Answers fields dest_struct _ nested
            (callees.inner fields dest_struct s' nested))

  pb_dec_submessage-Ends :
      (f : Field) (target : ℕ) (s : Machine)
      → P (host.fields_at f.ptr)
      → Ends 0 s.stream.bytes_left (pb_dec_submessage host fuel noinit f target s)
  unfolding pb_dec_submessage within
  pb_dec_submessage-Ends f target s nested =
      then-Ends 0 0 s.stream.bytes_left (open_substream s) _ (open_substream-Ends s) λ sub s'.
        choice-Ends 0 s'.stream.bytes_left (f.ptr == 0) _ _ s' (λ _. omega arith)
          λ _. close_after-Ends s'.stream _ (
            choice-Answers (pb_htype f.type == Htype.repeated) _ _ (record s' { stream = sub })
              (λ _. decode_with-Answers (host.fields_at f.ptr) target _ nested)
              (λ _. callees.inner (host.fields_at f.ptr) target _ nested))

  pub decoder_of-Ends :
      (f : Field) (target : ℕ) (s : Machine)
      → IsMember P host f
      → Ends 0 s.stream.bytes_left (decoder_of host fuel noinit (pb_ltype f.type) f target s)
  unfolding decoder_of
  decoder_of-Ends f target s (stored, kind) =
      let left = s.stream.bytes_left in
      let l = pb_ltype f.type in
      numbers-Ends 0 l f target _ s (omega arith) λ behind.
        choice-Ends 0 left (l == Ltype.bytes) _ _ s
          (λ _. pb_dec_bytes-Leaves host.pb_realloc f target s)
          λ no_bytes.
            choice-Ends 0 left (l == Ltype.string) _ _ s
              (λ _. pb_dec_string-Leaves host.pb_realloc f target s)
              λ no_string.
                choice-Ends 0 left (l == Ltype.submessage) _ _ s
                  (λ is_sub. pb_dec_submessage-Ends f target s (nested_of P host f kind is_sub))
                  λ no_sub.
                    choice-Ends 0 left (l == Ltype.fixed_length_bytes) _ _ s
                      (λ _. pb_dec_fixed_length_bytes-Leaves f target s)
                      λ no_fixed.
                        absurd (no_other P host f kind behind no_bytes no_string no_sub no_fixed)

  pub number-Ends :
      (f : Field) (target : ℕ) (s : Machine)
      → leb (pb_ltype f.type) Ltype.last_packable ≡ true
      → Ends 1 s.stream.bytes_left (decoder_of host fuel noinit (pb_ltype f.type) f target s)
  unfolding decoder_of
  number-Ends f target s packable =
      numbers-Ends 1 (pb_ltype f.type) f target _ s (omega arith) (λ behind. absurd (ground arith))
