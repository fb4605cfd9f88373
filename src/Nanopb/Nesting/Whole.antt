-- ===== src/Nanopb/Nesting/Whole.antt =====
-- AppChat_Again/Pods/nanopb/pb_decode.c: pb_decode and its variants come back on nested
-- messages, whatever the input.
use app_chat_again.Prelude.Words.{u32}
use app_chat_again.Nanopb.IStream.{IStream}
use app_chat_again.Nanopb.MessageDecoder.Required.{req_field_count, all_seen}
use app_chat_again.Nanopb.FieldIter.{current, Iter, pb_field_iter_begin}
use app_chat_again.Nanopb.Run.{carry_on, Run}
use app_chat_again.Nanopb.Types.{Field}
use app_chat_again.Nanopb.Decode.{pb_decode_tag, tag_from, pb_decode_varint32_eof}
use app_chat_again.Prelude.{
  ◌/◌, if◌then◌else◌, bit_and, false, true, Bool, ◌==◌, refl, zero, arith, ◌+◌, ◌^◌, ◌<◌, none,
  some, List, Option, ℕ, suc,
}
use app_chat_again.Nanopb.Memory.{Machine}
use app_chat_again.Nanopb.Host.{Host}
use app_chat_again.Nanopb.Nesting.{IsMember, IsNested, current-IsMember}
use app_chat_again.Nanopb.Nesting.Answers.{Answers, carry_on-Answers, test-Answers, choice-Answers}
use app_chat_again.Nanopb.Nesting.Defaults.{pb_message_set_to_defaults-Answers}
use app_chat_again.Nanopb.Nesting.Release.{pb_release-Answers, release_single-Answers}
use app_chat_again.Nanopb.Nesting.Limit.{without_eof, Eats, pb_decode_tag-Eats}
use app_chat_again.Nanopb.Nesting.Endings.{Ends-Answers, open_substream-Ends, close_after-Ends}
use app_chat_again.Nanopb.MessageDecoder.Steps.{open_substream, within}
use app_chat_again.Nanopb.Nesting.Kept.{kept-Answers}
use app_chat_again.Nanopb.Nesting.Decoders.{Callees, decode_with-Answers}
use app_chat_again.Nanopb.Nesting.AnyField.{Over}
use app_chat_again.Nanopb.Nesting.Fields.{Walks, decode_one-Keeps}
use app_chat_again.Nanopb.MessageDecoder.{
  Progress, tag_or_break, is_unfinished, decode_loop, check_complete, decode_body, first_progress,
  pb_decode_noinit, pb_decode, pb_decode_delimited, pb_decode_delimited_noinit,
  pb_decode_nullterminated,
}

-- A tag has 29 bits, and takes a byte at least.
abbrev HasTag : ℕ → Option (Option (Option (ℕ × ℕ)) × Machine) → Type 0
HasTag left none = ⊥
HasTag left (some (none, s)) = Unit
HasTag left (some (some none, s)) = Unit
HasTag left (some (some (some (wire_type, tag)), s)) = (s.stream.bytes_left < left) × (tag < 2 ^ 29)

test-HasTag :
    (b : Bool) (left wire_type temp : ℕ) (stream : IStream) (eof : Bool) (s : Machine)
    → (let r : Option (ℕ × ℕ) × IStream × Bool =
          (if b then (none, stream, true) else (some (wire_type, u32 temp / 2 ^ 3), stream, eof)) in
        Eats 1 left (without_eof r) → HasTag left (tag_or_break r s))
unfolding tag_or_break
test-HasTag true left wire_type temp stream eof s h = tt
test-HasTag false left wire_type temp stream eof s h = (omega arith, omega arith)

tag_from-HasTag :
    (left : ℕ) (r : Option ℕ × IStream × Bool) (s : Machine)
    → Eats 1 left (without_eof (tag_from r))
    → HasTag left (tag_or_break (tag_from r) s)
unfolding tag_or_break tag_from
tag_from-HasTag left (none, stream, true) s h = tt
tag_from-HasTag left (none, stream, false) s h = tt
tag_from-HasTag left (some temp, stream, eof) s h =
    test-HasTag (temp == 0) left (bit_and temp 7) temp stream eof s h

tag-HasTag : (s : Machine) → HasTag s.stream.bytes_left (tag_or_break (pb_decode_tag s.stream) s)
unfolding pb_decode_tag
tag-HasTag s =
    tag_from-HasTag s.stream.bytes_left (pb_decode_varint32_eof s.stream) s
      (pb_decode_tag-Eats s.stream)

behind_tag-Answers {ℓ} :
    {B : Type ℓ} (left : ℕ) (r : Option (Option (Option (ℕ × ℕ)) × Machine))
    (k : Option (ℕ × ℕ) → Run Machine B)
    → HasTag left r
    → ((s : Machine) → Answers (k none s))
    → ((wire_type tag : ℕ) (s : Machine)
        → s.stream.bytes_left < left
        → tag < 2 ^ 29
        → Answers (k (some (wire_type, tag)) s))
    → Answers (carry_on r k)
behind_tag-Answers left none k h g f = h
behind_tag-Answers left (some (none, s)) k h g f = tt
behind_tag-Answers left (some (some none, s)) k h g f = g s
behind_tag-Answers left (some (some (some (wire_type, tag)), s)) k (less, bound) g f =
    f wire_type tag s less bound

module _ (host : Host) (fuel : ℕ) (noinit : List Field → ℕ → Run Machine (Unit {0}))
    (P : List Field → Type 0) (callees : Callees host fuel noinit P) (fields : List Field)
    (members : (iter : Iter) → Over fields iter → IsMember P host (current iter)) where
  decode_loop-Answers :
      (rounds : ℕ) (progress : Progress) (s : Machine)
      → s.stream.bytes_left < rounds
      → Walks fields progress
      → Answers (decode_loop host fuel noinit rounds progress s)
  unfolding decode_loop
  decode_loop-Answers zero progress s enough over = absurd (omega arith)
  decode_loop-Answers (suc rounds) progress s enough over =
      test-Answers (s.stream.bytes_left == 0) _ _ (λ _. tt)
        λ _.
          behind_tag-Answers s.stream.bytes_left (tag_or_break (pb_decode_tag s.stream) s) _
            (tag-HasTag s) (λ s'. tt)
            λ wire_type tag s' less bound.
              kept-Answers (Walks fields) s'.stream.bytes_left _ _
                (decode_one-Keeps host fuel noinit P callees fields members wire_type tag progress
                  s' bound over)
                λ progress' s'' le kept. decode_loop-Answers rounds progress' s'' (omega arith) kept

  check_complete-Answers :
      (progress : Progress) (s : Machine) → Answers (check_complete host fuel noinit progress s)
  unfolding check_complete
  check_complete-Answers progress s =
      choice-Answers (is_unfinished host fuel noinit progress s.memory) _ _ s (λ _. tt)
        λ _.
          choice-Answers (all_seen (req_field_count progress.iter) progress.fields_seen) _ _ s
            (λ _. tt) (λ _. tt)

  decode_body-Answers :
      (dest_struct : ℕ) (s : Machine) → Answers (decode_body host fuel noinit fields dest_struct s)
  unfolding decode_body pb_field_iter_begin
  decode_body-Answers dest_struct s =
      carry_on-Answers _ _
        (decode_loop-Answers (s.stream.bytes_left + 1)
          (first_progress host fuel noinit fields dest_struct) _ (omega arith) refl)
        (λ progress s'. check_complete-Answers progress s')

module _ (host : Host) where
  IsNested-Callees :
      (depth fuel : ℕ)
      → depth < fuel
      → ((fields : List Field) (dest_struct : ℕ) (s : Machine)
          → IsNested host depth fields
          → Answers (pb_decode_noinit host fuel fields dest_struct s))
      → Callees host fuel (pb_decode_noinit host fuel) (IsNested host depth)
  IsNested-Callees depth fuel less inner = record {
    defaults = λ fields dest_struct memory.
        pb_message_set_to_defaults-Answers host depth fuel fields dest_struct memory (omega arith);
    released = λ fields dest_struct memory.
        pb_release-Answers host depth fuel fields dest_struct memory (omega arith);
    released_single = λ iter memory. release_single-Answers host depth fuel iter memory less;
    inner = inner;
  }

  pb_decode_noinit-Answers :
      (depth fuel : ℕ) (fields : List Field) (dest_struct : ℕ) (s : Machine)
      → depth < fuel
      → IsNested host depth fields
      → Answers (pb_decode_noinit host fuel fields dest_struct s)
  unfolding pb_decode_noinit
  pb_decode_noinit-Answers zero fuel fields dest_struct s less nested = absurd nested
  pb_decode_noinit-Answers (suc depth) zero fields dest_struct s less nested = absurd (omega arith)
  pb_decode_noinit-Answers (suc depth) (suc fuel) fields dest_struct s less nested =
      decode_body-Answers host fuel (pb_decode_noinit host fuel) (IsNested host depth)
        (IsNested-Callees depth fuel (omega arith) (λ fields' dest s' inner.
          pb_decode_noinit-Answers depth fuel fields' dest s' (omega arith) inner))
        fields (λ iter over. current-IsMember host depth fields iter nested over) dest_struct s

  pb_decode-Answers :
      (depth fuel : ℕ) (fields : List Field) (dest_struct : ℕ) (s : Machine)
      → depth < fuel
      → IsNested host depth fields
      → Answers (pb_decode host fuel fields dest_struct s)
  unfolding pb_decode
  pb_decode-Answers depth fuel fields dest_struct s less nested =
      decode_with-Answers host fuel (pb_decode_noinit host fuel) (IsNested host depth)
        (IsNested-Callees depth fuel less
          (λ fields' dest s' inner. pb_decode_noinit-Answers depth fuel fields' dest s' less inner))
        fields dest_struct s nested

  delimited-Answers :
      (body : Run Machine (Unit {0})) (s : Machine)
      → ((s' : Machine) → Answers (body s'))
      → Answers (carry_on (open_substream s) (λ sub. within sub body))
  unfolding within
  delimited-Answers body s h =
      carry_on-Answers (open_substream s) _
        (Ends-Answers 0 s.stream.bytes_left (open_substream s) (open_substream-Ends s))
        (λ sub s'. Ends-Answers 0 s'.stream.bytes_left _ (
          close_after-Ends s'.stream (body (record s' { stream = sub }))
            (h (record s' { stream = sub }))))

  -- On a message of static and pointer fields, without extensions and callbacks, whose submessages are
  -- such messages and which is nested less than `depth` deep, with fuel above `depth`, pb_decode,
  -- pb_decode_noinit, their delimited forms and the null-terminated one come back, whatever the stream,
  -- its callback or its buffer, and the memory hold.
  pub decoders-Answers :
      (depth fuel : ℕ) (fields : List Field) (dest_struct : ℕ) (s : Machine)
      → depth < fuel
      → IsNested host depth fields
      → Answers (pb_decode host fuel fields dest_struct s)
        × Answers (pb_decode_noinit host fuel fields dest_struct s)
        × Answers (pb_decode_delimited host fuel fields dest_struct s)
        × Answers (pb_decode_delimited_noinit host fuel fields dest_struct s)
        × Answers (pb_decode_nullterminated host fuel fields dest_struct s)
  unfolding pb_decode_delimited pb_decode_delimited_noinit pb_decode_nullterminated
  decoders-Answers depth fuel fields dest_struct s less nested =
      let whole =
        λ (s' : Machine). pb_decode-Answers depth fuel fields dest_struct s' less nested in
      let noinit =
        λ (s' : Machine). pb_decode_noinit-Answers depth fuel fields dest_struct s' less nested in
      (
        whole s,
        noinit s,
        delimited-Answers (pb_decode host fuel fields dest_struct) s whole,
        delimited-Answers (pb_decode_noinit host fuel fields dest_struct) s noinit,
        whole s,
      )
