-- ===== src/Nanopb/Nesting/PointerField.antt =====
-- AppChat_Again/Pods/nanopb/pb_decode.c: decoding a pointer field of a nested message comes back.
use app_chat_again.Nanopb.FieldDecoders.{load_pointer}
use app_chat_again.Nanopb.Release.{pb_release_single_field, is_text}
use app_chat_again.Nanopb.FieldIter.{pb_size_max, current, Iter}
use app_chat_again.Nanopb.Types.{pb_htype, pb_ltype, too_many_array_entries, Field}
use app_chat_again.Nanopb.Memory.{Memory, Machine}
use app_chat_again.Prelude.{
  false, true, ltb, ◌&&◌, not, zero, ◌==◌, arith, none, ◌<◌, ◌+◌, some, Bool, List, ℕ, Option, suc,
}
use app_chat_again.Nanopb.IStream.{IStream}
use app_chat_again.Nanopb.Host.{Host}
use app_chat_again.Nanopb.Types.Ltype
use app_chat_again.Nanopb.Types.Htype
use app_chat_again.Nanopb.Nesting.{IsMember}
use app_chat_again.Nanopb.Nesting.Answers.{Answers, test-Answers, when-Answers, choice-Answers}
use app_chat_again.Nanopb.Nesting.Defaults.{nested_of}
use app_chat_again.Nanopb.Nesting.Packed.{ate-Answers}
use app_chat_again.Nanopb.Nesting.Strings.{allocate_field-Leaves}
use app_chat_again.Nanopb.Nesting.Decoders.{decoder_of-Ends, number-Ends, Callees}
use app_chat_again.Nanopb.Nesting.Endings.{
  behind-Ends, Ends, then-Ends, choice-Ends, branch-Ends, when-Ends, on_memory-Ends,
  open_substream-Ends, close_after-Ends,
}
use app_chat_again.Nanopb.MessageDecoder.Steps.{open_substream}
use app_chat_again.Nanopb.MessageDecoder.StaticField.{
  Decoder, decoder_of, clear_message, is_packed, count_of,
}
use app_chat_again.Nanopb.MessageDecoder.PointerField.{
  initialize_pointer_field, allocate, decode_item, release_duplicate, decode_single_pointer,
  make_room, decode_next_item, packed_pointer, close_packed_pointer, decode_packed_pointer,
  decode_pointer_item, decode_pointer_field,
}
use app_chat_again.Nanopb.Run.{Run}

close_packed_pointer-Ends :
    (host : Host) (fuel : ℕ) (parent : IStream) (r : Option (Option Bool × Machine))
    → Answers r
    → Ends 0 parent.bytes_left (close_packed_pointer host fuel parent r)
unfolding close_packed_pointer
close_packed_pointer-Ends host fuel parent none h = h
close_packed_pointer-Ends host fuel parent (some (none, s)) h =
    close_after-Ends {A = Unit {0}} parent (some (none, s)) tt
close_packed_pointer-Ends host fuel parent (some (some true, s)) h =
    close_after-Ends parent (some (some tt, s)) tt
close_packed_pointer-Ends host fuel parent (some (some false, s)) h =
    let marked : IStream = record parent { errmsg = some too_many_array_entries } in
    close_after-Ends {A = Unit {0}} marked (some (none, s)) tt

module _ (host : Host) (fuel : ℕ) (noinit : List Field → ℕ → Run Machine (Unit {0}))
    (P : List Field → Type 0) (callees : Callees host fuel noinit P) (iter : Iter)
    (member : IsMember P host (current iter)) where
  initialize_pointer_field-Answers :
      (item : ℕ) (memory : Memory) → Answers (initialize_pointer_field host fuel item iter memory)
  unfolding initialize_pointer_field clear_message
  initialize_pointer_field-Answers item memory =
      let f = current iter in
      choice-Answers (is_text f) _ _ memory (λ _. tt)
        λ _. when-Answers (pb_ltype f.type == Ltype.submessage) _ memory λ is_sub.
          callees.defaults (host.fields_at f.ptr) item _ (nested_of P host f member.1 is_sub)

  allocate-Ends :
      (count : ℕ) (s : Machine) → Ends 0 s.stream.bytes_left (allocate host fuel iter count s)
  unfolding app_chat_again.Nanopb.FieldDecoders.allocate_field
  allocate-Ends count s =
      allocate_field-Leaves host.pb_realloc iter.p_data (current iter).data_size count s

  module _ (func : Decoder) (count : ℕ)
      (h : (target : ℕ) (s : Machine)
        → Ends count s.stream.bytes_left (func (current iter) target s)) where
    decode_item-Ends :
        (item : ℕ) (s : Machine)
        → Ends count s.stream.bytes_left (decode_item host fuel func iter item s)
    unfolding decode_item
    decode_item-Ends item s =
        behind-Ends count s.stream.bytes_left _ _
          (on_memory-Ends (initialize_pointer_field host fuel item iter) s
            (initialize_pointer_field-Answers item s.memory))
          (λ a s'. h item s')

    decode_next_item-Ends :
        (s : Machine) → Ends count s.stream.bytes_left (decode_next_item host fuel func iter s)
    unfolding decode_next_item
    decode_next_item-Ends s = decode_item-Ends _ s

  make_room-Ends :
      (allocated_size : ℕ) (s : Machine)
      → Ends 0 s.stream.bytes_left (make_room host fuel iter allocated_size s)
  unfolding make_room
  make_room-Ends allocated_size s =
      branch-Ends 0 s.stream.bytes_left (ltb allocated_size (count_of iter s.memory + 1)) _ _
        (λ _. then-Ends 0 0 s.stream.bytes_left _ _ (allocate-Ends _ s) (λ a s'. omega arith))
        (λ _. omega arith)

  packed_pointer-Answers :
      (func : Decoder)
      → ((target : ℕ) (s : Machine) → Ends 1 s.stream.bytes_left (func (current iter) target s))
      → (rounds allocated_size : ℕ) (s : Machine) → s.stream.bytes_left < rounds
      → Answers (packed_pointer host fuel func iter rounds allocated_size s)
  unfolding packed_pointer
  packed_pointer-Answers func h zero allocated_size s enough = absurd (omega arith)
  packed_pointer-Answers func h (suc rounds) allocated_size s enough =
      let left = s.stream.bytes_left in
      test-Answers (left == 0) _ _ (λ _. tt)
        λ _.
          ate-Answers left _ _
            (behind-Ends 1 left _ _ (make_room-Ends allocated_size s) (λ room s'.
              then-Ends 1 0 s'.stream.bytes_left _ _ (decode_next_item-Ends func 1 h s')
                (λ a s''. omega arith)))
            λ room s' less.
              test-Answers (count_of iter s'.memory == pb_size_max) _ _ (λ _. tt)
                (λ _. packed_pointer-Answers func h rounds room _ (omega arith))

  decode_packed_pointer-Ends :
      (func : Decoder) (s : Machine)
      → ((target : ℕ) (s : Machine) → Ends 1 s.stream.bytes_left (func (current iter) target s))
      → Ends 0 s.stream.bytes_left (decode_packed_pointer host fuel func iter s)
  unfolding decode_packed_pointer
  decode_packed_pointer-Ends func s h =
      then-Ends 0 0 s.stream.bytes_left (open_substream s) _ (open_substream-Ends s) λ sub s'.
        close_packed_pointer-Ends host fuel s'.stream _ (
          packed_pointer-Answers func h (sub.bytes_left + 1) (count_of iter s.memory)
            (record s' { stream = sub }) (omega arith))

  release_duplicate-Ends :
      (s : Machine) → Ends 0 s.stream.bytes_left (release_duplicate host fuel iter s)
  unfolding release_duplicate
  release_duplicate-Ends s =
      when-Ends
        (pb_ltype (current iter).type == Ltype.submessage
          && not (load_pointer iter.p_data s.memory == 0))
        _ s
        (λ _.
          on_memory-Ends (pb_release_single_field host fuel iter) s
            (callees.released_single iter s.memory member))

  module _ (func : Decoder)
      (h : (target : ℕ) (s : Machine)
        → Ends 0 s.stream.bytes_left (func (current iter) target s)) where
    decode_single_pointer-Ends :
        (s : Machine) → Ends 0 s.stream.bytes_left (decode_single_pointer host fuel func iter s)
    unfolding decode_single_pointer
    decode_single_pointer-Ends s =
        then-Ends 0 0 s.stream.bytes_left _ _ (release_duplicate-Ends s) λ a s1.
          then-Ends 0 0 s1.stream.bytes_left _ _
            (when-Ends (pb_htype (current iter).type == Htype.oneof) _ s1 (λ _. omega arith))
            λ b s2.
              choice-Ends 0 s2.stream.bytes_left (is_text (current iter)) _ _ s2
                (λ _. h iter.p_data s2)
                (λ _.
                  then-Ends 0 0 s2.stream.bytes_left _ _ (allocate-Ends 1 s2)
                    (λ c s3. decode_item-Ends func 0 h _ s3))

    decode_pointer_item-Ends :
        (s : Machine) → Ends 0 s.stream.bytes_left (decode_pointer_item host fuel func iter s)
    unfolding decode_pointer_item
    decode_pointer_item-Ends s =
        choice-Ends 0 s.stream.bytes_left (count_of iter s.memory == pb_size_max) _ _ s
          (λ _. omega arith)
          (λ _.
            then-Ends 0 0 s.stream.bytes_left _ _ (allocate-Ends _ _)
              (λ a s'. decode_item-Ends func 0 h _ s'))

  pub decode_pointer_field-Ends :
      (wire_type : ℕ) (s : Machine)
      → Ends 0 s.stream.bytes_left (decode_pointer_field host fuel noinit wire_type iter s)
  unfolding decode_pointer_field
  decode_pointer_field-Ends wire_type s =
      let f = current iter in
      let left = s.stream.bytes_left in
      let func = decoder_of host fuel noinit (pb_ltype f.type) in
      let any = λ (target : ℕ) (s' : Machine).
        decoder_of-Ends host fuel noinit P callees f target s' member in
      choice-Ends 0 left (not (pb_htype f.type == Htype.repeated)) _ _ s
        (λ _. decode_single_pointer-Ends func any s)
        λ _.
          choice-Ends 0 left (is_packed wire_type f) _ _ s
            (λ packed.
              decode_packed_pointer-Ends func s
                (λ target s'. number-Ends host fuel noinit P callees f target s' (ground arith)))
            (λ _. decode_pointer_item-Ends func any s)
