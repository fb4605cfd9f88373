-- ===== src/Nanopb/Nesting/Fields.antt =====
-- AppChat_Again/Pods/nanopb/pb_decode.c: the body of the loop of pb_decode_noinit comes back on a nested
-- message: known fields, and unknown ones, which are skipped.
use app_chat_again.Nanopb.Decode.{pb_skip_field}
use app_chat_again.Nanopb.FieldIter.{pb_field_iter_find, current, Iter}
use app_chat_again.Nanopb.Memory.{Machine}
use app_chat_again.Nanopb.Run.{done, Run}
use app_chat_again.Nanopb.Types.{Field}
use app_chat_again.Prelude.{some, false, ◌-◌, leb, ◌∙◌, ◌^◌, arith, ◌<◌, ◌≡◌, ℕ, List}
use app_chat_again.Nanopb.Host.{Host}
use app_chat_again.Nanopb.Nesting.{IsMember}
use app_chat_again.Nanopb.Nesting.Endings.{on_stream-Ends}
use app_chat_again.Nanopb.Nesting.Kept.{Keeps, then-Keeps, after-Keeps, choice-Keeps}
use app_chat_again.Nanopb.Nesting.Walks.{pb_field_iter_find-over, find_extension_field-none}
use app_chat_again.Nanopb.Nesting.Decoders.{Callees}
use app_chat_again.Nanopb.Nesting.AnyField.{Over, decode_field-Keeps}
use app_chat_again.Nanopb.Nesting.Defaults.{not_extension}
use app_chat_again.Nanopb.Nesting.Limit.{pb_skip_field-Eats}
use app_chat_again.Nanopb.MessageDecoder.{
  Progress, has_fixed_count, is_position, is_unfinished, begin_fixed_count, known_field,
  skip_unknown, find_range, unknown_field, decode_one,
}

-- The iterator of the local variables.
abbrev pub Walks : List Field → Progress → Type 0
Walks fields progress = progress.iter.start ≡ fields

beyond : (tag : ℕ) → tag < 2 ^ 29 → leb (2 ^ 32 - 1) tag ≡ false
beyond tag h = ground arith

module _ (host : Host) (fuel : ℕ) (noinit : List Field → ℕ → Run Machine (Unit {0}))
    (P : List Field → Type 0) (callees : Callees host fuel noinit P) (fields : List Field)
    (members : (iter : Iter) → Over fields iter → IsMember P host (current iter)) where
  begin_fixed_count-Keeps :
      (progress : Progress) (s : Machine)
      → Walks fields progress
      → Keeps (Walks fields) s.stream.bytes_left (begin_fixed_count host fuel noinit progress s)
  unfolding begin_fixed_count
  begin_fixed_count-Keeps progress s over =
      let left = s.stream.bytes_left in
      choice-Keeps (Walks fields) left
        (is_position progress.fixed_count_field progress.iter.position) _ _ s
        (λ _. (omega arith, over))
        λ _.
          choice-Keeps (Walks fields) left (is_unfinished host fuel noinit progress s.memory) _ _ s
            (λ _. omega arith) (λ _. (omega arith, over))

  known_field-Keeps :
      (wire_type : ℕ) (progress : Progress) (s : Machine)
      → Walks fields progress
      → Keeps (Walks fields) s.stream.bytes_left (known_field host fuel noinit wire_type progress s)
  unfolding known_field
  known_field-Keeps wire_type progress s over =
      let left = s.stream.bytes_left in
      then-Keeps (Walks fields) (Walks fields) left _ _
        (choice-Keeps (Walks fields) left (has_fixed_count progress.iter) _ _ s
          (λ _. begin_fixed_count-Keeps progress s over) (λ _. (omega arith, over)))
        λ counted s' over'.
          then-Keeps (Over fields) (Walks fields) s'.stream.bytes_left _ _
            (decode_field-Keeps host fuel noinit P callees fields members wire_type counted.iter s'
              over')
            (λ iter s'' kept. (omega arith, kept))

  skip_unknown-Keeps :
      (wire_type : ℕ) (progress : Progress) (s : Machine)
      → Walks fields progress
      → Keeps
          (Walks fields)
          s.stream.bytes_left
          (skip_unknown host fuel noinit wire_type progress s)
  skip_unknown-Keeps wire_type progress s over =
      let (skipped, stream) = pb_skip_field wire_type s.stream in
      after-Keeps (Walks fields) s.stream.bytes_left (some (skipped, record s { stream = stream }))
        (λ a. done progress)
        (on_stream-Ends 0 s.stream.bytes_left s (skipped, stream)
          (pb_skip_field-Eats wire_type s.stream))
        (λ a s'. (omega arith, over))

  unknown_field-Keeps :
      (wire_type tag : ℕ) (progress : Progress) (s : Machine)
      → tag < 2 ^ 29
      → Walks fields progress
      → Keeps
          (Walks fields)
          s.stream.bytes_left
          (unknown_field host fuel noinit wire_type tag progress s)
  unfolding unknown_field find_range
  unknown_field-Keeps wire_type tag progress s bound over =
      let left = s.stream.bytes_left in
      let none =
        find_extension_field-none fields
          (λ iter over'. not_extension P host (current iter) (members iter over')) progress.iter
          over in
      choice-Keeps (Walks fields) left (leb progress.extension_range_start tag) _ _ s
        (λ _. rw none.0 (rw (beyond tag bound) (skip_unknown-Keeps wire_type _ s none.1)))
        (λ _. skip_unknown-Keeps wire_type progress s over)

  pub decode_one-Keeps :
      (wire_type tag : ℕ) (progress : Progress) (s : Machine)
      → tag < 2 ^ 29
      → Walks fields progress
      → Keeps
          (Walks fields)
          s.stream.bytes_left
          (decode_one host fuel noinit wire_type tag progress s)
  unfolding decode_one
  decode_one-Keeps wire_type tag progress s bound over =
      let kept = pb_field_iter_find-over tag progress.iter ∙ over in
      choice-Keeps (Walks fields) s.stream.bytes_left (pb_field_iter_find tag progress.iter).0 _ _ s
        (λ _. known_field-Keeps wire_type _ s kept)
        (λ _. unknown_field-Keeps wire_type tag _ s bound kept)
