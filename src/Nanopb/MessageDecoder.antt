-- ===== src/Nanopb/MessageDecoder.antt =====
-- AppChat_Again/Pods/nanopb/pb_decode.c: pb_decode_noinit and the functions around it.
pub mod Steps
pub mod StaticField
pub mod PointerField
pub mod CallbackField
pub mod AnyField
pub mod Required
use app_chat_again.Prelude.{
  ℕ, zero, suc, ◌+◌, ◌^◌, ◌-◌, ◌==◌, ◌&&◌, not, leb, Bool, true, false, none, some, Option, List,
  if◌then◌else◌,
}
use app_chat_again.Nanopb.Types.{
  Field, pb_htype, wrong_size_for_fixed_count_field, missing_required_field,
}
use app_chat_again.Nanopb.Types.Htype
use app_chat_again.Nanopb.IStream.{IStream}
use app_chat_again.Nanopb.Decode.{pb_decode_tag, pb_skip_field}
use app_chat_again.Nanopb.FieldIter.{
  Iter, current, field_at, pb_field_iter_begin, pb_field_iter_find,
}
use app_chat_again.Nanopb.Memory.{Memory, Machine, on_stream}
use app_chat_again.Nanopb.FieldDecoders.{return_error}
use app_chat_again.Nanopb.FieldEncoders.{load_number}
use app_chat_again.Nanopb.Host.{Host, change_memory, store_count}
use app_chat_again.Nanopb.MessageDecoder.Steps.{open_substream, within, decode_with}
use app_chat_again.Nanopb.MessageDecoder.PointerField.{with_memory}
use app_chat_again.Nanopb.MessageDecoder.AnyField.{
  decode_field, decode_extension, find_extension_field,
}
use app_chat_again.Nanopb.MessageDecoder.Required.{none_seen, mark_seen, req_field_count, all_seen}
use app_chat_again.Nanopb.Run.{Run, ended, done, carry_on, ◌>>=◌, ◌>>◌}

-- The local variables of pb_decode_noinit; `fixed_count_field` is a position in the array.
-- `fixed_count_size` stands in the memory, where pSize points to it.
pub record Progress : Type 0 where
  pub iter : Iter
  pub fields_seen : List ℕ
  pub extension_range_start : ℕ
  pub fixed_count_field : Option ℕ

-- The answers of pb_decode_tag as the loop takes them: `none` is the break at the end.
unfoldable pub tag_or_break :
    Option (ℕ × ℕ) × IStream × Bool → Machine → Option (Option (Option (ℕ × ℕ)) × Machine)
tag_or_break (some tag, stream, eof) s = some (some (some tag), record s { stream = stream })
tag_or_break (none, stream, true) s = some (some none, record s { stream = stream })
tag_or_break (none, stream, false) s = some (none, record s { stream = stream })

-- A repeated field without a counter of its own.
abbrev pub has_fixed_count : Iter → Bool
has_fixed_count iter = pb_htype (current iter).type == Htype.repeated && iter.p_size == iter.p_data

abbrev pub is_position : Option ℕ → ℕ → Bool
is_position none position = false
is_position (some field) position = field == position

module _ (host : Host) (fuel : ℕ) (noinit : List Field → ℕ → Run Machine (Unit {0})) where
  -- `fixed_count_field != NULL && fixed_count_size != fixed_count_field->array_size`
  unfoldable pub is_unfinished : Progress → Memory → Bool
  is_unfinished progress memory = elim progress.fixed_count_field [
    | none ↦ false
    | some field ↦
        not (
          load_number 4 (host.frame fuel) memory == (field_at progress.iter.start field).array_size)
  ]

  -- The counter of the message takes the place of the one that the structure has not got.
  unfoldable pub begin_fixed_count : Progress → Run Machine Progress
  unfolding is_unfinished
  begin_fixed_count progress =
      let counted = record progress {
        iter = record (progress.iter) { p_size = host.frame fuel };
      } in
      if is_position progress.fixed_count_field progress.iter.position
      then done counted
      else with_memory λ memory.
        if is_unfinished progress memory
        then ended (return_error wrong_size_for_fixed_count_field)
        else (do
          change_memory (store_count (host.frame fuel) 0)
          done (record counted { fixed_count_field = some progress.iter.position }))

  unfoldable pub known_field : ℕ → Progress → Run Machine Progress
  unfolding begin_fixed_count mark_seen decode_field
  known_field wire_type progress = do
    counted ← (if has_fixed_count progress.iter then begin_fixed_count progress else done progress)
    iter ← decode_field host fuel noinit wire_type counted.iter
    done (record counted { iter = iter; fields_seen = mark_seen counted.iter counted.fields_seen })

  abbrev pub skip_unknown : ℕ → Progress → Run Machine Progress
  skip_unknown wire_type progress = do ended (on_stream (pb_skip_field wire_type)); done progress

  -- Where the extensions of the message have read nothing, the field is skipped.
  unfoldable pub extension_or_skip : ℕ → ℕ → Progress → Run Machine Progress
  unfolding decode_extension pb_skip_field
  extension_or_skip wire_type tag progress s =
      carry_on (decode_extension host fuel noinit tag wire_type progress.iter s) λ _ s'.
        if not (s'.stream.bytes_left == s.stream.bytes_left)
        then done progress s'
        else skip_unknown wire_type progress s'

  -- The iterator goes to the extension field, whose tag begins the range.
  unfoldable pub find_range : Progress → Progress
  unfolding find_extension_field
  find_range progress =
      let (found, iter) = find_extension_field progress.iter in
      record progress {
        iter = iter;
        extension_range_start = (if found then (current iter).tag else 2 ^ 32 - 1);
      }

  unfoldable pub unknown_field : ℕ → ℕ → Progress → Run Machine Progress
  unfolding extension_or_skip find_range
  unknown_field wire_type tag progress =
      let searched = find_range progress in
      if leb progress.extension_range_start tag
      then (if leb searched.extension_range_start tag
          then extension_or_skip wire_type tag searched
          else skip_unknown wire_type searched)
      else skip_unknown wire_type progress

  unfoldable pub decode_one : ℕ → ℕ → Progress → Run Machine Progress
  unfolding known_field unknown_field pb_field_iter_find
  decode_one wire_type tag progress =
      let (found, iter) = pb_field_iter_find tag progress.iter in
      let moved = record progress { iter = iter } in
      if found then known_field wire_type moved else unknown_field wire_type tag moved

  -- `while (stream->bytes_left)`: a tag takes a byte at least.
  unfoldable pub decode_loop : ℕ → Progress → Run Machine Progress
  unfolding tag_or_break pb_decode_tag decode_one
  decode_loop zero progress s = none
  decode_loop (suc rounds) progress s = elim (s.stream.bytes_left == 0) [
    | true ↦ done progress s
    | false ↦ carry_on (tag_or_break (pb_decode_tag s.stream) s) λ tag s'. elim tag [
      | none ↦ done progress s'
      | some (wire_type, tag') ↦
          carry_on (decode_one wire_type tag' progress s') (decode_loop rounds)
    ]
  ]

  unfoldable pub check_complete : Progress → Run Machine (Unit {0})
  unfolding is_unfinished req_field_count all_seen
  check_complete progress = with_memory λ memory.
      if is_unfinished progress memory
      then ended (return_error wrong_size_for_fixed_count_field)
      else if all_seen (req_field_count progress.iter) progress.fields_seen
      then done tt
      else ended (return_error missing_required_field)

  abbrev pub first_progress : List Field → ℕ → Progress
  unfolding pb_field_iter_begin
  first_progress fields dest_struct = record {
    iter = (pb_field_iter_begin fields dest_struct).1;
    fields_seen = none_seen;
    extension_range_start = 0;
    fixed_count_field = none;
  }

  unfoldable pub decode_body : List Field → ℕ → Run Machine (Unit {0})
  unfolding decode_loop check_complete
  decode_body fields dest_struct = do
    change_memory (store_count (host.frame fuel) 0)
    progress ← λ s. decode_loop (s.stream.bytes_left + 1) (first_progress fields dest_struct) s
    check_complete progress

module _ (host : Host) where
  -- The fuel bounds the nesting of messages and the length of every list of extensions.
  unfoldable pub pb_decode_noinit : ℕ → List Field → ℕ → Run Machine (Unit {0})
  unfolding decode_body
  pb_decode_noinit zero fields dest_struct s = none
  pb_decode_noinit (suc fuel) fields dest_struct s =
      decode_body host fuel (pb_decode_noinit fuel) fields dest_struct s

  unfoldable pub pb_decode : ℕ → List Field → ℕ → Run Machine (Unit {0})
  unfolding decode_with pb_decode_noinit
  pb_decode fuel = decode_with host fuel (pb_decode_noinit fuel)

  unfoldable pub pb_decode_delimited_noinit : ℕ → List Field → ℕ → Run Machine (Unit {0})
  unfolding within pb_decode_noinit
  pb_decode_delimited_noinit fuel fields dest_struct = do
    sub ← open_substream
    within sub (pb_decode_noinit fuel fields dest_struct)

  unfoldable pub pb_decode_delimited : ℕ → List Field → ℕ → Run Machine (Unit {0})
  unfolding within pb_decode
  pb_decode_delimited fuel fields dest_struct = do
    sub ← open_substream
    within sub (pb_decode fuel fields dest_struct)

  unfoldable pub pb_decode_nullterminated : ℕ → List Field → ℕ → Run Machine (Unit {0})
  unfolding pb_decode
  pb_decode_nullterminated fuel fields dest_struct = pb_decode fuel fields dest_struct
