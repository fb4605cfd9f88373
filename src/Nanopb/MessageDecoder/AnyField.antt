-- ===== src/Nanopb/MessageDecoder/AnyField.antt =====
-- AppChat_Again/Pods/nanopb/pb_decode.c: pb_release_union_field, decode_field, and the fields that are
-- extensions.
use app_chat_again.Prelude.{
  ℕ, zero, suc, ◌+◌, ◌==◌, ◌&&◌, ◌||◌, not, Bool, true, false, none, List, length, if◌then◌else◌,
}
use app_chat_again.Nanopb.Types.{
  Field, pb_htype, pb_atype, pb_ltype, invalid_union_tag, iterator_error, invalid_field_type,
}
use app_chat_again.Nanopb.Types.Htype
use app_chat_again.Nanopb.Types.Atype
use app_chat_again.Nanopb.Types.Ltype
use app_chat_again.Nanopb.FieldIter.{
  Iter, current, field_at, pb_field_iter_find, pb_field_iter_next,
}
use app_chat_again.Nanopb.Memory.{Machine}
use app_chat_again.Nanopb.FieldDecoders.{return_error, load_pointer}
use app_chat_again.Nanopb.Host.{
  Host, change_memory, store_bool, extension_found, extension_next, extension_type, type_decode,
  extension_fields,
}
use app_chat_again.Nanopb.Release.{pb_release_single_field}
use app_chat_again.Nanopb.Extension.{iter_from_extension}
use app_chat_again.Nanopb.MessageDecoder.Steps.{on_memory}
use app_chat_again.Nanopb.MessageDecoder.StaticField.{count_of, decode_static_field}
use app_chat_again.Nanopb.MessageDecoder.PointerField.{with_memory, decode_pointer_field}
use app_chat_again.Nanopb.MessageDecoder.CallbackField.{decode_callback_field}
use app_chat_again.Nanopb.Run.{Run, ended, done, carry_on, ◌>>=◌, ◌>>◌}

-- pb_field_iter_find, where not to find the tag is an error. The iterator is left where it is found.
unfoldable pub find_or_fail : Run Machine Iter → ℕ → Iter → Run Machine Iter
unfolding pb_field_iter_find
find_or_fail fail tag iter =
    let (found, iter') = pb_field_iter_find tag iter in if found then done iter' else fail

module _ (host : Host) (fuel : ℕ) where
  -- Behind the tests: the old member is released, and the iterator comes back to the new one.
  unfoldable pub release_old : ℕ → Iter → Run Machine Iter
  unfolding find_or_fail pb_release_single_field
  release_old old_tag iter = do
    iter' ← find_or_fail (ended (return_error invalid_union_tag)) old_tag iter
    on_memory (pb_release_single_field host fuel iter')
    find_or_fail (ended (return_error iterator_error)) (current iter).tag iter'

  unfoldable pub pb_release_union_field : Iter → Run Machine Iter
  unfolding release_old
  pb_release_union_field iter = with_memory λ memory.
      let old_tag = count_of iter memory in
      if old_tag == 0 || old_tag == (current iter).tag then done iter else release_old old_tag iter

module _ (host : Host) (fuel : ℕ) (noinit : List Field → ℕ → Run Machine (Unit {0})) where
  unfoldable pub decode_member : ℕ → Iter → Run Machine (Unit {0})
  unfolding decode_static_field decode_pointer_field decode_callback_field
  decode_member wire_type iter =
      let atype = pb_atype (current iter).type in
      if atype == Atype.static
      then decode_static_field host fuel noinit wire_type iter
      else if atype == Atype.pointer
      then decode_pointer_field host fuel noinit wire_type iter
      else if atype == Atype.callback
      then decode_callback_field host fuel wire_type iter
      else ended (return_error invalid_field_type)

  -- The answer is the iterator as the release of a union leaves it.
  unfoldable pub decode_field : ℕ → Iter → Run Machine Iter
  unfolding pb_release_union_field decode_member
  decode_field wire_type iter = do
    iter' ←
        (if pb_htype (current iter).type == Htype.oneof
          then pb_release_union_field host fuel iter
          else done iter)
    decode_member wire_type iter'
    done iter'

  -- The field's descriptor is the first of `extension->type->arg`.
  unfoldable pub default_extension_decoder : ℕ → ℕ → ℕ → Run Machine (Unit {0})
  unfolding decode_field iter_from_extension
  default_extension_decoder extension tag wire_type = with_memory λ memory.
      if not ((field_at (extension_fields host extension memory) 0).tag == tag)
      then done tt
      else (do
        change_memory (store_bool (extension_found extension) 1)
        iter ← decode_field wire_type (iter_from_extension host extension memory)
        done tt)

  unfoldable pub handle_extension : ℕ → ℕ → ℕ → Run Machine (Unit {0})
  unfolding default_extension_decoder
  handle_extension extension tag wire_type = with_memory λ memory.
      let handler = type_decode (extension_type extension memory) memory in
      if handler == 0
      then default_extension_decoder extension tag wire_type
      else ended (host.decode_extension handler extension tag wire_type)

  -- `while (extension != NULL && pos == stream->bytes_left)`, a unit of fuel for each extension.
  unfoldable pub try_extensions : ℕ → ℕ → ℕ → ℕ → ℕ → Run Machine (Unit {0})
  unfolding handle_extension
  try_extensions zero tag wire_type pos extension s = none
  try_extensions (suc rounds) tag wire_type pos extension s =
      elim (not (extension == 0) && pos == s.stream.bytes_left) [
        | false ↦ done tt s
        | true ↦
            carry_on (handle_extension extension tag wire_type s) λ _ s'.
              try_extensions rounds tag wire_type pos (extension_next extension s'.memory) s'
      ]

  unfoldable pub decode_extension : ℕ → ℕ → Iter → Run Machine (Unit {0})
  unfolding try_extensions
  decode_extension tag wire_type iter s =
      try_extensions (fuel + 1) tag wire_type s.stream.bytes_left
        (load_pointer iter.p_data s.memory) s

-- The loop of find_extension_field. The walk comes back after as many steps as there are fields.
unfoldable pub find_extension_loop : ℕ → ℕ → Iter → Bool × Iter
find_extension_loop zero start iter = (false, iter)
find_extension_loop (suc fuel) start iter =
    let iter' = (pb_field_iter_next iter).1 in
    let more = find_extension_loop fuel start iter' in
    if pb_ltype (current iter).type == Ltype.extension
    then (true, iter)
    else if iter'.position == start
    then (false, iter')
    else more

unfoldable pub find_extension_field : Iter → Bool × Iter
unfolding find_extension_loop
find_extension_field iter = find_extension_loop (length iter.start + 1) iter.position iter
