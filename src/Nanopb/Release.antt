-- ===== src/Nanopb/Release.antt =====
-- AppChat_Again/Pods/nanopb/pb_decode.c: pb_release_single_field and pb_release.
use app_chat_again.Prelude.{
  none, Bool, ℕ, zero, suc, ◌+◌, ◌==◌, ◌&&◌, ◌||◌, not, ltb, if◌then◌else◌, List,
}
use app_chat_again.Nanopb.Types.{Field, pb_atype, pb_htype, pb_ltype}
use app_chat_again.Nanopb.Types.Ltype
use app_chat_again.Nanopb.Types.Htype
use app_chat_again.Nanopb.Types.Atype
use app_chat_again.Nanopb.FieldIter.{Iter, current}
use app_chat_again.Nanopb.Memory.{Memory}
use app_chat_again.Nanopb.FieldDecoders.{load_pointer}
use app_chat_again.Nanopb.FieldEncoders.{load_number}
use app_chat_again.Nanopb.Host.{Host, store_count, store_pointer, change}
use app_chat_again.Nanopb.Extension.{iter_from_extension, over_extensions}
use app_chat_again.Nanopb.Run.{Run, done, for_each_field, carry_on}

-- The fields whose array entries are pointers of their own.
abbrev pub is_text : Field → Bool
is_text f = pb_ltype f.type == Ltype.string || pb_ltype f.type == Ltype.bytes

abbrev pub is_repeated : Field → Bool
is_repeated f = pb_htype f.type == Htype.repeated

abbrev pub is_pointer : Field → Bool
is_pointer f = pb_atype f.type == Atype.pointer

abbrev pub is_static : Field → Bool
is_static f = pb_atype f.type == Atype.static

-- The field of a union that is not the current one.
unfoldable pub is_other_member : Iter → Memory → Bool
is_other_member iter memory =
    let f = current iter in
    pb_htype f.type == Htype.oneof && not (load_number 4 iter.p_size memory == f.tag)

-- How many submessages the member has; a corrupted count is cut to the array.
unfoldable pub submessage_count : Iter → Memory → ℕ
submessage_count iter memory =
    let f = current iter in
    let count =
      if is_static f && iter.p_size == iter.p_data
      then f.array_size
      else load_number 4 iter.p_size memory in
    if is_repeated f
    then (if is_static f && ltb f.array_size count then f.array_size else count)
    else 1

module _ (host : Host) where
  -- `while (count--) { pb_free(*pItem); *pItem++ = NULL; }`
  unfoldable pub free_entries : ℕ → ℕ → Memory → Memory
  free_entries zero item memory = memory
  free_entries (suc count) item memory =
      free_entries count (item + 8)
        (store_pointer item 0 (host.pb_free (load_pointer item memory) memory))

  -- Behind the release of what the member contains.
  unfoldable pub release_pointer : Iter → Memory → Memory
  unfolding free_entries
  release_pointer iter memory =
      let f = current iter in
      let entries_freed =
        if is_repeated f && is_text f
        then free_entries (load_number 4 iter.p_size memory) (load_pointer iter.p_data memory)
            memory
        else memory in
      let counted =
        if is_repeated f then store_count iter.p_size 0 entries_freed else entries_freed in
      store_pointer iter.p_data 0 (host.pb_free (load_pointer iter.p_data counted) counted)

  -- `again` is the recursive call of pb_release_single_field.
  module _ (again : Iter → Run Memory (Unit {0})) where
    unfoldable pub release_message : List Field → ℕ → Run Memory (Unit {0})
    unfolding for_each_field
    release_message fields dest_struct =
        if dest_struct == 0 then done tt else for_each_field again fields dest_struct

    -- `while (count--) { pb_release(…, pItem); pItem += data_size; }`
    unfoldable pub release_items : Field → ℕ → ℕ → Run Memory (Unit {0})
    unfolding release_message
    release_items f zero item memory = done tt memory
    release_items f (suc count) item memory =
        carry_on (release_message (host.fields_at f.ptr) item memory)
          λ _ memory'. release_items f count (item + f.data_size) memory'

    unfoldable pub release_submessages : Iter → Run Memory (Unit {0})
    unfolding release_items submessage_count
    release_submessages iter memory =
        let f = current iter in
        let item = if is_pointer f then load_pointer iter.p_data memory else iter.p_data in
        if item == 0
        then done tt memory
        else release_items f (submessage_count iter memory) item memory

    -- The extensions or the submessages of the member.
    unfoldable pub release_contents : ℕ → Iter → Run Memory (Unit {0})
    unfolding release_submessages iter_from_extension over_extensions
    release_contents fuel iter memory =
        let f = current iter in
        if pb_ltype f.type == Ltype.extension
        then over_extensions (λ ext memory'. again (iter_from_extension host ext memory') memory')
            fuel (load_pointer iter.p_data memory) memory
        else if pb_ltype f.type == Ltype.submessage
        then release_submessages iter memory
        else done tt memory

    unfoldable pub release_field : ℕ → Iter → Run Memory (Unit {0})
    unfolding release_contents release_pointer is_other_member
    release_field fuel iter memory =
        if is_other_member iter memory
        then done tt memory
        else carry_on (release_contents fuel iter memory)
            λ _. if is_pointer (current iter) then change (release_pointer iter) else done tt

  -- The fuel is that of pb_field_set_to_default.
  unfoldable pub pb_release_single_field : ℕ → Iter → Run Memory (Unit {0})
  unfolding release_field
  pb_release_single_field zero iter memory = none
  pb_release_single_field (suc fuel) iter memory =
      release_field (pb_release_single_field fuel) fuel iter memory

  unfoldable pub pb_release : ℕ → List Field → ℕ → Run Memory (Unit {0})
  unfolding release_message pb_release_single_field
  pb_release fuel fields dest_struct =
      release_message (pb_release_single_field fuel) fields dest_struct
