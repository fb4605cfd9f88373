-- ===== src/Nanopb/Defaults.antt =====
-- AppChat_Again/Pods/nanopb/pb_decode.c: pb_field_set_to_default and pb_message_set_to_defaults.
use app_chat_again.Prelude.{
  Bool, none, ℕ, zero, suc, ◌==◌, ◌&&◌, ◌||◌, not, if◌then◌else◌, replicate, List,
}
use app_chat_again.Nanopb.Types.{Field, pb_atype, pb_htype, pb_ltype}
use app_chat_again.Nanopb.Types.Ltype
use app_chat_again.Nanopb.Types.Htype
use app_chat_again.Nanopb.Types.Atype
use app_chat_again.Nanopb.FieldIter.{Iter, current}
use app_chat_again.Nanopb.Memory.{Memory, store_bytes, load_bytes}
use app_chat_again.Nanopb.FieldDecoders.{load_pointer}
use app_chat_again.Nanopb.Host.{
  Host, store_bool, store_count, store_pointer, change, extension_found,
}
use app_chat_again.Nanopb.Extension.{iter_from_extension, over_extensions}
use app_chat_again.Nanopb.Run.{when, Run, done, for_each_field, ◌>>◌}

-- The count of an array and the tag of a union.
abbrev pub has_count : Field → Bool
has_count f = pb_htype f.type == Htype.repeated || pb_htype f.type == Htype.oneof

-- `memset(dest, 0, count)` and `memcpy(dest, src, count)`.
abbrev pub clear_bytes : ℕ → ℕ → Memory → Memory
clear_bytes address count = store_bytes address (replicate count 0)

abbrev pub copy_bytes : ℕ → ℕ → ℕ → Memory → Memory
copy_bytes address src count memory = store_bytes address (load_bytes count src memory) memory

module _ (host : Host) where
  -- `again` is the recursive call of pb_field_set_to_default.
  module _ (again : Iter → Run Memory (Unit {0})) where
    -- One round of the loop over the extensions of a message.
    unfoldable pub extension_to_default : ℕ → Run Memory (Unit {0})
    unfolding iter_from_extension
    extension_to_default ext = do
      change (store_bool (extension_found ext) 0)
      λ memory. again (iter_from_extension host ext memory) memory

    -- Where `init_data` is set.
    unfoldable pub init_data : Iter → Run Memory (Unit {0})
    unfolding for_each_field
    init_data iter =
        let f = current iter in
        if pb_ltype f.type == Ltype.submessage
        then for_each_field again (host.fields_at f.ptr) iter.p_data
        else if not (f.ptr == 0)
        then change (copy_bytes iter.p_data f.ptr f.data_size)
        else change (clear_bytes iter.p_data f.data_size)

    unfoldable pub static_to_default : Iter → Run Memory (Unit {0})
    unfolding init_data
    static_to_default iter =
        let f = current iter in
        if pb_htype f.type == Htype.optional && not (iter.p_size == iter.p_data)
        then (do change (store_bool iter.p_size 0); init_data iter)
        else if has_count f
        then change (store_count iter.p_size 0)
        else init_data iter

    unfoldable pub pointer_to_default : Iter → Run Memory (Unit {0})
    pointer_to_default iter = do
      change (store_pointer iter.p_data 0)
      when (has_count (current iter)) (change (store_count iter.p_size 0))

    unfoldable pub field_to_default : ℕ → Iter → Run Memory (Unit {0})
    unfolding extension_to_default static_to_default pointer_to_default over_extensions
    field_to_default fuel iter memory =
        let f = current iter in
        if pb_ltype f.type == Ltype.extension
        then over_extensions extension_to_default fuel (load_pointer iter.p_data memory) memory
        else if pb_atype f.type == Atype.static
        then static_to_default iter memory
        else if pb_atype f.type == Atype.pointer
        then pointer_to_default iter memory
        else done tt memory

  -- The fuel bounds how deep messages and extensions are nested, and how long a list of extensions is.
  unfoldable pub pb_field_set_to_default : ℕ → Iter → Run Memory (Unit {0})
  unfolding field_to_default
  pb_field_set_to_default zero iter memory = none
  pb_field_set_to_default (suc fuel) iter memory =
      field_to_default (pb_field_set_to_default fuel) fuel iter memory

  unfoldable pub pb_message_set_to_defaults : ℕ → List Field → ℕ → Run Memory (Unit {0})
  unfolding for_each_field pb_field_set_to_default
  pb_message_set_to_defaults fuel fields dest_struct =
      for_each_field (pb_field_set_to_default fuel) fields dest_struct
