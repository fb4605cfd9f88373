-- ===== src/Nanopb/MessageEncoder/Wire.antt =====
-- AppChat_Again/Pods/nanopb/pb_encode.c: the bytes of a message in memory, described without streams,
-- errors and passes: what its members are, one behind the other, and every submessage and packed array
-- behind its length. The bytes of a single number, the length of a string and the presence of an
-- optional field are taken from the code's own varint_buffer, to_bytes, zigzag, string_size and is_present.
use app_chat_again.Nanopb.MessageEncoder.Proto3.{is_nonzero}
use app_chat_again.Nanopb.FieldDecoders.{load_pointer}
use app_chat_again.Prelude.{
  ℕ, zero, suc, ◌+◌, ◌*◌, ◌^◌, ◌-◌, ◌==◌, ◌&&◌, ◌||◌, leb, none, some, List, [], ◌++◌, length,
  if◌then◌else◌,
}
use app_chat_again.Prelude.Words.{u64}
use app_chat_again.Nanopb.Types.{Field, pb_htype, pb_atype, pb_ltype}
use app_chat_again.Nanopb.Types.Htype
use app_chat_again.Nanopb.Types.Atype
use app_chat_again.Nanopb.Types.Ltype
use app_chat_again.Nanopb.Types.Wt
use app_chat_again.Nanopb.Varint.{varint}
use app_chat_again.Nanopb.FieldIter.{
  Iter, current, field_at, move, pb_field_iter_begin, pb_field_iter_next,
}
use app_chat_again.Nanopb.Memory.{Memory, load_bytes}
use app_chat_again.Nanopb.Host.{
  extension_dest, extension_fields, extension_type, type_encode, callback_arg, extension_next,
  callback_function, Host,
}
use app_chat_again.Nanopb.Encode.{varint_buffer, to_bytes, zigzag, wiretype_of}
use app_chat_again.Nanopb.FieldEncoders.{load_number, load_signed, string_size}
use app_chat_again.Nanopb.Release.{is_pointer, is_text}
use app_chat_again.Nanopb.MessageEncoder.{is_nonzero, load_pointer, is_present}

-- The bytes of the user's encoders.
pub record UserBytes : Type 0 where
  pub callback : ℕ → Field → ℕ → List ℕ
  pub extension : ℕ → ℕ → List ℕ

abbrev pub tag_bytes : ℕ → ℕ → List ℕ
tag_bytes wiretype tag = varint 9 (u64 (8 * tag) + wiretype)

abbrev pub field_tag : Field → List ℕ
field_tag f = elim (wiretype_of (pb_ltype f.type)) [
  | none ↦ []
  | some wiretype ↦ tag_bytes wiretype f.tag
]

-- A string of `size` bytes in memory.
abbrev pub string_at : ℕ → ℕ → Memory → List ℕ
string_at address size memory = varint_buffer size ++ load_bytes size address memory

-- Bytes behind their length, which is a size_t.
abbrev pub with_length : List ℕ → List ℕ
with_length bytes = varint 9 (u64 (length bytes)) ++ bytes

unfoldable pub item_bytes : (Field → ℕ → List ℕ) → Field → ℕ → ℕ → List ℕ
item_bytes value f zero p = []
item_bytes value f (suc count) p = value f p ++ item_bytes value f count (p + f.data_size)

-- The members from the iterator's on.
unfoldable pub over_bytes : (Iter → List ℕ) → ℕ → Iter → List ℕ
over_bytes member zero iter = []
over_bytes member (suc rounds) iter =
    let (more, iter') = pb_field_iter_next iter in
    let rest = over_bytes member rounds iter' in member iter ++ (if more then rest else [])

unfoldable pub fields_bytes : (Iter → List ℕ) → List Field → ℕ → List ℕ
unfolding over_bytes
fields_bytes member fields src_struct =
    let (begun, iter) = pb_field_iter_begin fields src_struct in
    if begun then over_bytes member (length fields) iter else []

module _ (host : Host) (memory : Memory) (user : UserBytes) where
  -- What stands behind the tag; `message` gives the bytes of submessages.
  unfoldable pub value_bytes : (List Field → ℕ → List ℕ) → ℕ → Field → ℕ → List ℕ
  value_bytes message ltype f src =
      if ltype == Ltype.varint
      then varint_buffer (load_signed f.data_size src memory)
      else if ltype == Ltype.uvarint
      then varint_buffer (load_number f.data_size src memory)
      else if ltype == Ltype.svarint
      then varint_buffer (zigzag (load_signed f.data_size src memory))
      else if ltype == Ltype.fixed32
      then to_bytes 4 (load_number 4 src memory)
      else if ltype == Ltype.fixed64
      then to_bytes 8 (load_number 8 src memory)
      else if ltype == Ltype.bytes
      then (if src == 0
          then string_at src 0 memory
          else string_at (src + 4) (load_number 4 src memory) memory)
      else if ltype == Ltype.string
      then (if src == 0
          then string_at src 0 memory
          else string_at src
              (string_size (if pb_atype f.type == Atype.pointer then 2 ^ 64 - 1 else f.data_size)
                src memory)
              memory)
      else if ltype == Ltype.submessage
      then with_length (message (host.fields_at f.ptr) src)
      else string_at src f.data_size memory

  -- An entry of its own; those of strings and bytes in an allocated array are pointers.
  abbrev pub entry_bytes : (Field → ℕ → List ℕ) → Field → ℕ → List ℕ
  entry_bytes value f p =
      field_tag f ++ value f (if is_pointer f && is_text f then load_pointer p memory else p)

  -- An array: packed behind one tag and the length of all items, or each item behind the tag.
  unfoldable pub array_bytes : (Field → ℕ → List ℕ) → Field → ℕ → ℕ → List ℕ
  unfolding item_bytes
  array_bytes value f p_data count =
      if count == 0
      then []
      else if leb (pb_ltype f.type) Ltype.last_packable
      then tag_bytes Wt.string f.tag ++ with_length (item_bytes value f count p_data)
      else item_bytes (entry_bytes value) f count p_data

  module _ (fuel : ℕ) (message : List Field → ℕ → List ℕ) where
    abbrev pub one_bytes : Field → ℕ → List ℕ
    one_bytes f p = field_tag f ++ value_bytes message (pb_ltype f.type) f p

    -- A static or pointer field, by the presence that the member's size or tag gives.
    unfoldable pub basic_bytes : Field → ℕ → List ℕ
    unfolding value_bytes array_bytes
    basic_bytes f p_field =
        let p_size = move p_field f.size_offset in
        let p_data = if is_pointer f then load_pointer p_field memory else p_field in
        if pb_htype f.type == Htype.required
        then one_bytes f p_data
        else if pb_htype f.type == Htype.optional
        then elim (is_present host memory fuel f p_field) [
          | none ↦ []
          | some present ↦ if present then one_bytes f p_data else []
        ]
        else if pb_htype f.type == Htype.repeated
        then array_bytes (value_bytes message (pb_ltype f.type)) f p_data
            (if is_nonzero f.size_offset then load_number 4 p_size memory else f.array_size)
        else if load_number 4 p_size memory == f.tag
        then one_bytes f p_data
        else []

    unfoldable pub field_bytes : Field → ℕ → List ℕ
    unfolding basic_bytes
    field_bytes f p_data =
        if pb_atype f.type == Atype.static || pb_atype f.type == Atype.pointer
        then basic_bytes f p_data
        else (let function = callback_function p_data memory in
            if function == 0 then [] else user.callback function f (callback_arg p_data))

    -- The extensions of a list.
    unfoldable pub extension_bytes : ℕ → ℕ → List ℕ
    unfolding field_bytes
    extension_bytes zero extension = []
    extension_bytes (suc rounds) extension =
        let rest = extension_bytes rounds (extension_next extension memory) in
        let handler = type_encode (extension_type extension memory) memory in
        let f = field_at (extension_fields host extension memory) 0 in
        if extension == 0
        then []
        else (if handler == 0
            then field_bytes f (
                if is_pointer f
                then extension_dest extension
                else load_pointer (extension_dest extension) memory)
            else user.extension handler extension)
          ++ rest

    unfoldable pub member_bytes : Iter → List ℕ
    unfolding field_bytes extension_bytes
    member_bytes iter =
        if pb_ltype (current iter).type == Ltype.extension
        then extension_bytes (fuel + 1) (load_pointer iter.p_data memory)
        else field_bytes (current iter) iter.p_data

  -- The whole message.
  unfoldable pub message_bytes : ℕ → List Field → ℕ → List ℕ
  unfolding fields_bytes member_bytes
  message_bytes zero fields src_struct = []
  message_bytes (suc fuel) fields src_struct =
      fields_bytes (member_bytes fuel (message_bytes fuel)) fields src_struct
