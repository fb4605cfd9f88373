-- ===== src/Nanopb/Host.antt =====
-- AppChat_Again/Pods/nanopb/pb.h: what the message layer is given by the program around it, and the
-- members of the structures that it reads by their offsets.
use app_chat_again.Prelude.{ℕ, ◌+◌, List, some, M}
use app_chat_again.Prelude.Words.{u32}
use app_chat_again.Nanopb.Types.{Field}
use app_chat_again.Nanopb.Memory.{Memory, Machine, store_bytes}
use app_chat_again.Nanopb.OStream.{OStream}
use app_chat_again.Nanopb.Encode.{to_bytes}
use app_chat_again.Nanopb.FieldDecoders.{load_pointer}
use app_chat_again.Nanopb.Run.{Run}

-- The descriptor arrays by their addresses, the allocator, and the functions of the user by theirs:
-- a callback is given its descriptor and the address of `arg`, an extension handler the extension's.
-- `frame` is where `fixed_count_size` of pb_decode_noinit stands, by the depth of the call.
pub record Host : Type 0 where
  pub fields_at : ℕ → List Field
  pub pb_realloc : ℕ → ℕ → Memory → ℕ × Memory
  pub pb_free : ℕ → Memory → Memory
  pub decode_callback : ℕ → Field → ℕ → M Machine (Unit {0})
  pub decode_extension : ℕ → ℕ → ℕ → ℕ → M Machine (Unit {0})
  pub encode_callback : ℕ → Field → ℕ → Memory → M OStream (Unit {0})
  pub encode_extension : ℕ → ℕ → Memory → M OStream (Unit {0})
  pub frame : ℕ → ℕ

-- pb_callback_t: the function and the address of `arg`.
abbrev pub callback_function : ℕ → Memory → ℕ
callback_function callback memory = load_pointer callback memory

abbrev pub callback_arg : ℕ → ℕ
callback_arg callback = callback + 8

-- pb_extension_t.
abbrev pub extension_type : ℕ → Memory → ℕ
extension_type extension memory = load_pointer extension memory

abbrev pub extension_dest : ℕ → ℕ
extension_dest extension = extension + 8

abbrev pub extension_next : ℕ → Memory → ℕ
extension_next extension memory = load_pointer (extension + 16) memory

abbrev pub extension_found : ℕ → ℕ
extension_found extension = extension + 24

-- pb_extension_type_t.
abbrev pub type_decode : ℕ → Memory → ℕ
type_decode type memory = load_pointer type memory

abbrev pub type_encode : ℕ → Memory → ℕ
type_encode type memory = load_pointer (type + 8) memory

abbrev pub type_arg : ℕ → Memory → ℕ
type_arg type memory = load_pointer (type + 16) memory

-- `extension->type->arg`, a descriptor array.
abbrev pub extension_fields : Host → ℕ → Memory → List Field
extension_fields host extension memory =
    host.fields_at (type_arg (extension_type extension memory) memory)

-- Stores of a `bool`, of a `pb_size_t` and of a pointer.
abbrev pub store_bool : ℕ → ℕ → Memory → Memory
store_bool address value = store_bytes address (to_bytes 1 value)

abbrev pub store_count : ℕ → ℕ → Memory → Memory
store_count address count = store_bytes address (to_bytes 4 (u32 count))

abbrev pub store_pointer : ℕ → ℕ → Memory → Memory
store_pointer address pointer = store_bytes address (to_bytes 8 pointer)

-- A store as a step.
abbrev pub change : (Memory → Memory) → Run Memory (Unit {0})
change f memory = some (some tt, f memory)

abbrev pub change_memory : (Memory → Memory) → Run Machine (Unit {0})
change_memory f s = some (some tt, record s { memory = f s.memory })
