-- ===== src/Nanopb/Extension.antt =====
-- AppChat_Again/Pods/nanopb/pb_decode.c: the iterator that stands on an extension, and the lists of
-- extensions.
use app_chat_again.Prelude.{none, ℕ, zero, suc, ◌==◌, true, false, if◌then◌else◌}
use app_chat_again.Nanopb.Types.{pb_atype}
use app_chat_again.Nanopb.Types.Atype
use app_chat_again.Nanopb.Memory.{Memory}
use app_chat_again.Nanopb.FieldDecoders.{load_pointer}
use app_chat_again.Nanopb.FieldIter.{Iter, pb_field_iter_begin, field_at}
use app_chat_again.Nanopb.Host.{
  Host, extension_dest, extension_next, extension_found, extension_fields,
}
use app_chat_again.Nanopb.Run.{Run, carry_on, done}

-- The pointer of a pointer extension stands in the extension itself.
unfoldable pub iter_from_extension : Host → ℕ → Memory → Iter
iter_from_extension host extension memory =
    let fields = extension_fields host extension memory in
    let dest = load_pointer (extension_dest extension) memory in
    record ((pb_field_iter_begin fields dest).1) {
      p_data =
          (if pb_atype (field_at fields 0).type == Atype.pointer
            then extension_dest extension
            else dest);
      p_size = extension_found extension;
    }

-- `while (ext != NULL) { …; ext = ext->next; }`: the list lies in the memory, which the body may
-- change. A unit of fuel for each extension.
unfoldable pub over_extensions : (ℕ → Run Memory (Unit {0})) → ℕ → ℕ → Run Memory (Unit {0})
over_extensions body zero ext memory = none
over_extensions body (suc fuel) ext memory = elim (ext == 0) [
  | true ↦ done tt memory
  | false ↦
      carry_on (body ext memory)
        λ _ memory'. over_extensions body fuel (extension_next ext memory') memory'
]
