-- ===== src/Nanopb/Nesting/AnyField.antt =====
-- AppChat_Again/Pods/nanopb/pb_decode.c: pb_release_union_field and decode_field come back on a member
-- of a nested message, with an iterator over its fields.
use app_chat_again.Nanopb.Release.{pb_release_single_field}
use app_chat_again.Nanopb.MessageDecoder.StaticField.{count_of}
use app_chat_again.Nanopb.Memory.{Machine}
use app_chat_again.Nanopb.Run.{Run}
use app_chat_again.Nanopb.FieldIter.{pb_field_iter_find, current, Iter}
use app_chat_again.Nanopb.Types.{pb_htype, pb_atype, Field}
use app_chat_again.Prelude.{◌||◌, false, ◌∙◌, ◌==◌, arith, ◌≡◌, ℕ, List, inr, inl}
use app_chat_again.Nanopb.Host.{Host}
use app_chat_again.Nanopb.Types.Htype
use app_chat_again.Nanopb.Types.Atype
use app_chat_again.Nanopb.Nesting.{IsMember, IsStored}
use app_chat_again.Nanopb.Nesting.Endings.{Ends, choice-Ends, on_memory-Ends}
use app_chat_again.Nanopb.Nesting.Kept.{Keeps, then-Keeps, after-Keeps, choice-Keeps}
use app_chat_again.Nanopb.Nesting.Walks.{pb_field_iter_find-over}
use app_chat_again.Nanopb.Nesting.Decoders.{Callees}
use app_chat_again.Nanopb.Nesting.StaticField.{decode_static_field-Ends}
use app_chat_again.Nanopb.Nesting.PointerField.{decode_pointer_field-Ends}
use app_chat_again.Nanopb.MessageDecoder.AnyField.{
  find_or_fail, release_old, pb_release_union_field, decode_member, decode_field,
}

-- An iterator over the fields.
abbrev pub Over : List Field → Iter → Type 0
Over fields iter = iter.start ≡ fields

find_or_fail-Keeps :
    (fields : List Field) (fail : Run Machine Iter) (tag : ℕ) (iter : Iter) (s : Machine)
    → Keeps (Over fields) s.stream.bytes_left (fail s)
    → Over fields iter
    → Keeps (Over fields) s.stream.bytes_left (find_or_fail fail tag iter s)
unfolding find_or_fail
find_or_fail-Keeps fields fail tag iter s h over =
    choice-Keeps (Over fields) s.stream.bytes_left (pb_field_iter_find tag iter).0 _ _ s
      (λ _. (omega arith, pb_field_iter_find-over tag iter ∙ over)) (λ _. h)

pub not_stored :
    (f : Field)
    → IsStored f
    → (pb_atype f.type == Atype.static) ≡ false
    → (pb_atype f.type == Atype.pointer) ≡ false
    → ⊥
not_stored f (inl static) n m = ground arith
not_stored f (inr pointer) n m = ground arith

module _ (host : Host) (fuel : ℕ) (noinit : List Field → ℕ → Run Machine (Unit {0}))
    (P : List Field → Type 0) (callees : Callees host fuel noinit P) (fields : List Field)
    (members : (iter : Iter) → Over fields iter → IsMember P host (current iter)) where
  release_old-Keeps :
      (old_tag : ℕ) (iter : Iter) (s : Machine)
      → Over fields iter
      → Keeps (Over fields) s.stream.bytes_left (release_old host fuel old_tag iter s)
  unfolding release_old
  release_old-Keeps old_tag iter s over =
      then-Keeps (Over fields) (Over fields) s.stream.bytes_left _ _
        (find_or_fail-Keeps fields _ old_tag iter s (omega arith) over)
        λ iter' s' over'.
          after-Keeps (Over fields) s'.stream.bytes_left _ _
            (on_memory-Ends (pb_release_single_field host fuel iter') s'
              (callees.released_single iter' s'.memory (members iter' over')))
            λ a s''. find_or_fail-Keeps fields _ (current iter).tag iter' s'' (omega arith) over'

  pb_release_union_field-Keeps :
      (iter : Iter) (s : Machine)
      → Over fields iter
      → Keeps (Over fields) s.stream.bytes_left (pb_release_union_field host fuel iter s)
  unfolding pb_release_union_field
  pb_release_union_field-Keeps iter s over =
      let old_tag = count_of iter s.memory in
      choice-Keeps (Over fields) s.stream.bytes_left (old_tag == 0 || old_tag == (current iter).tag)
        _ _ s (λ _. (omega arith, over)) (λ _. release_old-Keeps old_tag iter s over)

  decode_member-Ends :
      (wire_type : ℕ) (iter : Iter) (s : Machine)
      → Over fields iter
      → Ends 0 s.stream.bytes_left (decode_member host fuel noinit wire_type iter s)
  unfolding decode_member
  decode_member-Ends wire_type iter s over =
      let left = s.stream.bytes_left in
      let atype = pb_atype (current iter).type in
      let member = members iter over in
      choice-Ends 0 left (atype == Atype.static) _ _ s
        (λ _. decode_static_field-Ends host fuel noinit P callees wire_type iter s member)
        λ no_static.
          choice-Ends 0 left (atype == Atype.pointer) _ _ s
            (λ _. decode_pointer_field-Ends host fuel noinit P callees iter member wire_type s)
            (λ no_pointer. absurd (not_stored (current iter) member.0 no_static no_pointer))

  pub decode_field-Keeps :
      (wire_type : ℕ) (iter : Iter) (s : Machine)
      → Over fields iter
      → Keeps (Over fields) s.stream.bytes_left (decode_field host fuel noinit wire_type iter s)
  unfolding decode_field
  decode_field-Keeps wire_type iter s over =
      let left = s.stream.bytes_left in
      then-Keeps (Over fields) (Over fields) left _ _
        (choice-Keeps (Over fields) left (pb_htype (current iter).type == Htype.oneof) _ _ s
          (λ _. pb_release_union_field-Keeps iter s over) (λ _. (omega arith, over)))
        λ iter' s' over'.
          after-Keeps (Over fields) s'.stream.bytes_left _ _
            (decode_member-Ends wire_type iter' s' over') (λ a s''. (omega arith, over'))
