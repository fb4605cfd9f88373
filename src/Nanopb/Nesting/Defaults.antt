-- ===== src/Nanopb/Nesting/Defaults.antt =====
-- AppChat_Again/Pods/nanopb/pb_decode.c: setting a nested message to its defaults comes back.
use app_chat_again.Nanopb.Memory.{Memory}
use app_chat_again.Nanopb.FieldIter.{current, Iter}
use app_chat_again.Nanopb.Types.{pb_htype, pb_atype, pb_ltype, Field}
use app_chat_again.Prelude.{
  zero, true, ◌&&◌, suc, not, ◌≤◌, ◌⊎◌, ◌<◌, arith, false, ◌≡◌, ℕ, ◌==◌, List, inr, inl,
}
use app_chat_again.Nanopb.Types.Ltype
use app_chat_again.Nanopb.Types.Htype
use app_chat_again.Nanopb.Types.Atype
use app_chat_again.Nanopb.Host.{Host}
use app_chat_again.Nanopb.Defaults.{
  pb_field_set_to_default, pb_message_set_to_defaults, field_to_default, static_to_default,
  pointer_to_default, init_data, has_count,
}
use app_chat_again.Nanopb.Nesting.{IsNested, IsMember, IsScalar, current-IsMember}
use app_chat_again.Nanopb.Nesting.Answers.{
  Answers, branch-Answers, choice-Answers, when-Answers, for_each_field-Answers,
}
use app_chat_again.Nanopb.Run.{Run, for_each_field}

pub not_extension :
    (P : List Field → Type 0) (host : Host) (f : Field)
    → IsMember P host f
    → (pb_ltype f.type == Ltype.extension) ≡ false
not_extension P host f (stored, inl (inl small)) = ground arith
not_extension P host f (stored, inl (inr fixed)) = ground arith
not_extension P host f (stored, inr (sub, nested)) = ground (arith, sub)

pub scalar-not_submessage : (f : Field) → IsScalar f → (pb_ltype f.type == Ltype.submessage) ≡ false
scalar-not_submessage f h = ground arith

pub nested_of :
    (P : List Field → Type 0) (host : Host) (f : Field)
    → IsScalar f ⊎ ((pb_ltype f.type ≡ Ltype.submessage) × P (host.fields_at f.ptr))
    → (pb_ltype f.type == Ltype.submessage) ≡ true
    → P (host.fields_at f.ptr)
nested_of P host f (inl scalar) e = absurd (ground (arith, scalar-not_submessage f scalar))
nested_of P host f (inr (is_sub, nested)) e = nested

module _ (host : Host) (again : Iter → Run Memory (Unit {0})) (P : List Field → Type 0)
    (sub : (fields : List Field) (dest_struct : ℕ) (memory : Memory)
      → P fields
      → Answers (for_each_field again fields dest_struct memory)) where
  init_data-Answers :
      (iter : Iter) (memory : Memory)
      → IsMember P host (current iter)
      → Answers (init_data host again iter memory)
  unfolding init_data
  init_data-Answers iter memory (stored, kind) =
      let f = current iter in
      choice-Answers (pb_ltype f.type == Ltype.submessage) _ _ memory
        (λ is_sub. sub (host.fields_at f.ptr) iter.p_data memory (nested_of P host f kind is_sub))
        (λ _. choice-Answers (not (f.ptr == 0)) _ _ memory (λ _. tt) (λ _. tt))

  static_to_default-Answers :
      (iter : Iter) (memory : Memory)
      → IsMember P host (current iter)
      → Answers (static_to_default host again iter memory)
  unfolding static_to_default
  static_to_default-Answers iter memory member =
      let f = current iter in
      choice-Answers (pb_htype f.type == Htype.optional && not (iter.p_size == iter.p_data)) _ _
        memory (λ _. init_data-Answers iter _ member)
        (λ _.
          choice-Answers (has_count f) _ _ memory (λ _. tt)
            (λ _. init_data-Answers iter memory member))

  pub field_to_default-Answers :
      (fuel : ℕ) (iter : Iter) (memory : Memory)
      → IsMember P host (current iter)
      → Answers (field_to_default host again fuel iter memory)
  unfolding field_to_default pointer_to_default
  field_to_default-Answers fuel iter memory member =
      let f = current iter in
      branch-Answers (pb_ltype f.type == Ltype.extension) _ _
        (λ ext. absurd (ground (arith, not_extension P host f member)))
        (λ _.
          branch-Answers (pb_atype f.type == Atype.static) _ _
            (λ _. static_to_default-Answers iter memory member)
            (λ _.
              branch-Answers (pb_atype f.type == Atype.pointer) _ _
                (λ _. when-Answers (has_count f) _ _ (λ _. tt)) (λ _. tt)))

module _ (host : Host) where
  pub set_to_default-Answers :
      (depth fuel : ℕ) (fields : List Field) (iter : Iter) (memory : Memory)
      → depth < fuel
      → IsNested host (suc depth) fields
      → iter.start ≡ fields
      → Answers (pb_field_set_to_default host fuel iter memory)
  unfolding pb_field_set_to_default
  set_to_default-Answers depth zero fields iter memory h nested over = absurd (omega arith)
  set_to_default-Answers zero (suc fuel) fields iter memory h nested over =
      field_to_default-Answers host (pb_field_set_to_default host fuel) (IsNested host 0)
        (λ fs dest memory' none. absurd none) fuel iter memory
        (current-IsMember host 0 fields iter nested over)
  set_to_default-Answers (suc depth) (suc fuel) fields iter memory h nested over =
      field_to_default-Answers host (pb_field_set_to_default host fuel) (IsNested host (suc depth))
        (λ fs dest memory' inner.
          for_each_field-Answers (pb_field_set_to_default host fuel) fs dest inner.0
            (λ iter' memory'' over'.
              set_to_default-Answers depth fuel fs iter' memory'' (omega arith) inner over')
            memory')
        fuel iter memory (current-IsMember host (suc depth) fields iter nested over)

  pub pb_message_set_to_defaults-Answers :
      (depth fuel : ℕ) (fields : List Field) (dest_struct : ℕ) (memory : Memory)
      → depth ≤ fuel
      → IsNested host depth fields
      → Answers (pb_message_set_to_defaults host fuel fields dest_struct memory)
  unfolding pb_message_set_to_defaults
  pb_message_set_to_defaults-Answers zero fuel fields dest_struct memory h nested = absurd nested
  pb_message_set_to_defaults-Answers (suc depth) fuel fields dest_struct memory h nested =
      for_each_field-Answers (pb_field_set_to_default host fuel) fields dest_struct nested.0
        (λ iter memory' over.
          set_to_default-Answers depth fuel fields iter memory' (omega arith) nested over)
        memory
