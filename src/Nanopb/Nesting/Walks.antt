-- ===== src/Nanopb/Nesting/Walks.antt =====
-- AppChat_Again/Pods/nanopb/pb_common.c and pb_decode.c: the walks of an iterator keep the fields of its
-- message, and there is no extension in a nested one.
use app_chat_again.Prelude.{
  zero, ◌+◌, refl, ◌∙◌, inr, false, inl, ◌==◌, suc, Bool-cases, ◌≡◌, List, ℕ,
}
use app_chat_again.Nanopb.Types.{pb_ltype, Field}
use app_chat_again.Nanopb.FieldIter.{
  Iter, current, field_at, first_of_fields, step_to, same_union, pb_field_iter_next, find_loop,
  pb_field_iter_find, is_wanted,
}
use app_chat_again.Nanopb.MessageDecoder.AnyField.{find_extension_loop, find_extension_field}
use app_chat_again.Nanopb.Types.Ltype

step_to-over : (prev f : Field) (iter : Iter) → (step_to prev f iter).start ≡ iter.start
unfolding step_to
step_to-over prev f iter = elim (Bool-cases (same_union prev f)) [
  | inl same ↦ rw same refl
  | inr other ↦ rw other refl
]

next-over : (iter : Iter) → (pb_field_iter_next iter).1.start ≡ iter.start
unfolding pb_field_iter_next first_of_fields
next-over iter = elim (Bool-cases ((current iter).tag == 0)) [
  | inl end ↦ rw end refl
  | inr more ↦ rw more (elim (Bool-cases ((field_at iter.start (iter.position + 1)).tag == 0)) [
    | inl last ↦ rw last refl
    | inr step ↦ rw step (step_to-over _ _ iter)
  ])
]

find_loop-over :
    (fuel origin tag : ℕ) (iter : Iter) → (find_loop fuel origin tag iter).1.start ≡ iter.start
unfolding find_loop
find_loop-over zero origin tag iter = refl
find_loop-over (suc fuel) origin tag iter =
    let iter' = (pb_field_iter_next iter).1 in
    elim (Bool-cases (is_wanted tag (current iter))) [
      | inl found ↦ rw found refl
      | inr other ↦ rw other (elim (Bool-cases (iter'.position == origin)) [
        | inl back ↦ rw back (next-over iter)
        | inr go ↦ rw go (find_loop-over fuel origin tag iter' ∙ next-over iter)
      ])
    ]

pub pb_field_iter_find-over :
    (tag : ℕ) (iter : Iter) → (pb_field_iter_find tag iter).1.start ≡ iter.start
unfolding pb_field_iter_find
pb_field_iter_find-over tag iter = find_loop-over _ _ tag iter

module _ (fields : List Field)
    (no_extension : (iter : Iter)
      → iter.start ≡ fields
      → (pb_ltype (current iter).type == Ltype.extension) ≡ false) where
  find_extension_loop-none :
      (fuel start : ℕ) (iter : Iter)
      → iter.start ≡ fields
      → ((find_extension_loop fuel start iter).0 ≡ false)
        × ((find_extension_loop fuel start iter).1.start ≡ fields)
  unfolding find_extension_loop
  find_extension_loop-none zero start iter over = (refl, over)
  find_extension_loop-none (suc fuel) start iter over =
      let iter' = (pb_field_iter_next iter).1 in
      rw (no_extension iter over) (elim (Bool-cases (iter'.position == start)) [
        | inl back ↦ rw back (refl, next-over iter ∙ over)
        | inr go ↦ rw go (find_extension_loop-none fuel start iter' (next-over iter ∙ over))
      ])

  pub find_extension_field-none :
      (iter : Iter)
      → iter.start ≡ fields
      → ((find_extension_field iter).0 ≡ false) × ((find_extension_field iter).1.start ≡ fields)
  unfolding find_extension_field
  find_extension_field-none iter over = find_extension_loop-none _ _ iter over
