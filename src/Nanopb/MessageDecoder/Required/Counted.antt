-- ===== src/Nanopb/MessageDecoder/Required/Counted.antt =====
-- AppChat_Again/Pods/nanopb/pb_decode.c: the number of required fields that pb_decode_noinit finds out
-- at its end, wherever in the message the iterator stands.
use app_chat_again.Nanopb.Types.{Field}
use app_chat_again.Prelude.{
  [], ◌-◌, refl, sym, take, ltb, if◌then◌else◌, ◌∙◌, Bool, ap, zero, inr, suc, arith, ◌≤◌, false,
  inl, true, ◌<◌, Bool-cases, length, ◌+◌, ◌≡◌, ℕ, List,
}
use native.Mathlib.Decide.{dec_lt}
use app_chat_again.Nanopb.FieldIter.{
  Iter, pb_field_iter_next, step_to, same_union, first_of_fields, field_at,
}
use app_chat_again.Nanopb.FieldIter.Walk.{
  current-at_position, at_position, IsMessage, at_position-Stands, tag-ne-zero, field_at_end,
  nonzero,
}
use app_chat_again.Nanopb.FieldIter.Layout.{
  count_required-take, step_to-required, count_required, is_required,
}
use app_chat_again.Nanopb.MessageDecoder.Required.{
  ◌∷◌, suc, ℕ, List, last_field_loop, required_total, req_field_count,
}

-- The decoder of a fixed count field puts its own counter for pSize.
abbrev pub with_size : ℕ → Iter → Iter
with_size p iter = record iter { p_size = p }

take_whole : (fields : List Field) (n : ℕ) → n ≡ length fields → take n fields ≡ fields
take_whole [] zero e = refl
take_whole [] (suc n) e = absurd (omega arith)
take_whole (f ∷ fs) zero e = absurd (omega arith)
take_whole (f ∷ fs) (suc n) e = ap (λ l. f ∷ l) (take_whole fs n (omega arith))

module _ (fields : List Field) (dest_struct : ℕ) (m : IsMessage fields) where
  step-with_size :
      (prev f : Field) (iter : Iter) (p : ℕ)
      → (p' : ℕ) × (step_to prev f (with_size p iter) ≡ with_size p' (step_to prev f iter))
  unfolding step_to
  step-with_size prev f iter p = elim (Bool-cases (same_union prev f)) [
    | inl same ↦ (p, rw same)
    | inr other ↦ ((step_to prev f iter).p_size, rw other)
  ]

  next-step :
      (iter : Iter) (i : ℕ)
      → iter.start ≡ fields
      → iter.position ≡ i
      → i + 1 < length fields
      → pb_field_iter_next iter ≡ (true, step_to (field_at fields i) (field_at fields (i + 1)) iter)
  unfolding pb_field_iter_next
  next-step iter i over at h = rw (
    over,
    at,
    nonzero (field_at fields i).tag (tag-ne-zero fields i m (omega arith)),
    nonzero (field_at fields (i + 1)).tag (tag-ne-zero fields (i + 1) m h),
  )

  next-with_size :
      (i p : ℕ)
      → i + 1 < length fields
      → (p' : ℕ) × (pb_field_iter_next (with_size p (at_position fields dest_struct i))
          ≡ (true, with_size p' (at_position fields dest_struct (suc i))))
  unfolding at_position
  next-with_size i p h =
      let s = at_position-Stands fields dest_struct i in
      let iter = at_position fields dest_struct i in
      let (p', e) = step-with_size (field_at fields i) (field_at fields (i + 1)) iter p in
      (
        p',
        next-step (with_size p iter) i s.over s.at_index h
            ∙ ap {A = Iter} {B = Bool × Iter} (λ k. (true, k)) e,
      )

  next-last :
      (i p : ℕ)
      → i + 1 ≡ length fields
      → pb_field_iter_next (with_size p (at_position fields dest_struct i))
        ≡ (false, at_position fields dest_struct 0)
  unfolding pb_field_iter_next at_position
  next-last i p h =
      let s = at_position-Stands fields dest_struct i in
      rw (
        s.over,
        s.at_index,
        s.in_struct,
        nonzero (field_at fields i).tag (tag-ne-zero fields i m (omega arith)),
        field_at_end fields (i + 1) (omega arith),
      )

  -- The last field, as the loop leaves it.
  abbrev at_last : ℕ → ℕ × (ℕ × Iter)
  at_last last = (
    (at_position fields dest_struct last).required_field_index,
    ((field_at fields last).type, at_position fields dest_struct 0),
  )

  last_field_loop-at_last :
      (fuel i p last : ℕ)
      → last + 1 ≡ length fields
      → i ≤ last
      → last ≤ i + fuel
      → last_field_loop fuel (with_size p (at_position fields dest_struct i)) ≡ at_last last
  unfolding last_field_loop
  last_field_loop-at_last zero i p last e h k =
      rw (next-last i p (omega arith), current-at_position fields dest_struct i)
        (ap at_last (omega arith))
  last_field_loop-at_last (suc fuel) i p last e h k = elim (dec_lt i last) [
    | yes more ↦
        let (p', next) = next-with_size i p (omega arith) in
        rw next (last_field_loop-at_last fuel (suc i) p' last e (omega arith) (omega arith))
    | no end ↦
        rw (next-last i p (omega arith), current-at_position fields dest_struct i)
          (ap at_last (omega arith))
  ]

  -- The iterator has counted the required fields before it.
  required_field_index-take :
      (i : ℕ)
      → i < length fields
      → (at_position fields dest_struct i).required_field_index ≡ count_required (take i fields)
  unfolding at_position
  required_field_index-take zero h = unfold first_of_fields count_required in refl
  required_field_index-take (suc i) h =
      step_to-required (field_at fields i) (field_at fields (i + 1))
        (at_position fields dest_struct i)
      ∙ ap (λ n. n + (if is_required (field_at fields i) then 1 else 0))
          (required_field_index-take i (omega arith))
      ∙ sym (count_required-take fields i (omega arith))

  all_counted :
      (last : ℕ)
      → last + 1 ≡ length fields
      → count_required fields
        ≡ (at_position fields dest_struct last).required_field_index
          + (if is_required (field_at fields last) then 1 else 0)
  all_counted last e =
      let whole : take (suc last) fields ≡ fields = take_whole fields (suc last) (omega arith) in
      sym (ap count_required whole)
      ∙ count_required-take fields last (omega arith)
      ∙ ap (λ n. n + (if is_required (field_at fields last) then 1 else 0))
          (sym (required_field_index-take last (omega arith)))

  total-at_last :
      (last : ℕ)
      → last + 1 ≡ length fields
      → required_total (at_last last)
        ≡ (if ltb 64 (count_required fields) then 64 else count_required fields)
  unfolding required_total is_required
  total-at_last last e =
      let first = current-at_position fields dest_struct 0 in
      let tagged = nonzero (field_at fields 0).tag (tag-ne-zero fields 0 m (omega arith)) in
      let total = all_counted last e in rw (first, tagged, total) (ground arith)

  -- Wherever in the message the iterator stands, and whatever it has for pSize, the number that is
  -- checked is that of the required fields of the message, or 64 where it has more.
  pub req_field_count-total :
      (i p : ℕ)
      → i < length fields
      → req_field_count (with_size p (at_position fields dest_struct i))
        ≡ (if ltb 64 (count_required fields) then 64 else count_required fields)
  unfolding req_field_count required_total
  req_field_count-total i p h =
      let iter = with_size p (at_position fields dest_struct i) in
      let last : length fields - 1 + 1 ≡ length fields = omega arith in
      ap (λ fs. required_total (last_field_loop (length fs) iter))
        (at_position-Stands fields dest_struct i).over
      ∙ ap required_total (
          last_field_loop-at_last (length fields) i p (length fields - 1) last (omega arith)
            (omega arith))
      ∙ total-at_last (length fields - 1) last
