-- ===== src/Nanopb/FieldIter/Walk.antt =====
-- AppChat_Again/Pods/nanopb/pb_common.c: the iterator walks the fields in a circle, and its
-- pointers depend on its position only.
use native.Mathlib.Decide.{dec_lt}
use app_chat_again.Nanopb.Types.{Field}
use app_chat_again.Nanopb.FieldIter.{
  same_union, pb_field_iter_next, current, last_field, field_at, first_of_fields, Iter, Field,
  step_to,
}
use app_chat_again.Prelude.{
  le→ltb, lt→ltb, true, false, ltb, ◌==◌, if◌then◌else◌, ◌+◌, inr, inl, Bool-cases, refl, [], ◌∷◌,
  arith, zero, ◌≤◌, suc, ◌≡◌, ◌≢◌, length, ◌<◌, All, ℕ, List,
}

-- No entry is the terminator.
abbrev pub IsMessage : List Field → Type 0
IsMessage fields = All (λ (f : Field). f.tag ≢ 0) fields

-- The iterator that has made `i` steps from the first field.
unfoldable pub at_position : List Field → ℕ → ℕ → Iter
at_position fields dest_struct zero = first_of_fields fields dest_struct
at_position fields dest_struct (suc i) =
    step_to (field_at fields i) (field_at fields (i + 1)) (at_position fields dest_struct i)

pub tag-ne-zero :
    (fields : List Field) (i : ℕ)
    → IsMessage fields
    → i < length fields
    → (field_at fields i).tag ≢ 0
tag-ne-zero [] i m h = absurd (omega arith)
tag-ne-zero (f ∷ fs) zero m h = m.0
tag-ne-zero (f ∷ fs) (suc i) m h = tag-ne-zero fs i m.1 (omega arith)

pub field_at_end :
    (fields : List Field) (i : ℕ) → length fields ≤ i → field_at fields i ≡ last_field
field_at_end [] i h = refl
field_at_end (f ∷ fs) zero h = absurd (omega arith)
field_at_end (f ∷ fs) (suc i) h = field_at_end fs i (omega arith)

pub nonzero : (n : ℕ) → n ≢ 0 → (n == 0) ≡ false
nonzero n h = ground arith

-- Where an iterator stands, and over what.
pub record Stands (fields : List Field) (dest_struct i : ℕ) (iter : Iter) : Type 0 where
  pub over : iter.start ≡ fields
  pub in_struct : iter.dest_struct ≡ dest_struct
  pub at_index : iter.position ≡ i

step_to-Stands :
    (prev f : Field) (fields : List Field) (dest_struct i : ℕ) (iter : Iter)
    → Stands fields dest_struct i iter
    → Stands fields dest_struct (suc i) (step_to prev f iter)
unfolding step_to
step_to-Stands prev f fields dest_struct i iter s = elim (Bool-cases (same_union prev f)) [
  | inl same ↦ rw same (record { over = s.over; in_struct = s.in_struct; at_index = omega arith })
  | inr other ↦ rw other (record { over = s.over; in_struct = s.in_struct; at_index = omega arith })
]

pub at_position-Stands :
    (fields : List Field) (dest_struct i : ℕ)
    → Stands fields dest_struct i (at_position fields dest_struct i)
unfolding at_position first_of_fields
at_position-Stands fields dest_struct zero = record {
  over = refl;
  in_struct = refl;
  at_index = refl;
}
at_position-Stands fields dest_struct (suc i) =
    step_to-Stands (field_at fields i) (field_at fields (i + 1)) fields dest_struct i
      (at_position fields dest_struct i) (at_position-Stands fields dest_struct i)

pub current-at_position :
    (fields : List Field) (dest_struct i : ℕ)
    → current (at_position fields dest_struct i) ≡ field_at fields i
current-at_position fields dest_struct i =
    let s = at_position-Stands fields dest_struct i in cc (s.over, s.at_index)

-- On a message, pb_field_iter_next goes on to the next field, and behind the last one it is back
-- at the first with the iterator as it was begun; it answers `true` exactly in the first case.
pub pb_field_iter_next-at_position :
    (fields : List Field) (dest_struct i : ℕ)
    → IsMessage fields
    → i < length fields
    → pb_field_iter_next (at_position fields dest_struct i) ≡ (
        if ltb (i + 1) (length fields)
        then (true, at_position fields dest_struct (suc i))
        else (false, at_position fields dest_struct 0))
unfolding pb_field_iter_next at_position
pb_field_iter_next-at_position fields dest_struct i m h =
    let s = at_position-Stands fields dest_struct i in
    rw (s.over, s.at_index, s.in_struct, nonzero (field_at fields i).tag (tag-ne-zero fields i m h))
      (elim (dec_lt (i + 1) (length fields)) [
        | yes more ↦ rw (
          lt→ltb (i + 1) (length fields) more,
          nonzero (field_at fields (i + 1)).tag (tag-ne-zero fields (i + 1) m more),
        )
        | no last ↦ rw (
          le→ltb (i + 1) (length fields) (omega arith),
          field_at_end fields (i + 1) (omega arith),
        )
      ])
