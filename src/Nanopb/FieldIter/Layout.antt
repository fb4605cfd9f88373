-- ===== src/Nanopb/FieldIter/Layout.antt =====
-- AppChat_Again/Pods/nanopb/pb_common.c: the pointers and the count of required fields that the
-- iterator keeps, against the structure that the macros of pb.h describe.
use app_chat_again.Nanopb.FieldIter.{
  pb_atype, first_of_fields, field_at, last_field, member_size, pb_htype, Iter, same_union, step_to,
}
use app_chat_again.Prelude.{
  ◌≢◌, ◌↔◌, ◌*◌, ◌-◌, ◌⊎◌, true, ◌^◌, refl, sym, ap, ◌∙◌, inr, zero, inl, Bool-cases, get_or, suc,
  take, arith, [], ◌==◌, length, if◌then◌else◌, ◌+◌, ◌≡◌, ◌∷◌, ◌<◌, ℕ, Bool, List,
}
use app_chat_again.Nanopb.Types.{pb_atype, pb_htype, Field}
use app_chat_again.Nanopb.Types.Htype
use app_chat_again.Nanopb.Types.Atype
use app_chat_again.Nanopb.FieldIter.Walk.{at_position}

unfoldable pub is_required : Field → Bool
is_required f = pb_htype f.type == Htype.required

-- The number of required fields in a list.
unfoldable pub count_required : List Field → ℕ
unfolding is_required
count_required [] = 0
count_required (f ∷ fs) = if is_required f then suc (count_required fs) else count_required fs

pub count_required-take :
    (fields : List Field) (i : ℕ)
    → i < length fields
    → count_required (take (suc i) fields)
      ≡ count_required (take i fields) + (if is_required (field_at fields i) then 1 else 0)
unfolding count_required
count_required-take [] i h = absurd (omega arith)
count_required-take (f ∷ fs) zero h = ground arith
count_required-take (f ∷ fs) (suc i) h = ground (arith, count_required-take fs i (omega arith))

pub step_to-required :
    (prev f : Field) (iter : Iter)
    → (step_to prev f iter).required_field_index
      ≡ iter.required_field_index + (if is_required prev then 1 else 0)
unfolding step_to same_union is_required
step_to-required prev f iter = ground arith

-- What a member takes in the structure: an array all its entries, a pointer eight bytes, and every
-- other one its data.
abbrev pub MemberSize : Field → ℕ → Type 0
MemberSize f n =
    ((pb_atype f.type ≡ Atype.static)
      × (pb_htype f.type ≡ Htype.repeated)
      × (n ≡ f.data_size * f.array_size))
    ⊎ ((pb_atype f.type ≡ Atype.pointer) × (n ≡ 8))
    ⊎ ((pb_atype f.type ≢ Atype.pointer)
        × ((pb_atype f.type ≢ Atype.static) ⊎ (pb_htype f.type ≢ Htype.repeated))
        × (n ≡ f.data_size))

-- A member of a union behind its first one: PB_DATAOFFSET_UNION.
abbrev pub SharesUnion : Field → Field → Type 0
SharesUnion prev f =
    (pb_htype prev.type ≡ Htype.oneof)
    × (pb_htype f.type ≡ Htype.oneof)
    × (f.data_offset ≡ 2 ^ 32 - 1)

-- The offset of a field is that of the union it shares, or it is counted from the end of the member
-- before it: PB_DATAOFFSET_OTHER.
abbrev pub OffsetBehind : Field → ℕ → Field → ℕ → Type 0
OffsetBehind prev o f o' =
    (SharesUnion prev f × (o' ≡ o))
    ⊎ (¬ (SharesUnion prev f) × (n : ℕ) × MemberSize prev n × (o' ≡ o + n + f.data_offset))

-- The offsets of the members in the structure.
abbrev pub LaidBehind : Field → ℕ → List Field → List ℕ → Type 0
LaidBehind prev o [] [] = Unit
LaidBehind prev o [] (o' ∷ os) = ⊥
LaidBehind prev o (f ∷ fs) [] = ⊥
LaidBehind prev o (f ∷ fs) (o' ∷ os) = OffsetBehind prev o f o' × LaidBehind f o' fs os

member_size-MemberSize : (f : Field) (n : ℕ) → MemberSize f n → member_size f ≡ n
unfolding member_size
member_size-MemberSize f n m = ground arith

same_union-SharesUnion : (prev f : Field) → (same_union prev f ≡ true) ↔ SharesUnion prev f
unfolding same_union
same_union-SharesUnion prev f = ground arith

abbrev pub IsLayout : List Field → List ℕ → Type 0
IsLayout [] os = ⊥
IsLayout (f ∷ fs) [] = ⊥
IsLayout (f ∷ fs) (o ∷ os) = (o ≡ f.data_offset) × LaidBehind f o fs os

step_to-p_data :
    (prev f : Field) (iter : Iter) (dest_struct o o' : ℕ)
    → OffsetBehind prev o f o'
    → iter.p_data ≡ dest_struct + o
    → (step_to prev f iter).p_data ≡ dest_struct + o'
unfolding step_to
step_to-p_data prev f iter dest_struct o o' (inl (shares, p)) e =
    rw ((same_union-SharesUnion prev f).1 shares) (omega arith)
step_to-p_data prev f iter dest_struct o o' (inr (other, n, size, p)) e =
    elim (Bool-cases (same_union prev f)) [
      | inl same ↦ absurd (other ((same_union-SharesUnion prev f).0 same))
      | inr apart ↦ rw apart (omega (arith, member_size-MemberSize prev n size))
    ]

laid_step :
    (prev : Field) (o : ℕ) (fields : List Field) (offsets : List ℕ) (i : ℕ)
    → LaidBehind prev o fields offsets
    → i < length fields
    → OffsetBehind
        (get_or (prev ∷ fields) i last_field)
        (get_or (o ∷ offsets) i 0)
        (field_at fields i)
        (get_or offsets i 0)
laid_step prev o [] offsets i l h = absurd (omega arith)
laid_step prev o (f ∷ fs) [] i l h = elim l [ ]
laid_step prev o (f ∷ fs) (o' ∷ os) zero l h = l.0
laid_step prev o (f ∷ fs) (o' ∷ os) (suc i) l h = laid_step f o' fs os i l.1 (omega arith)

-- At every field the iterator has counted the required fields before it, and where the structure
-- is laid out as the descriptors say, its data pointer is that member's address.
pub at_position-layout :
    (fields : List Field) (offsets : List ℕ) (dest_struct i : ℕ)
    → IsLayout fields offsets
    → i < length fields
    → ((at_position fields dest_struct i).p_data ≡ dest_struct + get_or offsets i 0)
      × ((at_position fields dest_struct i).required_field_index ≡ count_required (take i fields))
unfolding at_position
at_position-layout [] offsets dest_struct i l h = elim l [ ]
at_position-layout (f ∷ fs) [] dest_struct i l h = elim l [ ]
at_position-layout (f ∷ fs) (o ∷ os) dest_struct zero l h =
    unfold first_of_fields count_required in (omega arith, refl)
at_position-layout (f ∷ fs) (o ∷ os) dest_struct (suc i) l h =
    let (p, r) = at_position-layout (f ∷ fs) (o ∷ os) dest_struct i l (omega arith) in
    let iter = at_position (f ∷ fs) dest_struct i in
    let prev = field_at (f ∷ fs) i in
    let next : i + 1 ≡ suc i = omega arith in
    rw next (
      step_to-p_data prev (field_at fs i) iter dest_struct (get_or (o ∷ os) i 0) (get_or os i 0)
          (laid_step f o fs os i l.1 (omega arith)) p,
      step_to-required prev (field_at fs i) iter
          ∙ ap (λ n. n + (if is_required prev then 1 else 0)) r
          ∙ sym (count_required-take (f ∷ fs) i (omega arith)),
    )
