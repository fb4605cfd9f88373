-- ===== src/Nanopb/Nesting.antt =====
-- AppChat_Again/Pods/nanopb: messages whose submessages are nested to a depth, for which the functions
-- on messages come back.
pub mod Answers
pub mod Defaults
pub mod Release
pub mod Limit
pub mod Numbers
pub mod Strings
pub mod Endings
pub mod Packed
pub mod Decoders
pub mod StaticField
pub mod PointerField
pub mod Kept
pub mod Walks
pub mod AnyField
pub mod Fields
pub mod Whole
pub mod Proto3
pub mod Submessage
pub mod Encoding
pub mod Encoders
use app_chat_again.Prelude.{
  sym, subst, ℕ, zero, suc, ◌<◌, ◌≡◌, ◌⊎◌, inl, inr, refl, List, [], ◌∷◌, All, get_or, arith,
}
use app_chat_again.Nanopb.Types.{Field, pb_ltype, pb_atype}
use app_chat_again.Nanopb.Types.Ltype
use app_chat_again.Nanopb.Types.Atype
use app_chat_again.Nanopb.FieldIter.{Iter, current, last_field, field_at}
use app_chat_again.Nanopb.FieldIter.Walk.{IsMessage}
use app_chat_again.Nanopb.Host.{Host}

-- A member that is neither a message nor an extension.
abbrev pub IsScalar : Field → Type 0
IsScalar f = (pb_ltype f.type < Ltype.submessage) ⊎ (pb_ltype f.type ≡ Ltype.fixed_length_bytes)

abbrev pub IsStored : Field → Type 0
IsStored f = (pb_atype f.type ≡ Atype.static) ⊎ (pb_atype f.type ≡ Atype.pointer)

abbrev pub IsMember : (List Field → Type 0) → Host → Field → Type 0
IsMember P host f =
    IsStored f × (IsScalar f ⊎ ((pb_ltype f.type ≡ Ltype.submessage) × P (host.fields_at f.ptr)))

-- Messages of static and pointer fields, without extensions and callbacks, less than `depth` deep.
abbrev pub IsNested : Host → ℕ → List Field → Type 0
IsNested host zero fields = ⊥
IsNested host (suc depth) fields =
    IsMessage fields × All (IsMember (IsNested host depth) host) fields

All-get_or {ℓ} :
    {A : Type ℓ} (P : A → Type 0) (xs : List A) (i : ℕ) (d : A) → All P xs → P d → P (get_or xs i d)
All-get_or P [] i d all h = h
All-get_or P (x ∷ xs) zero d all h = all.0
All-get_or P (x ∷ xs) (suc i) d all h = All-get_or P xs i d all.1 h

-- The entry behind the last one is a required number without a size.
last_field-IsMember : (P : List Field → Type 0) (host : Host) → IsMember P host last_field
last_field-IsMember P host = (inl refl, inl (inl (ground arith)))

pub current-IsMember :
    (host : Host) (depth : ℕ) (fields : List Field) (iter : Iter)
    → IsNested host (suc depth) fields
    → iter.start ≡ fields
    → IsMember (IsNested host depth) host (current iter)
current-IsMember host depth fields iter nested over =
    subst (λ fs. IsMember (IsNested host depth) host (field_at fs iter.position)) (sym over)
      (All-get_or (IsMember (IsNested host depth) host) fields iter.position last_field nested.1
        (last_field-IsMember (IsNested host depth) host))
