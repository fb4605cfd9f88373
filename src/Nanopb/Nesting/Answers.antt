-- ===== src/Nanopb/Nesting/Answers.antt =====
-- AppChat_Again/Pods/nanopb: runs that have an answer.
use app_chat_again.Prelude.{
  sym, subst, not, [], ◌∷◌, ◌==◌, zero, le→ltb, lt→ltb, suc, arith, ◌+◌, refl, if◌then◌else◌, ◌≤◌,
  false, length, none, ◌<◌, true, some, ℕ, ◌≡◌, Option, Bool, List,
}
use native.Mathlib.Decide.{dec_lt}
use app_chat_again.Nanopb.Types.{Field}
use app_chat_again.Nanopb.FieldIter.{field_at, Iter, pb_field_iter_begin}
use app_chat_again.Nanopb.FieldIter.Walk.{
  at_position, IsMessage, at_position-Stands, pb_field_iter_next-at_position,
}
use app_chat_again.Nanopb.Run.{when, Run, carry_on, done, over_fields, for_each_field}

-- The call comes back.
abbrev pub Answers {ℓ} : {A : Type ℓ} → Option A → Type 0
Answers none = ⊥
Answers (some r) = Unit

pub carry_on-Answers {ℓ κ ι} :
    {S : Type ℓ} {A : Type κ} {B : Type ι} (r : Option (Option A × S)) (k : A → Run S B)
    → Answers r
    → ((a : A) (s : S) → Answers (k a s))
    → Answers (carry_on r k)
carry_on-Answers none k h g = h
carry_on-Answers (some (none, s)) k h g = tt
carry_on-Answers (some (some a, s)) k h g = g a s

pub branch-Answers {ℓ} :
    {A : Type ℓ} (b : Bool) (x y : Option A)
    → (b ≡ true → Answers x)
    → (b ≡ false → Answers y)
    → Answers (if b then x else y)
branch-Answers true x y h g = h refl
branch-Answers false x y h g = g refl

-- The same for steps.
pub choice-Answers {ℓ κ} :
    {S : Type ℓ} {A : Type κ} (b : Bool) (f g : Run S A) (s : S)
    → (b ≡ true → Answers (f s))
    → (b ≡ false → Answers (g s))
    → Answers ((if b then f else g) s)
choice-Answers true f g s h k = h refl
choice-Answers false f g s h k = k refl

pub when-Answers {ℓ} :
    {S : Type ℓ} (b : Bool) (f : Run S (Unit {0})) (s : S)
    → (b ≡ true → Answers (f s))
    → Answers (when b f s)
when-Answers true f s h = h refl
when-Answers false f s h = tt

pub nonempty : (fields : List Field) → ((field_at fields 0).tag == 0) ≡ false → 0 < length fields
nonempty [] e = ground arith
nonempty (f ∷ fs) e = omega arith

pub test-Answers {ℓ} :
    {A : Type ℓ} (b : Bool) (x y : Option A)
    → (b ≡ true → Answers x)
    → (b ≡ false → Answers y)
    → Answers (elim b [ true ↦ x | false ↦ y ])
test-Answers true x y h k = h refl
test-Answers false x y h k = k refl

module _ {ℓ} {S : Type ℓ} (body : Iter → Run S (Unit {0})) (fields : List Field) (dest_struct : ℕ)
    (m : IsMessage fields)
    (h : (iter : Iter) (s : S) → iter.start ≡ fields → Answers (body iter s)) where
  go_on : ℕ → S → Bool × Iter → Option (Option (Unit {0}) × S)
  go_on rounds s next = elim next.0 [ true ↦ over_fields body rounds next.1 s | false ↦ done tt s ]

  -- As many rounds as there are fields from the position on are enough.
  over_fields-Answers :
      (rounds i : ℕ) (s : S)
      → i < length fields
      → length fields ≤ i + rounds
      → Answers (over_fields body rounds (at_position fields dest_struct i) s)
  unfolding over_fields go_on
  over_fields-Answers zero i s inside enough = absurd (omega arith)
  over_fields-Answers (suc rounds) i s inside enough =
      carry_on-Answers (body (at_position fields dest_struct i) s) _
        (h (at_position fields dest_struct i) s (at_position-Stands fields dest_struct i).over)
        λ a s'.
          subst (λ next. Answers (go_on rounds s' next))
            (sym (pb_field_iter_next-at_position fields dest_struct i m inside))
            (elim (dec_lt (i + 1) (length fields)) [
              | yes more ↦
                  subst
                    (λ b. Answers (
                      go_on rounds s' (
                        if b
                        then (true, at_position fields dest_struct (suc i))
                        else (false, at_position fields dest_struct 0))))
                    (sym (lt→ltb (i + 1) (length fields) more))
                    (over_fields-Answers rounds (suc i) s' (omega arith) (omega arith))
              | no last ↦
                  subst
                    (λ b. Answers (
                      go_on rounds s' (
                        if b
                        then (true, at_position fields dest_struct (suc i))
                        else (false, at_position fields dest_struct 0))))
                    (sym (le→ltb (i + 1) (length fields) (omega arith))) tt
            ])

  pub for_each_field-Answers : (s : S) → Answers (for_each_field body fields dest_struct s)
  unfolding for_each_field pb_field_iter_begin at_position
  for_each_field-Answers s =
      test-Answers (not ((field_at fields 0).tag == 0)) _ _
        (λ begun.
          over_fields-Answers (length fields) 0 s (nonempty fields (ground arith)) (omega arith))
        (λ empty. tt)
