-- ===== src/Nanopb/Run.antt =====
-- AppChat_Again/Pods/nanopb: C functions on recursive data, and the loops over the fields of a message.
use app_chat_again.Prelude.{Bool, ℕ, zero, suc, true, false, Option, none, some, List, length, M}
use app_chat_again.Nanopb.FieldIter.{Iter, pb_field_iter_next, pb_field_iter_begin}
use app_chat_again.Nanopb.Types.{Field}

-- The outer `none` stands for a call without an answer: the fuel of the model is used up, or an
-- entry of a table of functions is called that is NULL. The inner one is the answer `false`.
abbrev pub Run {ℓ κ} : Type ℓ → Type κ → Type (ℓ ⊔ κ)
Run S A = S → Option (Option A × S)

module _ {ℓ κ} {S : Type ℓ} {A : Type κ} where
  -- A call that always comes back.
  abbrev pub ended : M S A → Run S A
  ended f s = some (f s)

  abbrev pub done : A → Run S A
  done a s = some (some a, s)

  abbrev pub no_answer : Run S A
  no_answer s = none

  -- The rest of a function behind `if (!call) return false;`.
  abbrev pub carry_on {ι} :
      {B : Type ι} → Option (Option A × S) → (A → Run S B) → Option (Option B × S)
  carry_on none k = none
  carry_on (some (none, s)) k = some (none, s)
  carry_on (some (some a, s)) k = k a s

-- `if (condition) body`
abbrev pub when {ℓ} : {S : Type ℓ} → Bool → Run S (Unit {0}) → Run S (Unit {0})
when true body = body
when false body = done tt

infixl 5 ◌>>=◌ ◌>>◌
abbrev pub ◌>>=◌ {ℓ κ ι} :
    {S : Type ℓ} {A : Type κ} {B : Type ι} → Run S A → (A → Run S B) → Run S B
◌>>=◌ m k s = carry_on (m s) k

abbrev pub ◌>>◌ {ℓ ι} : {S : Type ℓ} {B : Type ι} → Run S (Unit {0}) → Run S B → Run S B
◌>>◌ m k s = carry_on (m s) (λ _. k)

-- `do { body } while (pb_field_iter_next(&iter));` on fuel, a unit for each round.
unfoldable pub over_fields {ℓ} :
    {S : Type ℓ} → (Iter → Run S (Unit {0})) → ℕ → Iter → Run S (Unit {0})
over_fields body zero iter s = none
over_fields body (suc fuel) iter s = carry_on (body iter s) λ _ s'.
    elim (pb_field_iter_next iter).0 [
      | true ↦ over_fields body fuel (pb_field_iter_next iter).1 s'
      | false ↦ done tt s'
    ]

-- What pb_encode, pb_release and pb_message_set_to_defaults do with a message: nothing for an empty
-- one, and else a round for each field.
unfoldable pub for_each_field {ℓ} :
    {S : Type ℓ} → (Iter → Run S (Unit {0})) → List Field → ℕ → Run S (Unit {0})
unfolding over_fields
for_each_field body fields struct_address s =
    let (begun, iter) = pb_field_iter_begin fields struct_address in
    elim begun [ true ↦ over_fields body (length fields) iter s | false ↦ done tt s ]
