-- ===== src/Nanopb/Nesting/Kept.antt =====
-- AppChat_Again/Pods/nanopb/pb_decode.c: calls that come back with an answer of which something is kept:
-- an iterator that still walks the fields of the message.
use app_chat_again.Nanopb.Memory.{Machine}
use app_chat_again.Prelude.{
  refl, if◌then◌else◌, false, arith, none, true, some, ◌≤◌, ◌≡◌, Bool, Option, ℕ,
}
use app_chat_again.Nanopb.Nesting.Answers.{Answers}
use app_chat_again.Nanopb.Nesting.Endings.{Ends}
use app_chat_again.Nanopb.Run.{Run, carry_on}

-- An answer of which `P` holds, with what it leaves of the limit.
abbrev pub Keeps {ℓ} : {A : Type ℓ} → (A → Type 0) → ℕ → Option (Option A × Machine) → Type 0
Keeps P left none = ⊥
Keeps P left (some (none, s)) = s.stream.bytes_left ≤ left
Keeps P left (some (some a, s)) = (s.stream.bytes_left ≤ left) × P a

weaken-Keeps {ℓ} :
    {A : Type ℓ} (P : A → Type 0) (between left : ℕ) (r : Option (Option A × Machine))
    → between ≤ left
    → Keeps P between r
    → Keeps P left r
weaken-Keeps P between left none le h = h
weaken-Keeps P between left (some (none, s)) le h = omega arith
weaken-Keeps P between left (some (some a, s)) le (less, p) = (omega arith, p)

pub then-Keeps {ℓ κ} :
    {A : Type ℓ} {B : Type κ} (P : A → Type 0) (Q : B → Type 0) (left : ℕ)
    (r : Option (Option A × Machine)) (k : A → Run Machine B)
    → Keeps P left r
    → ((a : A) (s : Machine) → P a → Keeps Q s.stream.bytes_left (k a s))
    → Keeps Q left (carry_on r k)
then-Keeps P Q left none k h g = h
then-Keeps P Q left (some (none, s)) k h g = h
then-Keeps P Q left (some (some a, s)) k (less, p) g =
    weaken-Keeps Q s.stream.bytes_left left (k a s) less (g a s p)

-- Behind a step whose answer is not looked at.
pub after-Keeps {ℓ κ} :
    {A : Type ℓ} {B : Type κ} (Q : B → Type 0) (left : ℕ) (r : Option (Option A × Machine))
    (k : A → Run Machine B)
    → Ends 0 left r
    → ((a : A) (s : Machine) → Keeps Q s.stream.bytes_left (k a s))
    → Keeps Q left (carry_on r k)
after-Keeps Q left none k h g = h
after-Keeps Q left (some (none, s)) k h g = h
after-Keeps Q left (some (some a, s)) k h g =
    weaken-Keeps Q s.stream.bytes_left left (k a s) (omega arith) (g a s)

pub choice-Keeps {ℓ} :
    {A : Type ℓ} (P : A → Type 0) (left : ℕ) (b : Bool) (f g : Run Machine A) (s : Machine)
    → (b ≡ true → Keeps P left (f s))
    → (b ≡ false → Keeps P left (g s))
    → Keeps P left ((if b then f else g) s)
choice-Keeps P left true f g s h k = h refl
choice-Keeps P left false f g s h k = k refl

-- Behind it, a step that comes back.
pub kept-Answers {ℓ κ} :
    {A : Type ℓ} {B : Type κ} (P : A → Type 0) (left : ℕ) (r : Option (Option A × Machine))
    (k : A → Run Machine B)
    → Keeps P left r
    → ((a : A) (s : Machine) → s.stream.bytes_left ≤ left → P a → Answers (k a s))
    → Answers (carry_on r k)
kept-Answers P left none k h g = h
kept-Answers P left (some (none, s)) k h g = tt
kept-Answers P left (some (some a, s)) k (less, p) g = g a s less p
