-- ===== src/Nanopb/Nesting/Endings.antt =====
-- AppChat_Again/Pods/nanopb/pb_decode.c: calls that come back, and what they leave of the limit.
use app_chat_again.Nanopb.Decode.{pb_close_string_substream, pb_make_string_substream}
use app_chat_again.Nanopb.Memory.{Machine, Memory}
use app_chat_again.Nanopb.IStream.{IStream}
use app_chat_again.Prelude.{
  refl, if◌then◌else◌, ◌==◌, none, arith, false, true, some, ◌≤◌, ◌+◌, ◌≡◌, Option, Bool, ℕ,
}
use app_chat_again.Nanopb.Nesting.Answers.{Answers}
use app_chat_again.Nanopb.Nesting.Limit.{Eats}
use app_chat_again.Nanopb.Nesting.Numbers.{
  Leaves, weaken-Leaves, pb_make_string_substream-Eats, pb_close_string_substream-Eats,
}
use app_chat_again.Nanopb.MessageDecoder.Steps.{
  on_memory, memory_result, open_substream, closed, close_after,
}
use app_chat_again.Nanopb.MessageDecoder.StaticField.{close_packed}
use app_chat_again.Nanopb.Run.{Run, carry_on, when}

-- An answer, with what it leaves of the limit.
abbrev pub Ends {ℓ} : {A : Type ℓ} → ℕ → ℕ → Option (Option A × Machine) → Type 0
Ends count left none = ⊥
Ends count left (some r) = Leaves count left r

pub Ends-Answers {ℓ} :
    {A : Type ℓ} (count left : ℕ) (r : Option (Option A × Machine)) → Ends count left r → Answers r
Ends-Answers count left none h = h
Ends-Answers count left (some r) h = tt

pub weaken-Ends {ℓ} :
    {A : Type ℓ} (m n left : ℕ) (r : Option (Option A × Machine))
    → n ≤ m
    → Ends m left r
    → Ends n left r
weaken-Ends m n left none h e = e
weaken-Ends m n left (some r) h e = weaken-Leaves m n left r h e

add-Ends {ℓ} :
    {A : Type ℓ} (m n left between : ℕ) (r : Option (Option A × Machine))
    → between + m ≤ left
    → Ends n between r
    → Ends (m + n) left r
add-Ends m n left between none h e = e
add-Ends m n left between (some (none, s)) h e = omega arith
add-Ends m n left between (some (some a, s)) h e = omega arith

pub then-Ends {ℓ κ} :
    {A : Type ℓ} {B : Type κ} (m n left : ℕ) (r : Option (Option A × Machine))
    (k : A → Run Machine B)
    → Ends m left r
    → ((a : A) (s : Machine) → Ends n s.stream.bytes_left (k a s))
    → Ends (m + n) left (carry_on r k)
then-Ends m n left none k h g = h
then-Ends m n left (some (none, s)) k h g = h
then-Ends m n left (some (some a, s)) k h g =
    add-Ends m n left s.stream.bytes_left (k a s) h (g a s)

-- Behind a step that only comes back.
pub behind-Ends {ℓ κ} :
    {A : Type ℓ} {B : Type κ} (count left : ℕ) (r : Option (Option A × Machine))
    (k : A → Run Machine B)
    → Ends 0 left r
    → ((a : A) (s : Machine) → Ends count s.stream.bytes_left (k a s))
    → (Ends count left (carry_on r k))
behind-Ends count left r k h g =
    weaken-Ends (0 + count) count left (carry_on r k) (omega arith) (then-Ends 0 count left r k h g)

pub choice-Ends {ℓ} :
    {A : Type ℓ} (count left : ℕ) (b : Bool) (f g : Run Machine A) (s : Machine)
    → (b ≡ true → Ends count left (f s))
    → (b ≡ false → Ends count left (g s))
    → Ends count left ((if b then f else g) s)
choice-Ends count left true f g s h k = h refl
choice-Ends count left false f g s h k = k refl

pub branch-Ends {ℓ} :
    {A : Type ℓ} (count left : ℕ) (b : Bool) (x y : Option (Option A × Machine))
    → (b ≡ true → Ends count left x)
    → (b ≡ false → Ends count left y)
    → Ends count left (if b then x else y)
branch-Ends count left true x y h k = h refl
branch-Ends count left false x y h k = k refl

pub when-Ends :
    (b : Bool) (f : Run Machine (Unit {0})) (s : Machine)
    → (b ≡ true → Ends 0 s.stream.bytes_left (f s))
    → Ends 0 s.stream.bytes_left (when b f s)
when-Ends true f s h = h refl
when-Ends false f s h = omega arith

memory_result-Ends {ℓ} :
    {A : Type ℓ} (s : Machine) (r : Option (Option A × Memory))
    → Answers r
    → Ends 0 s.stream.bytes_left (memory_result s r)
memory_result-Ends s none h = h
memory_result-Ends s (some (none, m)) h = omega arith
memory_result-Ends s (some (some a, m)) h = omega arith

pub on_memory-Ends {ℓ} :
    {A : Type ℓ} (f : Run Memory A) (s : Machine)
    → Answers (f s.memory)
    → Ends 0 s.stream.bytes_left (on_memory f s)
on_memory-Ends f s h = memory_result-Ends s (f s.memory) h

pub on_stream-Ends {ℓ} :
    {A : Type ℓ} (count left : ℕ) (s : Machine) (r : Option A × IStream)
    → Eats count left r
    → Ends count left (some (r.0, record s { stream = r.1 }))
on_stream-Ends count left s (none, t) h = h
on_stream-Ends count left s (some a, t) h = h

pub open_substream-Ends : (s : Machine) → Ends 0 s.stream.bytes_left (open_substream s)
unfolding open_substream
open_substream-Ends s =
    on_stream-Ends 0 s.stream.bytes_left s (pb_make_string_substream s.stream)
      (pb_make_string_substream-Eats s.stream)

closed-Leaves {ℓ} :
    {A : Type ℓ} (left : ℕ) (status : Option A) (s : Machine) (r : Option (Unit {0}) × IStream)
    → Eats 0 left r
    → Leaves 0 left (closed status s r)
unfolding closed
closed-Leaves left status s (none, t) h = h
closed-Leaves left none s (some a, t) h = omega arith
closed-Leaves left (some b) s (some a, t) h = h

-- Where the substream is closed, the limit is the parent's.
pub close_after-Ends {ℓ} :
    {A : Type ℓ} (parent : IStream) (r : Option (Option A × Machine))
    → Answers r
    → Ends 0 parent.bytes_left (close_after parent r)
unfolding close_after
close_after-Ends parent none h = h
close_after-Ends parent (some (status, s)) h =
    closed-Leaves parent.bytes_left status s (pb_close_string_substream s.stream parent)
      (pb_close_string_substream-Eats s.stream parent)

pub close_packed-Ends :
    (parent : IStream) (r : Option (Option (Unit {0}) × Machine))
    → Answers r
    → Ends 0 parent.bytes_left (close_packed parent r)
unfolding close_packed
close_packed-Ends parent none h = h
close_packed-Ends parent (some (status, s)) h =
    branch-Ends 0 parent.bytes_left (s.stream.bytes_left == 0) _ _
      (λ _. close_after-Ends parent (some (status, s)) tt) (λ _. omega arith)
