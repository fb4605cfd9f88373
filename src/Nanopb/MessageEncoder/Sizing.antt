-- ===== src/Nanopb/MessageEncoder/Sizing.antt =====
-- AppChat_Again/Pods/nanopb/pb_encode.c: what an encoder does on a stream that only counts, against
-- what it does on a buffer.
pub mod Values
pub mod Submessages
pub mod Arrays
pub mod Messages
pub mod Members
pub mod Whole
use mathlib.Core.Path.{fun_ext}
use app_chat_again.Prelude.{
  and_then, subst, length-append, ℕ, zero, suc, ◌+◌, ◌*◌, ◌^◌, ◌≤◌, ◌<◌, ◌≡◌, refl, sym, ap, ◌∙◌,
  Bool, true, false, Option, none, some, List, [], ◌++◌, length, if◌then◌else◌, arith, M,
  append-nil, append_assoc,
}
use app_chat_again.Prelude.Words.{u64}
use app_chat_again.Nanopb.Types.{Message}
use app_chat_again.Nanopb.OStream.{OStream, pb_write}
use app_chat_again.Nanopb.OStream.Buffer.{writer, counter, write-fits_count}
use app_chat_again.Nanopb.Run.{when, Run, ended, done, carry_on, ◌>>◌}

-- A counting stream without an error.
abbrev pub counting : ℕ → OStream
counting n = counter [] 0 (u64 n) none

-- On every buffer with room for them, the run writes these bytes.
abbrev pub Writes : Run OStream (Unit {0}) → List ℕ → Type 0
Writes f bytes =
    (out : List ℕ) (max written : ℕ)
    → written + length bytes ≤ max
    → max < 2 ^ 64
    → f (writer out max written none)
      ≡ some (some tt, writer (out ++ bytes) max (written + length bytes) none)

-- Where the counting run succeeds, it counts these bytes, and the run writes them.
abbrev pub AgreesAt :
    Run OStream (Unit {0}) → List ℕ → ℕ → Option (Option (Unit {0}) × OStream) → Type 0
AgreesAt f bytes n none = Unit
AgreesAt f bytes n (some (none, z)) = Unit
AgreesAt f bytes n (some (some tt, z)) = (z ≡ counting (n + length bytes)) × Writes f bytes

unfoldable pub Agrees : Run OStream (Unit {0}) → List ℕ → Type 0
Agrees f bytes = (n : ℕ) → AgreesAt f bytes n (f (counting n))

pub u64_add : (n k : ℕ) → u64 (u64 n + k) ≡ u64 (n + k)
u64_add n k = omega arith

pub Writes-write :
    (buf : List ℕ) (count : ℕ) → length buf ≡ count → Writes (ended (pb_write buf count)) buf
Writes-write buf count e out max written room small =
    rw (write-fits_count out buf max written none count e (omega (arith, e, room)) small, e)

pub Agrees-write :
    (buf : List ℕ) (count : ℕ) → length buf ≡ count → Agrees (ended (pb_write buf count)) buf
unfolding pb_write Agrees
Agrees-write buf count e n = (rw (u64_add n count, e) refl, Writes-write buf count e)

pub Writes-done : Writes (done tt) []
Writes-done out max written room small =
    rw (append-nil out) (ap (λ n. some (some tt, writer out max n none)) (omega arith))

pub Agrees-done : Agrees (done tt) []
unfolding Agrees
Agrees-done n = (ap counting (omega arith), Writes-done)

-- One run behind another.
pub Writes-then :
    (f g : Run OStream (Unit {0})) (b c : List ℕ)
    → Writes f b
    → Writes g c
    → Writes (λ s. carry_on (f s) (λ _. g)) (b ++ c)
Writes-then f g b c h k out max written room small =
    let whole = length-append b c in
    rw
      (
        h out max written (omega arith) small,
        k (out ++ b) max (written + length b) (omega arith) small,
        append_assoc out b c,
        whole,
      )
      (ap (λ n. some (some tt, writer (out ++ (b ++ c)) max n none)) (omega arith))

Agrees-behind :
    (f g : Run OStream (Unit {0})) (n : ℕ) (b c : List ℕ)
    → Writes f b
    → (r : Option (Option (Unit {0}) × OStream)) → AgreesAt g c (n + length b) r
    → AgreesAt (λ s. carry_on (f s) (λ _. g)) (b ++ c) n r
Agrees-behind f g n b c h none a = tt
Agrees-behind f g n b c h (some (none, z)) a = tt
Agrees-behind f g n b c h (some (some tt, z)) (e, k) =
    (e ∙ ap counting (omega (arith, length-append b c)), Writes-then f g b c h k)

Agrees-sequence :
    (f g : Run OStream (Unit {0})) (n : ℕ) (b c : List ℕ)
    → Agrees g c
    → (r : Option (Option (Unit {0}) × OStream)) → AgreesAt f b n r
    → AgreesAt (λ s. carry_on (f s) (λ _. g)) (b ++ c) n (carry_on r (λ _. g))
unfolding Agrees
Agrees-sequence f g n b c k none a = tt
Agrees-sequence f g n b c k (some (none, z)) a = tt
Agrees-sequence f g n b c k (some (some tt, z)) (e, h) =
    rw e (Agrees-behind f g n b c h (g (counting (n + length b))) (k (n + length b)))

pub Agrees-then :
    (f g : Run OStream (Unit {0})) (b c : List ℕ)
    → Agrees f b
    → Agrees g c
    → Agrees (λ s. carry_on (f s) (λ _. g)) (b ++ c)
unfolding Agrees
Agrees-then f g b c h k n = Agrees-sequence f g n b c k (f (counting n)) (h n)

-- Tests that the stream has no part in.
pub Agrees-branch :
    (b : Bool) (f g : Run OStream (Unit {0})) (x y : List ℕ)
    → (b ≡ true → Agrees f x)
    → (b ≡ false → Agrees g y)
    → Agrees (if b then f else g) (if b then x else y)
Agrees-branch true f g x y h k = h refl
Agrees-branch false f g x y h k = k refl

-- A test whose branches stand for the same bytes: one of them is an error.
pub Agrees-either :
    (b : Bool) (f g : Run OStream (Unit {0})) (x : List ℕ)
    → (b ≡ true → Agrees f x)
    → (b ≡ false → Agrees g x)
    → Agrees (if b then f else g) x
Agrees-either true f g x h k = h refl
Agrees-either false f g x h k = k refl

pub Agrees-when :
    (b : Bool) (f : Run OStream (Unit {0})) (x : List ℕ)
    → Agrees f x
    → Agrees (when b f) (if b then x else [])
Agrees-when true f x h = h
Agrees-when false f x h = Agrees-done

pub Agrees-test :
    (b : Bool) (f g : Run OStream (Unit {0})) (x y : List ℕ)
    → Agrees f x
    → Agrees g y
    → Agrees (λ s. elim b [ true ↦ f s | false ↦ g s ]) (if b then x else y)
Agrees-test true f g x y h k = h
Agrees-test false f g x y h k = k

pub Agrees-same :
    (f g : Run OStream (Unit {0})) (x : List ℕ)
    → ((s : OStream) → f s ≡ g s)
    → Agrees f x
    → Agrees g x
Agrees-same f g x e h = subst (λ r. Agrees r x) (fun_ext e) h

and_then-carry_on :
    (r : Option (Unit {0}) × OStream) (g : M OStream (Unit {0}))
    → carry_on (some r) (λ _. ended g) ≡ some (and_then r (λ _. g))
and_then-carry_on (none, s) g = refl
and_then-carry_on (some a, s) g = refl

-- The same for functions that always come back.
pub Agrees-and_then :
    (f g : M OStream (Unit {0})) (b c : List ℕ)
    → Agrees (ended f) b
    → Agrees (ended g) c
    → Agrees (ended (λ s. and_then (f s) (λ _. g))) (b ++ c)
Agrees-and_then f g b c h k =
    Agrees-same (λ s. carry_on (ended f s) (λ _. ended g)) (ended (λ s. and_then (f s) (λ _. g)))
      (b ++ c) (λ s. and_then-carry_on (f s) g) (Agrees-then (ended f) (ended g) b c h k)

pub Agrees-two :
    (b : Bool) (f g : M OStream (Unit {0})) (x y : List ℕ)
    → Agrees (ended f) x
    → Agrees (ended g) y
    → Agrees (ended (λ s. if b then f s else g s)) (if b then x else y)
Agrees-two true f g x y h k = h
Agrees-two false f g x y h k = k

pub Agrees-choice :
    (b : Bool) (f g : M OStream (Unit {0})) (x : List ℕ)
    → Agrees (ended f) x
    → Agrees (ended g) x
    → Agrees (ended (λ s. if b then f s else g s)) x
Agrees-choice true f g x h k = h
Agrees-choice false f g x h k = k
