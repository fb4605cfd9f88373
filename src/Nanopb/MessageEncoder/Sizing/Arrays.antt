-- ===== src/Nanopb/MessageEncoder/Sizing/Arrays.antt =====
-- AppChat_Again/Pods/nanopb/pb_encode.c: arrays on a stream that only counts.
use app_chat_again.Nanopb.Varint.{varint}
use app_chat_again.Nanopb.Types.Ltype
use app_chat_again.Nanopb.Types.Wt
use app_chat_again.Nanopb.Encode.{pb_encode_varint}
use app_chat_again.Nanopb.Types.{pb_ltype, Field}
use native.Mathlib.Nat.{mul-suc}
use app_chat_again.Prelude.Words.{u64}
use app_chat_again.Prelude.{
  ◌==◌, false, true, Bool, length-append, zero, subst, ◌*◌, Option, refl, arith, ◌++◌, [],
  if◌then◌else◌, length, ◌+◌, none, ℕ, some, List, ◌≡◌,
}
use app_chat_again.Nanopb.Run.{ended, carry_on, Run}
use app_chat_again.Nanopb.OStream.{is_sizing, OStream, pb_write}
use app_chat_again.Nanopb.MessageEncoder.Sizing.{
  length-append, Writes-done, ended, carry_on, suc, u64, ◌≡◌, List, OStream, pb_write, Run, Agrees,
  AgreesAt, Writes, Writes-then, Agrees-then, Agrees-done,
}
use app_chat_again.Nanopb.MessageEncoder.Sizing.Values.{Agrees-tag, Agrees-no_answer, Agrees-size}
use app_chat_again.Nanopb.Encode.{pb_encode_tag}
use app_chat_again.Nanopb.MessageEncoder.Wire.{with_length, item_bytes, tag_bytes}
use app_chat_again.Nanopb.MessageEncoder.Submessage.{
  packed_size, encode_packed, Encoder, encode_items, size_of,
}
use app_chat_again.Nanopb.MessageEncoder.Sizing.Submessages.{
  Agrees-fail, Agrees-counted, fresh, from_start,
}

module _ (func : Encoder) (value : Field → ℕ → List ℕ) (f : Field) where
  pub Agrees-encode_items :
      ((p : ℕ) → Agrees (func f p) (value f p))
      → (count p : ℕ) → Agrees (encode_items func f count p) (item_bytes value f count p)
  unfolding encode_items item_bytes
  Agrees-encode_items h zero p = Agrees-done
  Agrees-encode_items h (suc count) p =
      Agrees-then (func f p) _ (value f p) _ (h p) (Agrees-encode_items h count (p + f.data_size))

  -- Every item is as long, whatever the stream.
  abbrev pub FixedSize : ℕ → Type 0
  FixedSize k = (p : ℕ) → (length (value f p) ≡ k) × Writes (func f p) (value f p)

  fixed_items :
      (k : ℕ)
      → FixedSize k
      → (count p : ℕ)
      → (length (item_bytes value f count p) ≡ k * count)
        × Writes (encode_items func f count p) (item_bytes value f count p)
  unfolding encode_items item_bytes
  fixed_items k h zero p = (omega arith, Writes-done)
  fixed_items k h (suc count) p =
      let (e, w) = h p in
      let (es, ws) = fixed_items k h count (p + f.data_size) in
      (
        omega (
          arith,
          length-append (value f p) (item_bytes value f count (p + f.data_size)),
          mul-suc k count,
        ),
        Writes-then (func f p) (encode_items func f count (p + f.data_size)) (value f p)
            (item_bytes value f count (p + f.data_size)) w ws,
      )

  abbrev behind_size : ℕ → ℕ → ℕ → Run OStream (Unit {0})
  behind_size p count size s = carry_on (ended (pb_encode_varint size) s) λ _ s'.
      if is_sizing s'.callback then some (pb_write [] size s') else encode_items func f count p s'

  Agrees-behind_size :
      (p count : ℕ) (bytes : List ℕ)
      → Writes (encode_items func f count p) bytes
      → Agrees (behind_size p count (u64 (length bytes))) (with_length bytes)
  Agrees-behind_size p count bytes h =
      Agrees-then (ended (pb_encode_varint (u64 (length bytes)))) _ (varint 9 (u64 (length bytes)))
        bytes (Agrees-size (u64 (length bytes)) (omega arith))
        (Agrees-counted (encode_items func f count p) bytes (u64 (length bytes)) h refl)

  Agrees-fixed :
      (k p count : ℕ)
      → FixedSize k
      → Agrees (behind_size p count (u64 (k * count))) (with_length (item_bytes value f count p))
  Agrees-fixed k p count h =
      let bytes = item_bytes value f count p in
      let (e, w) = fixed_items k h count p in
      subst (λ n. Agrees (behind_size p count (u64 n)) (with_length bytes)) e
        (Agrees-behind_size p count bytes w)

  Agrees-size_of :
      (p count : ℕ) (bytes : List ℕ) (r : Option (Option (Unit {0}) × OStream))
      → AgreesAt (encode_items func f count p) bytes 0 r
      → Agrees (λ s. carry_on (size_of r s) (behind_size p count)) (with_length bytes)
  unfolding size_of
  Agrees-size_of p count bytes none a = Agrees-no_answer (with_length bytes)
  Agrees-size_of p count bytes (some (none, z)) a =
      Agrees-fail _ (λ s. s) (with_length bytes) (λ s. refl)
  Agrees-size_of p count bytes (some (some tt, z)) (e, h) =
      rw (fresh z bytes e) (Agrees-behind_size p count bytes h)

  Agrees-size_branch :
      (b : Bool) (x y : Run OStream ℕ) (k : ℕ → Run OStream (Unit {0})) (bytes : List ℕ)
      → (b ≡ true → Agrees (λ s. carry_on (x s) k) bytes)
      → (b ≡ false → Agrees (λ s. carry_on (y s) k) bytes)
      → Agrees (λ s. carry_on ((if b then x else y) s) k) bytes
  Agrees-size_branch true x y k bytes h g = h refl
  Agrees-size_branch false x y k bytes h g = g refl

  -- The size of a packed array is that of its items, whether it is computed or counted.
  pub Agrees-encode_packed :
      ((pb_ltype f.type == Ltype.fixed32) ≡ true → FixedSize 4)
      → ((pb_ltype f.type == Ltype.fixed64) ≡ true → FixedSize 8)
      → ((p : ℕ) → Agrees (func f p) (value f p))
      → (p count : ℕ)
      → Agrees
          (encode_packed func f p count)
          (tag_bytes Wt.string f.tag ++ with_length (item_bytes value f count p))
  unfolding encode_packed packed_size
  Agrees-encode_packed four eight h p count =
      let bytes = item_bytes value f count p in
      Agrees-then (ended (pb_encode_tag Wt.string f.tag)) _ (tag_bytes Wt.string f.tag)
        (with_length bytes) (Agrees-tag Wt.string f.tag (omega arith))
        (Agrees-size_branch _ _ _ (behind_size p count) (with_length bytes)
          (λ e. Agrees-fixed 4 p count (four e))
          (λ _.
            Agrees-size_branch _ _ _ (behind_size p count) (with_length bytes)
              (λ e. Agrees-fixed 8 p count (eight e))
              (λ _.
                Agrees-size_of p count bytes _
                  (from_start _ bytes (Agrees-encode_items h count p)))))
