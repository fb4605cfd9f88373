-- ===== src/Nanopb/Decode/Skip.antt =====
-- AppChat_Again/Pods/nanopb/pb_decode.c: pb_skip_field passes over exactly one field.
use app_chat_again.Nanopb.Decode.TopBit.{more_follows_set, more_follows_clear}
use app_chat_again.Nanopb.Decode.Varint32.{pb_decode_varint32-value}
use app_chat_again.Nanopb.Types.Wt
use app_chat_again.Nanopb.IStream.{dest, null}
use app_chat_again.Nanopb.IStream.Buffer.{read-enough, read-append, reader}
use app_chat_again.Nanopb.Varint.{value, IsVarint}
use app_chat_again.Nanopb.Types.{Message}
use app_chat_again.Prelude.{
  zero, [], ap, ◌∙◌, lt→ltb, and_then, append_assoc, length-append, ◌+◌, arith, ◌-◌, some, ◌^◌, ◌<◌,
  ◌++◌, ◌≤◌, length, ◌≡◌, Option, List, ℕ,
}
use app_chat_again.Nanopb.Decode.{
  suc, null, ◌∷◌, skip_bytes, pb_skip_field, pb_skip_string, skip_varint_loop,
}

-- What may stand behind a tag of the given wire type.
pub data Payload (wire_type : ℕ) : List ℕ → Type 0 where
  varint_payload : (bs : List ℕ) → wire_type ≡ Wt.varint → IsVarint bs → Payload wire_type bs
  bits64_payload : (bs : List ℕ) → wire_type ≡ Wt.bits64 → length bs ≡ 8 → Payload wire_type bs
  bits32_payload : (bs : List ℕ) → wire_type ≡ Wt.bits32 → length bs ≡ 4 → Payload wire_type bs
  string_payload :
      (len body : List ℕ)
      → wire_type ≡ Wt.string
      → IsVarint len
      → length len ≤ 5
      → value len ≡ length body
      → length body < 2 ^ 32
      → Payload wire_type (len ++ body)

skip_varint-value :
    (bs : List ℕ) (fuel left : ℕ) (input : List ℕ) (err : Option Message)
    → IsVarint bs
    → length bs ≤ fuel
    → length bs ≤ left
    → skip_varint_loop fuel (reader (bs ++ input) left err)
      ≡ (some tt, reader input (left - length bs) err)
unfolding skip_varint_loop
skip_varint-value [] fuel left input err v f l = elim v [ ]
skip_varint-value (b ∷ bs) zero left input err v f l = absurd (omega arith)
skip_varint-value (b ∷ []) (suc fuel) left input err v f l =
    rw (read-enough (b ∷ input) err dest 1 left l, and_then, more_follows_clear b v)
skip_varint-value (b ∷ c ∷ bs) (suc fuel) left input err (hi, byte, v) f l =
    rw
      (
        read-enough (b ∷ c ∷ (bs ++ input)) err dest 1 left (omega arith),
        and_then,
        more_follows_set b hi byte,
      )
      (skip_varint-value (c ∷ bs) fuel (left - 1) input err v (omega arith) (omega arith)
        ∙ ap (λ n. (some tt, reader input n err)) (omega arith))

skip_bytes-length :
    (bs input : List ℕ) (left : ℕ) (err : Option Message)
    → length bs ≤ left
    → skip_bytes (length bs) (reader (bs ++ input) left err)
      ≡ (some tt, reader input (left - length bs) err)
unfolding skip_bytes
skip_bytes-length bs input left err l = rw (read-append null bs input left err l)

skip_string-body :
    (len body input : List ℕ) (left : ℕ) (err : Option Message)
    → IsVarint len
    → length len ≤ 5
    → value len ≡ length body
    → length body < 2 ^ 32
    → length (len ++ body) ≤ left
    → pb_skip_string (reader ((len ++ body) ++ input) left err)
      ≡ (some tt, reader input (left - length (len ++ body)) err)
unfolding pb_skip_string
skip_string-body len body input left err v n e h l =
    rw
      (
        append_assoc len body input,
        pb_decode_varint32-value len (body ++ input) left err v n (omega (arith, both)),
        e,
        lt→ltb (length body) (2 ^ 32) h,
        and_then,
        read-append null body input (left - length len) err (omega (arith, both)),
        both,
      )
      (ap (λ n. (some tt, reader input n err)) (omega arith))
  where
    both : length (len ++ body) ≡ length len + length body
    both = length-append len body

-- pb_skip_field succeeds on every payload of its wire type that lies within the limit, and leaves the
-- stream behind it.
pub pb_skip_field-Payload :
    (wire_type left : ℕ) (bs input : List ℕ) (err : Option Message)
    → Payload wire_type bs
    → length bs ≤ left
    → pb_skip_field wire_type (reader (bs ++ input) left err)
      ≡ (some tt, reader input (left - length bs) err)
unfolding pb_skip_field
pb_skip_field-Payload wire_type left bs input err (varint_payload _ w v) l =
    rw (w) (skip_varint-value bs left left input err v l l)
pb_skip_field-Payload wire_type left bs input err (bits64_payload _ w n) l =
    rw (w, ← n) (skip_bytes-length bs input left err l)
pb_skip_field-Payload wire_type left bs input err (bits32_payload _ w n) l =
    rw (w, ← n) (skip_bytes-length bs input left err l)
pb_skip_field-Payload wire_type left _ input err (string_payload len body w v n e h) l =
    rw w (skip_string-body len body input left err v n e h l)
