-- ===== src/Nanopb/Nesting/Submessage.antt =====
-- AppChat_Again/Pods/nanopb/pb_encode.c: pb_encode_submessage and encode_array come back where what they
-- call does.
use app_chat_again.Nanopb.Encode.{pb_encode_varint, pb_encode_tag, pb_encode_tag_for_field}
use app_chat_again.Prelude.Words.{u64}
use app_chat_again.Nanopb.Release.{is_pointer}
use app_chat_again.Nanopb.Memory.{Memory}
use app_chat_again.Prelude.{leb, zero, ◌&&◌, ◌+◌, ltb, not, ◌==◌, ℕ, Option, none, some, suc}
use app_chat_again.Nanopb.Types.Ltype
use app_chat_again.Nanopb.Types.Wt
use app_chat_again.Nanopb.Types.{Field, pb_ltype}
use app_chat_again.Nanopb.OStream.{is_sizing, OStream, pb_ostream_sizing}
use app_chat_again.Nanopb.Nesting.Answers.{
  Answers, carry_on-Answers, branch-Answers, choice-Answers,
}
use app_chat_again.Nanopb.MessageEncoder.Submessage.{
  Encoder, after_second_pass, second_pass, after_first_pass, pb_encode_submessage, encode_items,
  size_of, packed_size, encode_packed, encode_entry, encode_array,
}
use app_chat_again.Nanopb.Run.{Run, carry_on}

-- Behind a step that comes back of itself.
pub behind-Answers {ℓ κ} :
    {A : Type ℓ} {B : Type κ} (r : Option A × OStream) (k : A → Run OStream B)
    → ((a : A) (s : OStream) → Answers (k a s))
    → Answers (carry_on (some r) k)
behind-Answers (none, s) k g = tt
behind-Answers (some a, s) k g = g a s

after_second_pass-Answers :
    (size : ℕ) (s : OStream) (r : Option (Option (Unit {0}) × OStream))
    → Answers r
    → Answers (after_second_pass size s r)
unfolding after_second_pass
after_second_pass-Answers size s none h = h
after_second_pass-Answers size s (some (status, sub)) h =
    branch-Answers (not (sub.bytes_written == size)) _ _ (λ _. tt) (λ _. tt)

module _ (encode : Run OStream (Unit {0})) (h : (s : OStream) → Answers (encode s)) where
  second_pass-Answers : (size : ℕ) (s : OStream) → Answers (second_pass encode size s)
  unfolding second_pass
  second_pass-Answers size s =
      branch-Answers (is_sizing s.callback) _ _ (λ _. tt)
        λ _.
          branch-Answers (ltb s.max_size (u64 (s.bytes_written + size))) _ _ (λ _. tt)
            λ _. after_second_pass-Answers size s _ (h _)

  after_first_pass-Answers :
      (s : OStream) (r : Option (Option (Unit {0}) × OStream))
      → Answers r
      → Answers (after_first_pass encode s r)
  unfolding after_first_pass
  after_first_pass-Answers s none h' = h'
  after_first_pass-Answers s (some (none, sub)) h' = tt
  after_first_pass-Answers s (some (some a, sub)) h' =
      behind-Answers (pb_encode_varint sub.bytes_written s) _
        (λ b s'. second_pass-Answers sub.bytes_written s')

  pub pb_encode_submessage-Answers : (s : OStream) → Answers (pb_encode_submessage encode s)
  unfolding pb_encode_submessage
  pb_encode_submessage-Answers s = after_first_pass-Answers s _ (h pb_ostream_sizing)

size_of-Answers :
    (r : Option (Option (Unit {0}) × OStream)) (s : OStream) → Answers r → Answers (size_of r s)
unfolding size_of
size_of-Answers none s h = h
size_of-Answers (some (none, t)) s h = tt
size_of-Answers (some (some a, t)) s h = tt

encode_items-Answers :
    (func : Encoder) (f : Field) (count p : ℕ) (s : OStream)
    → ((src : ℕ) (s : OStream) → Answers (func f src s))
    → Answers (encode_items func f count p s)
unfolding encode_items
encode_items-Answers func f zero p s h = tt
encode_items-Answers func f (suc count) p s h =
    carry_on-Answers (func f p s) _ (h p s)
      (λ a s'. encode_items-Answers func f count (p + f.data_size) s' h)

module _ (func : Encoder) (f : Field) (h : (src : ℕ) (s : OStream) → Answers (func f src s)) where
  packed_size-Answers : (p count : ℕ) (s : OStream) → Answers (packed_size func f p count s)
  unfolding packed_size
  packed_size-Answers p count s =
      choice-Answers (pb_ltype f.type == Ltype.fixed32) _ _ s (λ _. tt)
        λ _.
          choice-Answers (pb_ltype f.type == Ltype.fixed64) _ _ s (λ _. tt)
            λ _. size_of-Answers _ s (encode_items-Answers func f count p pb_ostream_sizing h)

  encode_packed-Answers : (p count : ℕ) (s : OStream) → Answers (encode_packed func f p count s)
  unfolding encode_packed
  encode_packed-Answers p count s = behind-Answers (pb_encode_tag Wt.string f.tag s) _ λ a s1.
      carry_on-Answers (packed_size func f p count s1) _ (packed_size-Answers p count s1) λ size s2.
        behind-Answers (pb_encode_varint size s2) _ λ b s3.
          branch-Answers (is_sizing s3.callback) _ _ (λ _. tt)
            (λ _. encode_items-Answers func f count p s3 h)

  pub encode_array-Answers :
      (memory : Memory) (p count : ℕ) (s : OStream) → Answers (encode_array memory f p count func s)
  unfolding encode_array encode_entry
  encode_array-Answers memory p count s =
      choice-Answers (count == 0) _ _ s (λ _. tt)
        λ _.
          choice-Answers (not (is_pointer f) && ltb f.array_size count) _ _ s (λ _. tt)
            λ _.
              choice-Answers (leb (pb_ltype f.type) Ltype.last_packable) _ _ s
                (λ _. encode_packed-Answers p count s)
                (λ _.
                  encode_items-Answers (encode_entry memory func) f count p s
                    (λ src s'. behind-Answers (pb_encode_tag_for_field f s') _ (λ a s''. h _ s'')))
