-- ===== src/Nanopb/Nesting/Release.antt =====
-- AppChat_Again/Pods/nanopb/pb_decode.c: the release of a nested message comes back.
use app_chat_again.Nanopb.FieldDecoders.{load_pointer}
use app_chat_again.Nanopb.Types.{pb_ltype, Field}
use app_chat_again.Nanopb.Memory.{Memory}
use app_chat_again.Prelude.{zero, if◌then◌else◌, ◌+◌, arith, ◌<◌, ◌==◌, ◌≤◌, List, ℕ, suc}
use app_chat_again.Nanopb.FieldIter.{current, Iter}
use app_chat_again.Nanopb.Host.{Host}
use app_chat_again.Nanopb.Types.Ltype
use app_chat_again.Nanopb.Release.{
  pb_release_single_field, pb_release, release_field, release_contents, release_submessages,
  release_items, release_message, is_other_member, is_pointer, submessage_count,
}
use app_chat_again.Nanopb.Nesting.{IsNested, IsMember, current-IsMember}
use app_chat_again.Nanopb.Nesting.Answers.{
  Answers, carry_on-Answers, branch-Answers, choice-Answers, for_each_field-Answers,
}
use app_chat_again.Nanopb.Nesting.Defaults.{not_extension, nested_of}
use app_chat_again.Nanopb.Run.{Run, for_each_field}

module _ (host : Host) (again : Iter → Run Memory (Unit {0})) (P : List Field → Type 0)
    (sub : (fields : List Field) (dest_struct : ℕ) (memory : Memory)
      → P fields
      → Answers (for_each_field again fields dest_struct memory)) where
  release_message-Answers :
      (fields : List Field) (dest_struct : ℕ) (memory : Memory)
      → P fields
      → Answers (release_message host again fields dest_struct memory)
  unfolding release_message
  release_message-Answers fields dest_struct memory nested =
      choice-Answers (dest_struct == 0) _ _ memory (λ _. tt)
        (λ _. sub fields dest_struct memory nested)

  release_items-Answers :
      (f : Field) (count item : ℕ) (memory : Memory)
      → P (host.fields_at f.ptr)
      → Answers (release_items host again f count item memory)
  unfolding release_items
  release_items-Answers f zero item memory nested = tt
  release_items-Answers f (suc count) item memory nested =
      carry_on-Answers (release_message host again (host.fields_at f.ptr) item memory) _
        (release_message-Answers (host.fields_at f.ptr) item memory nested)
        (λ a memory'. release_items-Answers f count (item + f.data_size) memory' nested)

  release_submessages-Answers :
      (iter : Iter) (memory : Memory)
      → P (host.fields_at (current iter).ptr)
      → Answers (release_submessages host again iter memory)
  unfolding release_submessages
  release_submessages-Answers iter memory nested =
      let f = current iter in
      let item = if is_pointer f then load_pointer iter.p_data memory else iter.p_data in
      branch-Answers (item == 0) _ _ (λ _. tt)
        (λ _. release_items-Answers f (submessage_count iter memory) item memory nested)

  release_contents-Answers :
      (fuel : ℕ) (iter : Iter) (memory : Memory)
      → IsMember P host (current iter)
      → Answers (release_contents host again fuel iter memory)
  unfolding release_contents
  release_contents-Answers fuel iter memory member =
      let f = current iter in
      branch-Answers (pb_ltype f.type == Ltype.extension) _ _
        (λ ext. absurd (ground (arith, not_extension P host f member)))
        (λ _.
          branch-Answers (pb_ltype f.type == Ltype.submessage) _ _
            (λ is_sub. release_submessages-Answers iter memory (nested_of P host f member.1 is_sub))
            (λ _. tt))

  pub release_field-Answers :
      (fuel : ℕ) (iter : Iter) (memory : Memory)
      → IsMember P host (current iter)
      → Answers (release_field host again fuel iter memory)
  unfolding release_field
  release_field-Answers fuel iter memory member =
      branch-Answers (is_other_member iter memory) _ _ (λ _. tt)
        (λ _.
          carry_on-Answers (release_contents host again fuel iter memory) _
            (release_contents-Answers fuel iter memory member)
            (λ a memory'.
              choice-Answers (is_pointer (current iter)) _ _ memory' (λ _. tt) (λ _. tt)))

module _ (host : Host) where
  pub release_single-Answers :
      (depth fuel : ℕ) (iter : Iter) (memory : Memory)
      → depth < fuel
      → IsMember (IsNested host depth) host (current iter)
      → Answers (pb_release_single_field host fuel iter memory)
  unfolding pb_release_single_field
  release_single-Answers depth zero iter memory h member = absurd (omega arith)
  release_single-Answers zero (suc fuel) iter memory h member =
      release_field-Answers host (pb_release_single_field host fuel) (IsNested host 0)
        (λ fs dest memory' none. absurd none) fuel iter memory member
  release_single-Answers (suc depth) (suc fuel) iter memory h member =
      release_field-Answers host (pb_release_single_field host fuel) (IsNested host (suc depth))
        (λ fs dest memory' inner.
          for_each_field-Answers (pb_release_single_field host fuel) fs dest inner.0
            (λ iter' memory'' over.
              release_single-Answers depth fuel iter' memory'' (omega arith)
                (current-IsMember host depth fs iter' inner over))
            memory')
        fuel iter memory member

  pub pb_release-Answers :
      (depth fuel : ℕ) (fields : List Field) (dest_struct : ℕ) (memory : Memory)
      → depth ≤ fuel
      → IsNested host depth fields
      → Answers (pb_release host fuel fields dest_struct memory)
  unfolding pb_release release_message
  pb_release-Answers zero fuel fields dest_struct memory h nested = absurd nested
  pb_release-Answers (suc depth) fuel fields dest_struct memory h nested =
      choice-Answers (dest_struct == 0) _ _ memory (λ _. tt)
        (λ _.
          for_each_field-Answers (pb_release_single_field host fuel) fields dest_struct nested.0
            (λ iter memory' over.
              release_single-Answers depth fuel iter memory' (omega arith)
                (current-IsMember host depth fields iter nested over))
            memory)
