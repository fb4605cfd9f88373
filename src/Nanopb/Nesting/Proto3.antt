-- ===== src/Nanopb/Nesting/Proto3.antt =====
-- AppChat_Again/Pods/nanopb/pb_encode.c: pb_check_proto3_default_value comes back on members of nested
-- messages.
use native.Mathlib.Decide.{dec_lt}
use app_chat_again.Nanopb.Release.{is_static}
use app_chat_again.Nanopb.Defaults.{has_count}
use app_chat_again.Nanopb.Memory.{Memory}
use app_chat_again.Prelude.{
  none, some, true, false, le→ltb, lt→ltb, if◌then◌else◌, sym, subst, ◌+◌, ◌&&◌, ◌≤◌, zero, not,
  length, arith, ◌≡◌, ◌==◌, ◌<◌, List, ℕ, Bool, Option, suc,
}
use app_chat_again.Nanopb.FieldIter.Walk.{
  at_position, IsMessage, at_position-Stands, pb_field_iter_next-at_position,
}
use app_chat_again.Nanopb.FieldIter.{
  Iter, current, field_at, pb_field_iter_begin, pb_field_iter_next,
}
use app_chat_again.Nanopb.Types.{Field, pb_ltype, pb_htype}
use app_chat_again.Nanopb.Types.Ltype
use app_chat_again.Nanopb.Types.Htype
use app_chat_again.Nanopb.Host.{Host}
use app_chat_again.Nanopb.Nesting.{IsMember, IsNested, current-IsMember}
use app_chat_again.Nanopb.Nesting.Answers.{Answers, branch-Answers, nonempty}
use app_chat_again.Nanopb.Nesting.Defaults.{nested_of}
use app_chat_again.Nanopb.MessageEncoder.Proto3.{
  is_nonzero, all_default, default_submessage, default_static, default_value,
  pb_check_proto3_default_value,
}

and_then-Answers :
    (r x : Option Bool)
    → Answers r
    → Answers x
    → Answers (elim r [ none ↦ none | some false ↦ some false | some true ↦ x ])
and_then-Answers none x h k = h
and_then-Answers (some false) x h k = tt
and_then-Answers (some true) x h k = k

module _ (host : Host) (memory : Memory) (check : Field → ℕ → Option Bool) (fields : List Field)
    (dest_struct : ℕ) (m : IsMessage fields)
    (h : (iter : Iter) (p_data : ℕ)
      → iter.start ≡ fields
      → Answers (check (current iter) p_data)) where
  go_on : ℕ → Bool × Iter → Option Bool
  go_on rounds next = elim next.0 [
    | true ↦ all_default host memory check rounds next.1
    | false ↦ some true
  ]

  all_default-Answers :
      (rounds i : ℕ)
      → i < length fields
      → length fields ≤ i + rounds
      → Answers (all_default host memory check rounds (at_position fields dest_struct i))
  unfolding all_default go_on
  all_default-Answers zero i inside enough = absurd (omega arith)
  all_default-Answers (suc rounds) i inside enough =
      let iter = at_position fields dest_struct i in
      and_then-Answers (check (current iter) iter.p_data) (go_on rounds (pb_field_iter_next iter))
        (h iter iter.p_data (at_position-Stands fields dest_struct i).over)
        (subst (λ next. Answers (go_on rounds next))
          (sym (pb_field_iter_next-at_position fields dest_struct i m inside))
          (elim (dec_lt (i + 1) (length fields)) [
            | yes more ↦
                subst
                  (λ b. Answers (
                    go_on rounds (
                      if b
                      then (true, at_position fields dest_struct (suc i))
                      else (false, at_position fields dest_struct 0))))
                  (sym (lt→ltb (i + 1) (length fields) more))
                  (all_default-Answers rounds (suc i) (omega arith) (omega arith))
            | no last ↦
                subst
                  (λ b. Answers (
                    go_on rounds (
                      if b
                      then (true, at_position fields dest_struct (suc i))
                      else (false, at_position fields dest_struct 0))))
                  (sym (le→ltb (i + 1) (length fields) (omega arith))) tt
          ]))

  pub default_submessage-Answers : Answers (default_submessage host memory check fields dest_struct)
  unfolding default_submessage pb_field_iter_begin at_position
  default_submessage-Answers =
      branch-Answers (not ((field_at fields 0).tag == 0)) _ _
        (λ begun.
          all_default-Answers (length fields) 0 (nonempty fields (ground arith)) (omega arith))
        (λ empty. tt)

module _ (host : Host) (memory : Memory) where
  default_value-Answers :
      (check : Field → ℕ → Option Bool) (P : List Field → Type 0) (f : Field) (p_data : ℕ)
      → ((fields : List Field) (dest_struct : ℕ)
          → P fields
          → Answers (default_submessage host memory check fields dest_struct))
      → IsMember P host f
      → Answers (default_value host memory check f p_data)
  unfolding default_value default_static
  default_value-Answers check P f p_data sub member =
      branch-Answers (pb_htype f.type == Htype.required) _ _ (λ _. tt)
        λ _.
          branch-Answers (has_count f) _ _ (λ _. tt)
            λ _.
              branch-Answers (pb_htype f.type == Htype.optional && is_nonzero f.size_offset) _ _
                (λ _. tt)
                λ _.
                  branch-Answers (is_static f) _ _
                    (λ _.
                      branch-Answers (pb_ltype f.type == Ltype.bytes) _ _ (λ _. tt)
                        λ _.
                          branch-Answers (pb_ltype f.type == Ltype.string) _ _ (λ _. tt)
                            λ _.
                              branch-Answers (pb_ltype f.type == Ltype.fixed_length_bytes) _ _
                                (λ _. tt)
                                λ _.
                                  branch-Answers (pb_ltype f.type == Ltype.submessage) _ _
                                    (λ is_sub.
                                      sub (host.fields_at f.ptr) p_data
                                        (nested_of P host f member.1 is_sub))
                                    (λ _. tt))
                    (λ _. tt)

  pub pb_check_proto3_default_value-Answers :
      (depth fuel : ℕ) (f : Field) (p_data : ℕ)
      → depth < fuel
      → IsMember (IsNested host depth) host f
      → Answers (pb_check_proto3_default_value host memory fuel f p_data)
  unfolding pb_check_proto3_default_value
  pb_check_proto3_default_value-Answers depth zero f p_data less member = absurd (omega arith)
  pb_check_proto3_default_value-Answers zero (suc fuel) f p_data less member =
      default_value-Answers (pb_check_proto3_default_value host memory fuel) (IsNested host 0) f
        p_data (λ fields dest none. absurd none) member
  pb_check_proto3_default_value-Answers (suc depth) (suc fuel) f p_data less member =
      default_value-Answers (pb_check_proto3_default_value host memory fuel)
        (IsNested host (suc depth)) f p_data
        (λ fields dest nested.
          default_submessage-Answers host memory (pb_check_proto3_default_value host memory fuel)
            fields dest nested.0
            λ iter p over.
              pb_check_proto3_default_value-Answers depth fuel (current iter) p (omega arith)
                (current-IsMember host depth fields iter nested over))
        member
