-- ===== src/Nanopb/MessageDecoder/Required/Refused.antt =====
-- AppChat_Again/Pods/nanopb/pb_decode.c: the check at the end of pb_decode_noinit.
use app_chat_again.Nanopb.Memory.{Machine}
use app_chat_again.Nanopb.Run.{Run}
use app_chat_again.Nanopb.Types.{missing_required_field, Field}
use app_chat_again.Prelude.{
  inr, inl, Bool-cases, arith, ◌≤◌, some, ◌≡◌, none, length, ◌<◌, ltb, if◌then◌else◌, ℕ, List,
}
use app_chat_again.Nanopb.Host.{Host}
use app_chat_again.Nanopb.MessageDecoder.{
  missing_required_field, return_error, Machine, Run, Field, Host, List, check_complete,
  is_unfinished,
}
use app_chat_again.Nanopb.MessageDecoder.Required.Seen.{all_among, seen_after, Below}
use app_chat_again.Nanopb.MessageDecoder.Required.Complete.{all_seen-all_among}
use app_chat_again.Nanopb.MessageDecoder.Required.Counted.{with_size, req_field_count-total}
use app_chat_again.Nanopb.FieldIter.Walk.{at_position, IsMessage}
use app_chat_again.Nanopb.FieldIter.Layout.{count_required}

-- The number of required fields that are kept track of.
abbrev pub tracked : List Field → ℕ
tracked fields = if ltb 64 (count_required fields) then 64 else count_required fields

-- At the end of a message, wherever in it the iterator stands and whatever pSize it has, the decoder
-- answers `true` if each of the required fields, or of the first 64 of them, was marked, in any order
-- and any number of times, and else the error "missing required field". The message has fields and
-- no fixed count field was decoded; only indexes of required fields, less than 64, were marked.
pub check_complete-all_among :
    (host : Host) (fuel : ℕ) (noinit : List Field → ℕ → Run Machine (Unit {0}))
    (fields : List Field) (dest_struct i p range : ℕ) (indexes : List ℕ) (s : Machine)
    → IsMessage fields
    → i < length fields
    → Below (tracked fields) indexes
    → check_complete host fuel noinit
        (record {
          iter = with_size p (at_position fields dest_struct i);
          fields_seen = seen_after indexes;
          extension_range_start = range;
          fixed_count_field = none;
        })
        s
      ≡ (if all_among (tracked fields) indexes
          then some (some tt, s)
          else some (return_error missing_required_field s))
unfolding check_complete is_unfinished
check_complete-all_among host fuel noinit fields dest_struct i p range indexes s m h below =
    let small : tracked fields ≤ 64 = ground arith in
    rw
      (
        req_field_count-total fields dest_struct m i p h,
        all_seen-all_among indexes (tracked fields) small below,
      )
      (elim (Bool-cases (all_among (tracked fields) indexes)) [
        | inl all ↦ rw all
        | inr missing ↦ rw missing
      ])
