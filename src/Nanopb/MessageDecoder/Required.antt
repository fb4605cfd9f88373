-- ===== src/Nanopb/MessageDecoder/Required.antt =====
-- AppChat_Again/Pods/nanopb/pb_decode.c: the required fields that pb_decode_noinit has seen.
pub mod Seen
pub mod Refused
pub mod Counted
pub mod Complete
use app_chat_again.Prelude.{
  ℕ, zero, suc, ◌+◌, ◌-◌, ◌/◌, ◌%◌, ◌^◌, ◌==◌, ◌&&◌, not, ltb, Bool, true, List, [], ◌∷◌, length,
  get_or, set, bit_or, if◌then◌else◌,
}
use app_chat_again.Nanopb.Types.{pb_htype}
use app_chat_again.Nanopb.Types.Htype
use app_chat_again.Nanopb.FieldIter.{Iter, current, pb_field_iter_next}

abbrev pub pb_max_required_fields : ℕ
pb_max_required_fields = 64

-- `~(uint32_t)0`
abbrev pub allbits : ℕ
allbits = 2 ^ 32 - 1

-- `uint32_t fields_seen[2] = {0, 0}`
abbrev pub none_seen : List ℕ
none_seen = 0 ∷ 0 ∷ []

-- `fields_seen[index >> 5] |= (uint32_t)1 << (index & 31)`
unfoldable pub set_seen : ℕ → List ℕ → List ℕ
set_seen index fields_seen =
    let word = index / 2 ^ 5 in
    set fields_seen word (bit_or (get_or fields_seen word 0) (2 ^ (index % 2 ^ 5)))

unfoldable pub mark_seen : Iter → List ℕ → List ℕ
unfolding set_seen
mark_seen iter fields_seen =
    if pb_htype (current iter).type == Htype.required
      && ltb iter.required_field_index pb_max_required_fields
    then set_seen iter.required_field_index fields_seen
    else fields_seen

-- `do { … } while (pb_field_iter_next(&iter));`: the index and the type of the last field, and the
-- iterator. A round for each field is enough.
unfoldable pub last_field_loop : ℕ → Iter → ℕ × (ℕ × Iter)
last_field_loop zero iter =
    (iter.required_field_index, ((current iter).type, (pb_field_iter_next iter).1))
last_field_loop (suc fuel) iter =
    let more = last_field_loop fuel (pb_field_iter_next iter).1 in
    if (pb_field_iter_next iter).0
    then more
    else (iter.required_field_index, ((current iter).type, (pb_field_iter_next iter).1))

-- The last field counts as well, and no more than 64 are kept track of.
unfoldable pub required_total : ℕ × (ℕ × Iter) → ℕ
required_total (index, (last_type, iter)) =
    let count =
      if pb_htype last_type == Htype.required && not ((current iter).tag == 0)
      then index + 1
      else index in
    if ltb pb_max_required_fields count then pb_max_required_fields else count

unfoldable pub req_field_count : Iter → ℕ
unfolding last_field_loop required_total
req_field_count iter = required_total (last_field_loop (length iter.start) iter)

-- The whole words: the first `count` of them.
unfoldable pub whole_words_seen : ℕ → List ℕ → Bool
whole_words_seen zero fields_seen = true
whole_words_seen (suc count) fields_seen =
    whole_words_seen count fields_seen && get_or fields_seen count 0 == allbits

-- The checks of the words and of the remaining bits.
unfoldable pub all_seen : ℕ → List ℕ → Bool
unfolding whole_words_seen
all_seen count fields_seen =
    whole_words_seen (count / 2 ^ 5) fields_seen
    && (if count % 2 ^ 5 == 0
        then true
        else get_or fields_seen (count / 2 ^ 5) 0 == allbits / 2 ^ (32 - count % 2 ^ 5))
