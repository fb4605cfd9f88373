-- ===== src/Nanopb/FieldIter.antt =====
-- AppChat_Again/Pods/nanopb/pb_common.c: the iterator over the fields of a message.
use app_chat_again.Nanopb.Types.{pb_ltype, pb_atype, pb_htype, Field}
use app_chat_again.Prelude.{
  ◌*◌, zero, true, ◌-◌, ◌&&◌, suc, get_or, if◌then◌else◌, ◌==◌, ◌^◌, not, length, false, ◌+◌, Bool,
  ℕ, List,
}
pub mod Walk
pub mod Find
pub mod Layout
use app_chat_again.Prelude.Int.{ℤ, pos, negsuc}
use app_chat_again.Nanopb.Types.Ltype
use app_chat_again.Nanopb.Types.Htype
use app_chat_again.Nanopb.Types.Atype

-- PB_LAST_FIELD. A descriptor array is the list of its entries, and this one stands behind them.
abbrev pub last_field : Field
last_field = record {
  tag = 0;
  type = 0;
  data_offset = 0;
  size_offset = pos 0;
  data_size = 0;
  array_size = 0;
  ptr = 0;
}

abbrev pub field_at : List Field → ℕ → Field
field_at fields i = get_or fields i last_field

-- An address moved by a signed number of bytes.
abbrev pub move : ℕ → ℤ → ℕ
move p (pos n) = p + n
move p (negsuc n) = p - (n + 1)

-- pb_field_iter_t. `start` is the array, `position` the index of `pos` in it; the rest are addresses
-- and a count.
pub record Iter : Type 0 where
  pub start : List Field
  pub position : ℕ
  pub required_field_index : ℕ
  pub dest_struct : ℕ
  pub p_data : ℕ
  pub p_size : ℕ

-- iter->pos
abbrev pub current : Iter → Field
current iter = field_at iter.start iter.position

abbrev pub pb_size_max : ℕ
pb_size_max = 2 ^ 32 - 1

unfoldable pub first_of_fields : List Field → ℕ → Iter
first_of_fields fields dest_struct =
    let f = field_at fields 0 in
    record {
      start = fields;
      position = 0;
      required_field_index = 0;
      dest_struct = dest_struct;
      p_data = dest_struct + f.data_offset;
      p_size = move (dest_struct + f.data_offset) f.size_offset;
    }

unfoldable pub pb_field_iter_begin : List Field → ℕ → Bool × Iter
unfolding first_of_fields
pb_field_iter_begin fields dest_struct =
    (not ((field_at fields 0).tag == 0), first_of_fields fields dest_struct)

-- What the previous field takes in the structure.
unfoldable pub member_size : Field → ℕ
member_size prev =
    if pb_atype prev.type == Atype.static && pb_htype prev.type == Htype.repeated
    then prev.data_size * prev.array_size
    else if pb_atype prev.type == Atype.pointer
    then 8
    else prev.data_size

-- Both are members of one union, and `f` is not its first.
unfoldable pub same_union : Field → Field → Bool
same_union prev f =
    pb_htype prev.type == Htype.oneof
    && pb_htype f.type == Htype.oneof
    && f.data_offset == pb_size_max

-- The part of pb_field_iter_next behind the test for the end.
unfoldable pub step_to : Field → Field → Iter → Iter
step_to prev f iter =
    if same_union prev f
    then record iter { position = iter.position + 1 }
    else let p_data = iter.p_data + member_size prev + f.data_offset in
      let index = iter.required_field_index in
      record iter {
        position = iter.position + 1;
        required_field_index = (if pb_htype prev.type == Htype.required then index + 1 else index);
        p_data = p_data;
        p_size = move p_data f.size_offset;
      }

unfoldable pub pb_field_iter_next : Iter → Bool × Iter
unfolding first_of_fields step_to
pb_field_iter_next iter =
    let prev = current iter in
    let f = field_at iter.start (iter.position + 1) in
    if prev.tag == 0
    then (false, iter)
    else if f.tag == 0
    then (false, first_of_fields iter.start iter.dest_struct)
    else (true, step_to prev f iter)

abbrev pub is_wanted : ℕ → Field → Bool
is_wanted tag f = f.tag == tag && not (pb_ltype f.type == Ltype.extension)

-- The loop of pb_field_iter_find, with fuel; `origin` is where it started.
unfoldable pub find_loop : ℕ → ℕ → ℕ → Iter → Bool × Iter
find_loop zero origin tag iter = (false, iter)
find_loop (suc fuel) origin tag iter =
    let iter' = (pb_field_iter_next iter).1 in
    let more = find_loop fuel origin tag iter' in
    if is_wanted tag (current iter)
    then (true, iter)
    else if iter'.position == origin
    then (false, iter')
    else more

-- The walk comes back after as many steps as there are fields.
unfoldable pub pb_field_iter_find : ℕ → Iter → Bool × Iter
unfolding find_loop
pb_field_iter_find tag iter = find_loop (length iter.start + 1) iter.position tag iter
