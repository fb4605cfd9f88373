-- ===== src/Tests/Fields.antt =====
-- pb_common.c and pb_encode.c: the field iterator on a message of four fields.
use app_chat_again.Nanopb.RoundTrip.Fields.{wiretype_of_iff, WireTypeOf}
use app_chat_again.Nanopb.FieldIter.Layout.{
  OffsetBehind, IsLayout, at_position-layout, count_required,
}
use app_chat_again.Prelude.Int.{negsuc, pos}
use app_chat_again.Nanopb.FieldIter.Walk.{pb_field_iter_next-at_position, IsMessage, at_position}
use app_chat_again.Nanopb.FieldIter.Find.{pb_field_iter_find-Searched, Searched}
use app_chat_again.Prelude.{
  inl, inr, refl, ◌↔◌, take, ◌-◌, arith, some, [], true, ◌∷◌, ◌^◌, ◌≡◌, ◌+◌, List,
}
use app_chat_again.Nanopb.Encode.{wiretype_of}
use app_chat_again.Nanopb.FieldIter.{pb_field_iter_next, pb_field_iter_find}
use app_chat_again.Nanopb.Types.{Field}
use app_chat_again.Nanopb.Types.Ltype
use app_chat_again.Nanopb.Types.Htype

-- required int32 a = 1; optional string b = 3; oneof { int32 c = 4; fixed64 d = 5; }, in a structure
-- with `a` at 0, `has_b` at 4, `b` at 5, `which` at 24 and the union at 28.
abbrev field_a : Field
field_a = record {
  tag = 1;
  type = Htype.required + Ltype.varint;
  data_offset = 0;
  size_offset = pos 0;
  data_size = 4;
  array_size = 0;
  ptr = 0;
}

abbrev field_b : Field
field_b = record {
  tag = 3;
  type = Htype.optional + Ltype.string;
  data_offset = 1;
  size_offset = negsuc 0;
  data_size = 16;
  array_size = 0;
  ptr = 0;
}

abbrev field_c : Field
field_c = record {
  tag = 4;
  type = Htype.oneof + Ltype.varint;
  data_offset = 7;
  size_offset = negsuc 3;
  data_size = 4;
  array_size = 0;
  ptr = 0;
}

abbrev field_d : Field
field_d = record {
  tag = 5;
  type = Htype.oneof + Ltype.fixed64;
  data_offset = 2 ^ 32 - 1;
  size_offset = negsuc 3;
  data_size = 8;
  array_size = 0;
  ptr = 0;
}

abbrev message : List Field
message = field_a ∷ field_b ∷ field_c ∷ field_d ∷ []

message-IsMessage : IsMessage message
message-IsMessage = (omega arith, (omega arith, (omega arith, (omega arith, tt))))

behind_a : OffsetBehind field_a 0 field_b 5
behind_a = inr (ground arith, 4, ground arith, refl)

behind_b : OffsetBehind field_b 5 field_c 28
behind_b = inr (ground arith, 16, ground arith, refl)

behind_c : OffsetBehind field_c 28 field_d 28
behind_c = inl (ground arith, refl)

message-IsLayout : IsLayout message (0 ∷ 5 ∷ 28 ∷ 28 ∷ [])
message-IsLayout = (refl, (behind_a, (behind_b, (behind_c, tt))))

pb_field_iter_next-at_position_example :
    pb_field_iter_next (at_position message 1000 1) ≡ (true, at_position message 1000 2)
pb_field_iter_next-at_position_example =
    pb_field_iter_next-at_position message 1000 1 message-IsMessage (omega arith)

pb_field_iter_find-Searched_example :
    Searched message 1000 1 2 (pb_field_iter_find 1 (at_position message 1000 2))
pb_field_iter_find-Searched_example =
    pb_field_iter_find-Searched message 1000 1 2 message-IsMessage (omega arith)

at_position-layout_example :
    ((at_position message 1000 3).p_data ≡ 1028)
    × ((at_position message 1000 3).required_field_index ≡ count_required (take 3 message))
at_position-layout_example =
    at_position-layout message (0 ∷ 5 ∷ 28 ∷ 28 ∷ []) 1000 3 message-IsLayout (omega arith)

wiretype_of_iff_example : (wiretype_of Ltype.bytes ≡ some 2) ↔ WireTypeOf Ltype.bytes 2
wiretype_of_iff_example = wiretype_of_iff Ltype.bytes 2
