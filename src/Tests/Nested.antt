-- ===== src/Tests/Nested.antt =====
-- pb_decode.c and pb_encode.c: nested messages at concrete inputs.
use app_chat_again.Prelude.Int.{negsuc}
use app_chat_again.Prelude.{inr, inl, List, [], ◌∷◌, ◌+◌, refl, none, arith}
use app_chat_again.Nanopb.Types.{Field}
use app_chat_again.Nanopb.Types.Htype
use app_chat_again.Nanopb.Types.Ltype
use app_chat_again.Nanopb.Types.Atype
use app_chat_again.Nanopb.Memory.{Machine}
use app_chat_again.Nanopb.IStream.Buffer.{reader}
use app_chat_again.Nanopb.MessageDecoder.{
  pb_decode, pb_decode_noinit, pb_decode_delimited, pb_decode_delimited_noinit,
  pb_decode_nullterminated,
}
use app_chat_again.Nanopb.Nesting.{IsNested}
use app_chat_again.Nanopb.Nesting.Answers.{Answers}
use app_chat_again.Nanopb.Nesting.Whole.{decoders-Answers}
use app_chat_again.Nanopb.Nesting.Encoders.{encoders-Answers}
use app_chat_again.Nanopb.OStream.{pb_ostream_from_buffer}
use app_chat_again.Nanopb.MessageEncoder.{
  pb_encode, pb_encode_delimited, pb_encode_nullterminated, pb_get_encoded_size,
}
use app_chat_again.Tests.Messages.{host, memory}

-- `outer` without its callback.
abbrev plain : List Field
plain =
    record {
      tag = 2;
      type = Htype.optional + Ltype.submessage;
      data_offset = 4;
      size_offset = negsuc 3;
      data_size = 4;
      array_size = 0;
      ptr = 1000;
    }
    ∷ record {
      tag = 3;
      type = Atype.pointer + Htype.repeated + Ltype.fixed32;
      data_offset = 8;
      size_offset = negsuc 3;
      data_size = 4;
      array_size = 0;
      ptr = 0;
    }
    ∷ []

plain-IsNested : IsNested host 2 plain
plain-IsNested = (
  (ground arith, (ground arith, tt)),
  (
    (inl refl, inr (refl, ((ground arith, tt), ((inl refl, inl (inl (omega arith))), tt)))),
    ((inr refl, inl (inl (omega arith))), tt),
  ),
)

-- The submessage, and three bytes behind it that are cut off.
abbrev nested_input : Machine
nested_input = record {
  stream = reader (0x12 ∷ 5 ∷ 0x0d ∷ 9 ∷ 8 ∷ 7 ∷ 6 ∷ 0x1a ∷ 8 ∷ 1 ∷ []) 10 none;
  memory = memory;
}

decoders-Answers_example :
    Answers (pb_decode host 3 plain 200 nested_input)
    × Answers (pb_decode_noinit host 3 plain 200 nested_input)
    × Answers (pb_decode_delimited host 3 plain 200 nested_input)
    × Answers (pb_decode_delimited_noinit host 3 plain 200 nested_input)
    × Answers (pb_decode_nullterminated host 3 plain 200 nested_input)
decoders-Answers_example =
    decoders-Answers host 2 3 plain 200 nested_input (omega arith) plain-IsNested

encoders-Answers_example :
    Answers (pb_encode host memory 3 plain 100 (pb_ostream_from_buffer 64))
    × Answers (pb_encode_delimited host memory 3 plain 100 (pb_ostream_from_buffer 64))
    × Answers (pb_encode_nullterminated host memory 3 plain 100 (pb_ostream_from_buffer 64))
    × Answers (pb_get_encoded_size host memory 3 plain 100)
encoders-Answers_example =
    encoders-Answers host memory 2 3 plain 100 (pb_ostream_from_buffer 64) (omega arith)
      plain-IsNested
