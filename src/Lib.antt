-- ===== src/Lib.antt =====
-- A verification library for the C code of the chat application: the protocol buffer runtime
-- nanopb and the base 64 codec of the web socket client of the real-time database.
--
-- The program. The application is written in Swift and calls the Firebase libraries. Two of these
-- carry C code: AppChat_Again/Pods/nanopb (pb.h, pb_common.c, pb_decode.c, pb_encode.c) reads and
-- writes protocol buffers for the measurement library, and fbase64.c in
-- AppChat_Again/Pods/FirebaseDatabase/Firebase/Database/third_party/SocketRocket is the codec of the
-- web socket handshake. nanopb walks over a message with the field iterator (pb_common.c), reads
-- bytes from an input stream with a limit and writes them to an output stream with a maximum; the
-- wire layer on both is varints, tags, fixed-size numbers, strings, skipping and substreams.
--
-- Configuration. As AppChat_Again/Pods/Target Support Files/nanopb/nanopb.xcconfig sets it:
-- PB_FIELD_32BIT (pb_size_t is uint32_t), PB_ENABLE_MALLOC, PB_NO_PACKED_STRUCTS; 64 bit numbers,
-- streams with callbacks and error texts are on; size_t and pointers have 64 bits, and
-- uint_fast8_t has one byte.
--
-- Where what is modelled.
--   Prelude: numbers, tests and lists of all files; Prelude/Effect is the monad of functions that
--     return bool and change a stream (none is false; the state after a failure is kept);
--     Prelude/Bits relates the bit operations to arithmetic.
--   Nanopb/Types (pb.h): wire types, field types, descriptors, error texts.
--   Nanopb/FieldIter (pb_common.c): pb_field_iter_begin, pb_field_iter_next, pb_field_iter_find. A
--     descriptor array is a list, `position` is the pointer `pos`, and addresses are numbers.
--   Nanopb/IStream (pb_decode.c): pb_istream_t, buf_read, pb_read, pb_readbyte,
--     pb_istream_from_buffer. A stream over a buffer holds the bytes from its pointer on.
--   Nanopb/Decode (pb_decode.c): pb_decode_varint, pb_decode_varint32 and its form with eof,
--     pb_skip_varint, pb_skip_string, pb_skip_field, pb_decode_tag, read_raw_value,
--     pb_make_string_substream, pb_close_string_substream, pb_decode_svarint, pb_decode_fixed32,
--     pb_decode_fixed64.
--   Nanopb/OStream (pb_encode.c): pb_ostream_t, buf_write, pb_write, pb_ostream_from_buffer and
--     PB_OSTREAM_SIZING. A stream over a buffer holds the bytes before its pointer.
--   Nanopb/Encode (pb_encode.c): pb_encode_varint, pb_encode_svarint, pb_encode_fixed32,
--     pb_encode_fixed64, pb_encode_tag, pb_encode_tag_for_field, pb_encode_string.
--   Nanopb/Memory: the memory of the structures, a byte per address.
--   Nanopb/FieldDecoders (pb_decode.c): pb_dec_varint, pb_dec_uvarint, pb_dec_svarint,
--     pb_dec_fixed32, pb_dec_fixed64, pb_dec_bytes, pb_dec_string, pb_dec_fixed_length_bytes,
--     allocate_field. `pb_realloc` is a parameter.
--   Nanopb/FieldEncoders (pb_encode.c): pb_enc_varint, pb_enc_uvarint, pb_enc_svarint,
--     pb_enc_fixed32, pb_enc_fixed64, pb_enc_bytes, pb_enc_string, pb_enc_fixed_length_bytes.
--   Nanopb/Run: functions on recursive data (a call without an answer is told apart from the answer
--     false), and the loop over the fields of a message.
--   Nanopb/Host: what the message layer is given from outside (the descriptor arrays by their
--     addresses, the allocator, the callbacks of the user) and the offsets in pb_callback_t,
--     pb_extension_t and pb_extension_type_t.
--   Nanopb/Extension, Nanopb/Defaults, Nanopb/Release (pb_decode.c): iter_from_extension,
--     pb_field_set_to_default and pb_message_set_to_defaults, pb_release_single_field and pb_release.
--   Nanopb/MessageDecoder (pb_decode.c): pb_decode_noinit, pb_decode, pb_decode_delimited_noinit,
--     pb_decode_delimited, pb_decode_nullterminated; below it Steps (substreams, and pb_decode around
--     pb_decode_noinit), StaticField (pb_dec_submessage, PB_DECODERS, decode_static_field),
--     PointerField (initialize_pointer_field, decode_pointer_field), CallbackField
--     (decode_callback_field), AnyField (pb_release_union_field, decode_field,
--     default_extension_decoder, decode_extension, find_extension_field), and Required (the words
--     fields_seen and the check of them).
--   Nanopb/MessageEncoder (pb_encode.c): encode_basic_field, encode_callback_field, encode_field,
--     default_extension_encoder, encode_extension_field, pb_encode, pb_encode_delimited,
--     pb_encode_nullterminated, pb_get_encoded_size; below it Submessage (pb_encode_submessage,
--     PB_ENCODERS, pb_enc_submessage, encode_array), Proto3 (pb_check_proto3_default_value),
--     Wire, which describes the bytes of a message without streams and passes, and Sizing, on streams
--     that only count.
--   Nanopb/Nesting: messages of static and pointer fields whose submessages are nested to a depth;
--     below it which calls come back and what they leave of the stream's limit: Limit, Numbers and
--     Strings for the decoders of values, Packed, Decoders, StaticField and PointerField for the fields,
--     AnyField, Fields and Whole for unions, the loop and pb_decode, Defaults and Release for the
--     functions on the memory, Walks for the iterator, and Proto3, Submessage, Encoding and Encoders
--     for the encoder.
--   Nanopb/Varint: the variable-length integers of the wire format, independent of both.
--   Nanopb/RoundTrip: encoder against decoder.
--   Base64 (fbase64.c): f_b64_ntop and f_b64_pton; Base64/Description is base 64 by numbers of 24 bits,
--     independent of the code.
--   Tests: runs on concrete inputs.
--
-- Bounds and fuel. Words wrap where the source's do (u8, u32, u64 of Prelude/Words). Every loop is
-- structural recursion or has fuel: the loops of pb_decode_varint and pb_encode_varint ten rounds, of
-- which an eleventh is never run (at bit 70 the decoder only reports the overflow; a uint64_t has at
-- most ten groups); the loops of pb_decode_varint32_eof and pb_skip_varint as many rounds as the
-- stream's limit, behind which reading fails; the skipping of pb_read `count` rounds, of which each
-- takes 16; the search of pb_field_iter_find one round more than there are fields; the loop of
-- pb_enc_string the source's own bound, which is the field's size or 2 ^ 64 - 1 for a pointer. The
-- functions of messages have one number for fuel, which bounds how deep submessages and extensions are
-- nested and how long a list of extensions is; a list may be circular, and then the code does not come
-- back either. The loops over fields have a round for each field, those
-- over a packed array and over a message as many as there are bytes and one more, of which each takes
-- a byte, and the loop around a callback of the user the bytes and the fuel.
--
-- What is not modelled. A callback of the caller is a function that transfers bytes or fails, and
-- may set bytes_left to 0 as it fails; one that raises bytes_left or touches the error text is not
-- modelled; nor is one that stores bytes and then fails, or stores more than it is asked for. Reading
-- past the end of the memory behind a buffer stream has no bytes in the model.
-- The lengths of fbase64.c are numbers without a bound: the model is the code below 2 ^ 31, where
-- the casts to int and u_int keep them. isspace is the one of the C locale. An encoder
-- callback of the user does not store to the memory. `fixed_count_size` of pb_decode_noinit stands at an
-- address of its own for each depth (frame), and a field of a union has an offset of its size, as the
-- macros of pb.h give it; a data_size of 0 in an allocated packed array, by which the code divides, is
-- refused by allocate_field in the model. No code in Swift, Objective-C and C++ of the repository is
-- modelled.
pub mod Prelude
pub mod Nanopb
pub mod Base64
pub mod Tests
