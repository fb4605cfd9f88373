-- ===== src/Nanopb/Types/Wt.antt =====
-- AppChat_Again/Pods/nanopb/pb.h: pb_wire_type_t. A value is a number, since the decoder casts three bits of a tag to it.
use Prim.Native.Nat.{ℕ}

abbrev pub varint : ℕ
varint = 0

abbrev pub bits64 : ℕ
bits64 = 1

abbrev pub string : ℕ
string = 2

abbrev pub bits32 : ℕ
bits32 = 5
