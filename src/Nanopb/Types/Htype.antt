-- ===== src/Nanopb/Types/Htype.antt =====
-- AppChat_Again/Pods/nanopb/pb.h: PB_HTYPE_*.
use Prim.Native.Nat.{ℕ}

abbrev pub required : ℕ
required = 0x00

abbrev pub optional : ℕ
optional = 0x10

abbrev pub repeated : ℕ
repeated = 0x20

abbrev pub oneof : ℕ
oneof = 0x30
