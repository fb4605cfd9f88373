-- ===== src/Nanopb/Types/Atype.antt =====
-- AppChat_Again/Pods/nanopb/pb.h: PB_ATYPE_*.
use Prim.Native.Nat.{ℕ}

abbrev pub static : ℕ
static = 0x00

abbrev pub pointer : ℕ
pointer = 0x80

abbrev pub callback : ℕ
callback = 0x40
