-- ===== src/Nanopb/RoundTrip.antt =====
-- AppChat_Again/Pods/nanopb: pb_decode.c reads back what pb_encode.c writes.
pub mod Integers
pub mod Fixed
pub mod Fields
pub mod Strings
pub mod Numbers
pub mod SignedNumbers
use app_chat_again.Prelude.{
  ℕ, ◌+◌, ◌-◌, ◌^◌, ◌≤◌, ◌<◌, ◌≡◌, ap, ◌∙◌, arith, Option, some, List, ◌++◌, length,
}
use app_chat_again.Prelude.Words.{IsU64}
use app_chat_again.Nanopb.Types.{Message}
use app_chat_again.Nanopb.Varint.{varint, value-varint, length-varint, varint-IsVarint}
use app_chat_again.Nanopb.IStream.Buffer.{reader}
use app_chat_again.Nanopb.Decode.{pb_decode_varint}
use app_chat_again.Nanopb.Decode.Varint64.{pb_decode_varint-value}
use app_chat_again.Nanopb.OStream.Buffer.{writer, write-fits}
use app_chat_again.Nanopb.Encode.{pb_encode_varint}
use app_chat_again.Nanopb.Encode.Varint.{varint_buffer-varint}

-- A number is written as its shortest varint.
pub pb_encode_varint-varint :
    (v max written : ℕ) (out : List ℕ) (err : Option Message)
    → IsU64 v
    → written + length (varint 9 v) ≤ max
    → max < 2 ^ 64
    → pb_encode_varint v (writer out max written err)
      ≡ (some tt, writer (out ++ varint 9 v) max (written + length (varint 9 v)) err)
unfolding pb_encode_varint
pb_encode_varint-varint v max written out err h fits k =
    rw (varint_buffer-varint v h) (write-fits out (varint 9 v) max written err fits k)

pub pb_decode_varint-varint :
    (v left : ℕ) (input : List ℕ) (err : Option Message)
    → IsU64 v
    → length (varint 9 v) ≤ left
    → pb_decode_varint (reader (varint 9 v ++ input) left err)
      ≡ (some v, reader input (left - length (varint 9 v)) err)
pb_decode_varint-varint v left input err h l =
    pb_decode_varint-value (varint 9 v) input left err (varint-IsVarint 9 v (omega arith))
      (omega (arith, length-varint 9 v)) l
    ∙ ap (λ n. (some n, reader input (left - length (varint 9 v)) err))
        (omega (arith, value-varint 9 v (omega arith)))
