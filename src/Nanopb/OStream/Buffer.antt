-- ===== src/Nanopb/OStream/Buffer.antt =====
-- AppChat_Again/Pods/nanopb/pb_encode.c: writing to a memory buffer, and only counting.
use app_chat_again.Prelude.{
  subst, ℕ, ◌+◌, ◌^◌, ◌≤◌, ◌<◌, ◌≡◌, refl, ap, arith, Option, some, List, [], ◌++◌, take, length,
  le→ltb,
}
use app_chat_again.Prelude.Words.{u64}
use app_chat_again.Nanopb.Types.{Message}
use app_chat_again.Nanopb.OStream.{OStream, sizing, buf_write, pb_write}
use mathlib.Core.List.{◌∷◌}
use native.Mathlib.Nat.{mod-eq_of_lt}

-- A buffer stream that has written `out`, of `written` bytes by its own count.
abbrev pub writer : List ℕ → ℕ → ℕ → Option Message → OStream
writer out max written err = record {
  callback = buf_write;
  state = out;
  max_size = max;
  bytes_written = written;
  errmsg = err;
}

-- A stream that only counts.
abbrev pub counter : List ℕ → ℕ → ℕ → Option Message → OStream
counter out max written err = record {
  callback = sizing;
  state = out;
  max_size = max;
  bytes_written = written;
  errmsg = err;
}

pub take-length : (buf : List ℕ) → take (length buf) buf ≡ buf
take-length [] = refl
take-length (b ∷ bs) = ap (λ l. b ∷ l) (take-length bs)

module _ (out buf : List ℕ) (max written : ℕ) (err : Option Message) where
  pub write-fits :
      written + length buf ≤ max
      → max < 2 ^ 64
      → pb_write buf (length buf) (writer out max written err)
        ≡ (some tt, writer (out ++ buf) max (written + length buf) err)
  unfolding pb_write
  write-fits h k =
      let exact : u64 (written + length buf) ≡ written + length buf = mod-eq_of_lt (omega arith) in
      rw (exact, le→ltb max (written + length buf) h, take-length buf)

  pub write-fits_count :
      (count : ℕ)
      → length buf ≡ count
      → written + count ≤ max
      → max < 2 ^ 64
      → pb_write buf count (writer out max written err)
        ≡ (some tt, writer (out ++ buf) max (written + count) err)
  write-fits_count count e =
      subst
        (λ n.
          written + n ≤ max
          → max < 2 ^ 64
          → pb_write buf n (writer out max written err)
            ≡ (some tt, writer (out ++ buf) max (written + n) err))
        e write-fits
