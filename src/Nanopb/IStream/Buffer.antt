-- ===== src/Nanopb/IStream/Buffer.antt =====
-- AppChat_Again/Pods/nanopb/pb_decode.c: reading from a memory buffer.
use app_chat_again.Prelude.{
  subst, ℕ, ◌-◌, ◌≤◌, ◌<◌, ◌≡◌, refl, arith, Option, none, some, List, ◌∷◌, ◌++◌, take, drop,
  length, take-append, drop-append, le→ltb, lt→ltb,
}
use app_chat_again.Nanopb.Types.{Message, set_error, end_of_stream}
use app_chat_again.Nanopb.IStream.{IStream, Buf, null, dest, buf_read, pb_read, pb_readbyte}

-- A buffer stream at `input`, with `left` bytes to be read.
abbrev pub reader : List ℕ → ℕ → Option Message → IStream
reader input left err = record {
  callback = buf_read;
  state = input;
  bytes_left = left;
  errmsg = err;
}

module _ (input : List ℕ) (err : Option Message) where
  pub readbyte-cons :
      (b left : ℕ)
      → 0 < left
      → pb_readbyte (reader (b ∷ input) left err) ≡ (some b, reader input (left - 1) err)
  unfolding pb_readbyte
  readbyte-cons b left h = ground arith

  pub readbyte-end :
      pb_readbyte (reader input 0 err) ≡ (none, reader input 0 (set_error err end_of_stream))
  unfolding pb_readbyte
  readbyte-end = refl

  pub read-enough :
      (buf : Buf) (count left : ℕ)
      → count ≤ left
      → pb_read buf count (reader input left err)
        ≡ (some (take count input), reader (drop count input) (left - count) err)
  unfolding pb_read
  read-enough null count left h = rw (le→ltb left count h)
  read-enough dest count left h = rw (le→ltb left count h)

  pub read-short :
      (buf : Buf) (count left : ℕ)
      → left < count
      → pb_read buf count (reader input left err)
        ≡ (none, reader input left (set_error err end_of_stream))
  unfolding pb_read
  read-short null count left h = rw (lt→ltb left count h)
  read-short dest count left h = rw (lt→ltb left count h)

-- Reading a whole known prefix.
pub read-append :
    (buf : Buf) (front input : List ℕ) (left : ℕ) (err : Option Message)
    → length front ≤ left
    → pb_read buf (length front) (reader (front ++ input) left err)
      ≡ (some front, reader input (left - length front) err)
read-append buf front input left err h =
    rw (read-enough (front ++ input) err buf (length front) left h, take-append, drop-append)

pub read-append_count :
    (buf : Buf) (count : ℕ) (front input : List ℕ) (left : ℕ) (err : Option Message)
    → length front ≡ count
    → count ≤ left
    → pb_read buf count (reader (front ++ input) left err)
      ≡ (some front, reader input (left - count) err)
read-append_count buf count front input left err e =
    subst
      (λ n.
        n ≤ left
        → pb_read buf n (reader (front ++ input) left err)
          ≡ (some front, reader input (left - n) err))
      e (read-append buf front input left err)
