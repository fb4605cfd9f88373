-- ===== src/Nanopb/MessageDecoder/Steps.antt =====
-- AppChat_Again/Pods/nanopb/pb_decode.c: steps on the stream and the memory that the decoders of fields
-- share: substreams, stores, and pb_decode around pb_decode_noinit.
use app_chat_again.Prelude.{ℕ, Option, none, some, List}
use app_chat_again.Nanopb.Types.{Field}
use app_chat_again.Nanopb.IStream.{IStream}
use app_chat_again.Nanopb.Decode.{pb_make_string_substream, pb_close_string_substream}
use app_chat_again.Nanopb.Memory.{Memory, Machine, on_stream}
use app_chat_again.Nanopb.Host.{Host}
use app_chat_again.Nanopb.Defaults.{pb_message_set_to_defaults}
use app_chat_again.Nanopb.Release.{pb_release}
use app_chat_again.Nanopb.Run.{Run, ended, ◌>>◌}

abbrev pub memory_result {ℓ} :
    {A : Type ℓ} → Machine → Option (Option A × Memory) → Option (Option A × Machine)
memory_result s none = none
memory_result s (some (result, memory)) = some (result, record s { memory = memory })

-- A function that only works on the memory.
abbrev pub on_memory {ℓ} : {A : Type ℓ} → Run Memory A → Run Machine A
on_memory f s = memory_result s (f s.memory)

unfoldable pub open_substream : Run Machine IStream
unfolding pb_make_string_substream
open_substream = ended (on_stream pb_make_string_substream)

-- `status` is the answer where the substream is closed.
unfoldable pub closed {ℓ} :
    {A : Type ℓ} → Option A → Machine → Option (Unit {0}) × IStream → Option A × Machine
closed status s (none, stream) = (none, record s { stream = stream })
closed status s (some tt, stream) = (status, record s { stream = stream })

unfoldable pub close_after {ℓ} :
    {A : Type ℓ} → IStream → Option (Option A × Machine) → Option (Option A × Machine)
unfolding closed pb_close_string_substream
close_after parent none = none
close_after parent (some (status, s)) =
    some (closed status s (pb_close_string_substream s.stream parent))

-- The body works on the substream, which is closed whatever its status.
unfoldable pub within {ℓ} : {A : Type ℓ} → IStream → Run Machine A → Run Machine A
unfolding close_after
within sub body s = close_after s.stream (body (record s { stream = sub }))

module _ (host : Host) (fuel : ℕ) where
  unfoldable pub release_failed :
      List Field → ℕ → Option (Option (Unit {0}) × Machine) → Option (Option (Unit {0}) × Machine)
  unfolding pb_release
  release_failed fields dest_struct none = none
  release_failed fields dest_struct (some (some tt, s)) = some (some tt, s)
  release_failed fields dest_struct (some (none, s)) =
      (do on_memory (pb_release host fuel fields dest_struct); λ s'. some (none, s')) s

  -- pb_decode with pb_decode_noinit as an argument.
  unfoldable pub decode_with :
      (List Field → ℕ → Run Machine (Unit {0})) → List Field → ℕ → Run Machine (Unit {0})
  unfolding release_failed pb_message_set_to_defaults
  decode_with noinit fields dest_struct = do
    on_memory (pb_message_set_to_defaults host fuel fields dest_struct)
    λ s. release_failed fields dest_struct (noinit fields dest_struct s)
