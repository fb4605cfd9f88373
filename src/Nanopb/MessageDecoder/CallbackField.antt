-- ===== src/Nanopb/MessageDecoder/CallbackField.antt =====
-- AppChat_Again/Pods/nanopb/pb_decode.c: decode_callback_field.
use app_chat_again.Prelude.{
  ℕ, zero, suc, ◌+◌, ◌==◌, ◌||◌, true, false, none, some, Option, length, if◌then◌else◌, M,
}
use app_chat_again.Nanopb.Types.{callback_failed}
use app_chat_again.Nanopb.Types.Wt
use app_chat_again.Nanopb.IStream.{IStream, pb_istream_from_buffer}
use app_chat_again.Nanopb.Decode.{pb_skip_field, read_raw_value}
use app_chat_again.Nanopb.FieldIter.{Iter, current}
use app_chat_again.Nanopb.Memory.{Machine, on_stream}
use app_chat_again.Nanopb.FieldDecoders.{return_error}
use app_chat_again.Nanopb.Host.{Host, callback_function, callback_arg}
use app_chat_again.Nanopb.MessageDecoder.Steps.{open_substream, close_after}
use app_chat_again.Nanopb.Run.{Run, ended, done, carry_on, ◌>>=◌}

-- The substream is dropped, with its message.
abbrev pub back_to {ℓ} : {A : Type ℓ} → IStream → Option A × Machine → Option A × Machine
back_to parent (result, s) = (result, record s { stream = parent })

module _ (host : Host) where
  -- `pCallback->funcs.decode(stream, iter->pos, arg)`; the member is read at each call.
  abbrev pub call_decode : Iter → M Machine (Unit {0})
  call_decode iter s =
      host.decode_callback (callback_function iter.p_data s.memory) (current iter)
        (callback_arg iter.p_data) s

  -- `do { … } while (substream.bytes_left);` A callback may come back without having read anything.
  unfoldable pub callback_rounds : Iter → ℕ → Run Machine (Unit {0})
  callback_rounds iter zero s = none
  callback_rounds iter (suc rounds) s = carry_on (some (call_decode iter s)) λ _ s'.
      elim (s'.stream.bytes_left == 0) [
        | true ↦ done tt s'
        | false ↦ callback_rounds iter rounds s'
      ]

  unfoldable pub close_callback :
      IStream → Option (Option (Unit {0}) × Machine) → Option (Option (Unit {0}) × Machine)
  unfolding close_after
  close_callback parent none = none
  close_callback parent (some (none, s)) =
      some (return_error callback_failed (record s { stream = parent }))
  close_callback parent (some (some tt, s)) = close_after parent (some (some tt, s))

  -- A length-delimited field. The rounds are as many as there are bytes, and the fuel more.
  unfoldable pub callback_on_string : ℕ → Iter → Run Machine (Unit {0})
  unfolding callback_rounds close_callback
  callback_on_string fuel iter = do
    sub ← open_substream
    λ s.
        close_callback s.stream
          (callback_rounds iter (sub.bytes_left + fuel + 1) (record s { stream = sub }))

  -- A number: its bytes are copied to a buffer of ten.
  unfoldable pub callback_on_number : ℕ → Iter → Run Machine (Unit {0})
  unfolding read_raw_value pb_istream_from_buffer
  callback_on_number wire_type iter = do
    buffer ← ended (on_stream (read_raw_value wire_type 10))
    λ s. some (
        back_to s.stream
          (call_decode iter (record s { stream = pb_istream_from_buffer buffer (length buffer) })))

  unfoldable pub decode_callback_field : ℕ → ℕ → Iter → Run Machine (Unit {0})
  unfolding callback_on_string callback_on_number pb_skip_field
  decode_callback_field fuel wire_type iter s =
      if iter.p_data == 0 || callback_function iter.p_data s.memory == 0
      then some (on_stream (pb_skip_field wire_type) s)
      else if wire_type == Wt.string
      then callback_on_string fuel iter s
      else callback_on_number wire_type iter s
