-- ===== src/Nanopb/MessageDecoder/PointerField.antt =====
-- AppChat_Again/Pods/nanopb/pb_decode.c: decode_pointer_field.
use app_chat_again.Prelude.{
  ℕ, zero, suc, ◌+◌, ◌-◌, ◌/◌, ◌==◌, ◌&&◌, not, ltb, Bool, true, false, none, some, Option, List,
  if◌then◌else◌,
}
use app_chat_again.Prelude.Words.{u32, u64}
use app_chat_again.Nanopb.Types.{Field, pb_htype, pb_ltype, too_many_array_entries}
use app_chat_again.Nanopb.Types.Ltype
use app_chat_again.Nanopb.Types.Htype
use app_chat_again.Nanopb.IStream.{IStream}
use app_chat_again.Nanopb.FieldIter.{Iter, current, pb_size_max}
use app_chat_again.Nanopb.Memory.{Memory, Machine}
use app_chat_again.Nanopb.FieldDecoders.{return_error, allocate_field, load_pointer}
use app_chat_again.Nanopb.Host.{Host, store_count, store_pointer, change, change_memory}
use app_chat_again.Nanopb.Release.{pb_release_single_field, is_text}
use app_chat_again.Nanopb.MessageDecoder.Steps.{on_memory, open_substream, close_after}
use app_chat_again.Nanopb.MessageDecoder.StaticField.{
  Decoder, decoder_of, is_packed, item_at, count_of, clear_message,
}
use app_chat_again.Nanopb.Run.{Run, ended, done, when, carry_on, ◌>>=◌, ◌>>◌}

-- A step that first looks at the memory.
abbrev pub with_memory {ℓ} : {A : Type ℓ} → (Memory → Run Machine A) → Run Machine A
with_memory f s = f s.memory s

module _ (host : Host) (fuel : ℕ) where
  unfoldable pub initialize_pointer_field : ℕ → Iter → Run Memory (Unit {0})
  unfolding clear_message
  initialize_pointer_field item iter =
      let f = current iter in
      if is_text f
      then change (store_pointer item 0)
      else when (pb_ltype f.type == Ltype.submessage) (clear_message host fuel f item)

  abbrev pub allocate : Iter → ℕ → Run Machine (Unit {0})
  unfolding allocate_field
  allocate iter count =
      ended (allocate_field host.pb_realloc iter.p_data (current iter).data_size count)

  -- The item at a pointer is cleared and decoded.
  unfoldable pub decode_item : Decoder → Iter → ℕ → Run Machine (Unit {0})
  unfolding initialize_pointer_field
  decode_item func iter item = do
    on_memory (initialize_pointer_field item iter)
    func (current iter) item

  -- A duplicate of a submessage: the old allocation is released.
  unfoldable pub release_duplicate : Iter → Run Machine (Unit {0})
  unfolding pb_release_single_field
  release_duplicate iter = with_memory λ memory.
      when
        (pb_ltype (current iter).type == Ltype.submessage
          && not (load_pointer iter.p_data memory == 0))
        (on_memory (pb_release_single_field host fuel iter))

  unfoldable pub decode_single_pointer : Decoder → Iter → Run Machine (Unit {0})
  unfolding release_duplicate decode_item
  decode_single_pointer func iter =
      let f = current iter in
      (do
        release_duplicate iter
        when (pb_htype f.type == Htype.oneof) (change_memory (store_count iter.p_size f.tag))
        (if is_text f then func f iter.p_data else (do
          allocate iter 1
          with_memory λ memory. decode_item func iter (load_pointer iter.p_data memory))))

  -- How many entries there is room for. More are asked for where the array is full: the guess is
  -- what is left of the substream, each entry as long as in the array.
  unfoldable pub make_room : Iter → ℕ → Run Machine ℕ
  make_room iter allocated_size s =
      let enough =
        u64 (allocated_size + ((s.stream.bytes_left - 1) / (current iter).data_size + 1)) in
      if ltb allocated_size (count_of iter s.memory + 1)
      then (do allocate iter enough; done enough) s
      else done allocated_size s

  -- The entry behind the last one.
  unfoldable pub decode_next_item : Decoder → Iter → Run Machine (Unit {0})
  unfolding decode_item
  decode_next_item func iter = with_memory λ memory.
      decode_item func iter
        (item_at (load_pointer iter.p_data memory) (current iter) (count_of iter memory))

  -- `while (substream.bytes_left)`. The answer `false` is the break with too many entries.
  unfoldable pub packed_pointer : Decoder → Iter → ℕ → ℕ → Run Machine Bool
  unfolding make_room decode_next_item
  packed_pointer func iter zero allocated_size s = none
  packed_pointer func iter (suc fuel) allocated_size s = elim (s.stream.bytes_left == 0) [
    | true ↦ done true s
    | false ↦
        carry_on
          ((do room ← make_room iter allocated_size; decode_next_item func iter; done room) s)
          λ room s'. elim (count_of iter s'.memory == pb_size_max) [
            | true ↦ done false s'
            | false ↦ packed_pointer func iter fuel room (record s' {
              memory = store_count iter.p_size (count_of iter s'.memory + 1) s'.memory;
            })
          ]
  ]

  -- The message of too many entries is set on the stream, whatever it had.
  unfoldable pub close_packed_pointer :
      IStream → Option (Option Bool × Machine) → Option (Option (Unit {0}) × Machine)
  unfolding close_after
  close_packed_pointer parent none = none
  close_packed_pointer parent (some (none, s)) = close_after parent (some (none, s))
  close_packed_pointer parent (some (some true, s)) = close_after parent (some (some tt, s))
  close_packed_pointer parent (some (some false, s)) =
      close_after (record parent { errmsg = some too_many_array_entries }) (some (none, s))

  unfoldable pub decode_packed_pointer : Decoder → Iter → Run Machine (Unit {0})
  unfolding packed_pointer close_packed_pointer
  decode_packed_pointer func iter = with_memory λ memory. do
    sub ← open_substream
    λ s. close_packed_pointer s.stream (
        packed_pointer func iter (sub.bytes_left + 1) (count_of iter memory)
          (record s { stream = sub }))

  -- `*size` is counted up first, and `*size - 1` is a uint32_t.
  unfoldable pub decode_pointer_item : Decoder → Iter → Run Machine (Unit {0})
  unfolding decode_item
  decode_pointer_item func iter = with_memory λ memory.
      if count_of iter memory == pb_size_max
      then ended (return_error too_many_array_entries)
      else (do
        change_memory (store_count iter.p_size (count_of iter memory + 1))
        with_memory (λ counted. allocate iter (count_of iter counted))
        with_memory λ counted.
            let last = u32 (count_of iter counted + pb_size_max) in
            decode_item func iter (item_at (load_pointer iter.p_data counted) (current iter) last))

  unfoldable pub decode_pointer_field :
      (List Field → ℕ → Run Machine (Unit {0})) → ℕ → Iter → Run Machine (Unit {0})
  unfolding decoder_of decode_single_pointer decode_packed_pointer decode_pointer_item
  decode_pointer_field noinit wire_type iter =
      let f = current iter in
      let func = decoder_of host fuel noinit (pb_ltype f.type) in
      if not (pb_htype f.type == Htype.repeated)
      then decode_single_pointer func iter
      else if is_packed wire_type f
      then decode_packed_pointer func iter
      else decode_pointer_item func iter
