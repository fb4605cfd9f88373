-- ===== src/Tests/Required.antt =====
-- pb_decode.c: the check for required fields at a concrete message.
use app_chat_again.Prelude.{[], ◌≡◌, some, none, arith, if◌then◌else◌}
use app_chat_again.Nanopb.Types.{missing_required_field}
use app_chat_again.Nanopb.Memory.{Machine}
use app_chat_again.Nanopb.FieldDecoders.{return_error}
use app_chat_again.Nanopb.MessageDecoder.Required.Refused.{check_complete-all_among, tracked}
use app_chat_again.Nanopb.MessageDecoder.Required.Counted.{with_size}
use app_chat_again.Nanopb.MessageDecoder.Required.Seen.{seen_after, all_among}
use app_chat_again.Nanopb.MessageDecoder.{check_complete}
use app_chat_again.Nanopb.FieldIter.Walk.{at_position}
use app_chat_again.Nanopb.Run.{no_answer}
use app_chat_again.Nanopb.IStream.Buffer.{reader}
use app_chat_again.Tests.Messages.{host, outer}

abbrev machine : Machine
machine = record { stream = reader [] 0 none; memory = λ a. 0 }

-- The one required field was not marked.
check_complete-all_among_example :
    check_complete host 1
      (λ fields dest_struct. no_answer)
      (record {
        iter = with_size 5008 (at_position outer 200 2);
        fields_seen = seen_after [];
        extension_range_start = 0;
        fixed_count_field = none;
      })
      machine
    ≡ (if all_among (tracked outer) []
        then some (some tt, machine)
        else some (return_error missing_required_field machine))
check_complete-all_among_example =
    check_complete-all_among host 1 (λ fields dest_struct. no_answer) outer 200 2 5008 0 [] machine
      (ground arith, (ground arith, (ground arith, (ground arith, tt)))) (omega arith) tt
