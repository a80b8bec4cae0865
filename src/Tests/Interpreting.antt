-- ===== src/Tests/Interpreting.antt =====
-- The interpreter on the packets of `Packets`.
use sceptre_pipeline.Prelude.{
  ℕ, ◌+◌, ◌≡◌, ◌≢◌, refl, Bool, true, false, some, List, [], ◌∷◌, length,
}
use sceptre_pipeline.Prelude.Bytes.{to_be, from_be, slice}
use sceptre_pipeline.Floats.{fixed_point}
use sceptre_pipeline.Formats.{field_size, item_format_dtype}
use sceptre_pipeline.Header.{parse_header, read_fields, take_field, expected_len}
use sceptre_pipeline.Header.Encoder.{encode_header, word0_of}
use sceptre_pipeline.Payload.{decode_payload_format}
use sceptre_pipeline.Payload.Supported.{format_word}
use sceptre_pipeline.Context.{decode_context, walk, visit, decode_field}
use sceptre_pipeline.Trim.{trim_data}
use sceptre_pipeline.Dict.{StreamId, get, put}
use sceptre_pipeline.Log.{should_log}
use sceptre_pipeline.Interpreter.{
  Interpreter, Record, context_record, data_record, init, process_all, process, process_packet,
  process_context, process_data, process_samples, drop_packet, warn, metadata, timestamp,
}
use sceptre_pipeline.Interpreter.Tally.{process_all-tally}
use sceptre_pipeline.Interpreter.Streams.{
  IsTracked, init-IsTracked, process_all-IsTracked, process_other,
}
use sceptre_pipeline.Interpreter.Gaps.{AreFlagged, latest, process_all-AreFlagged}
use sceptre_pipeline.Interpreter.Records.{IsRecord, process-IsRecord}
use sceptre_pipeline.Tests.Packets.{header, data_packet, start, packets, parsed}

abbrev after : Interpreter ℕ
after = (process_all fixed_point start packets).0

abbrev records : List (Record ℕ)
records = (process_all fixed_point start packets).1

abbrev flags : List (Record ℕ) → List Bool
flags [] = []
flags (context_record md ctx ∷ rs) = md.gap_before ∷ flags rs
flags (data_record md body ∷ rs) = md.gap_before ∷ flags rs

-- the context, the first samples, and samples behind a gap; the one-byte datagram is an error
three_records : flags records ≡ false ∷ false ∷ true ∷ []
unfolding process_all process process_packet process_context process_data process_samples
    drop_packet warn metadata timestamp parse_header read_fields take_field expected_len
    encode_header word0_of to_be from_be slice get put should_log decode_context walk visit
    decode_field decode_payload_format format_word field_size item_format_dtype trim_data init
three_records = refl

process_all-tally_example :
    after.errors + after.dropped + length records ≡ start.errors + start.dropped + length packets
process_all-tally_example = process_all-tally fixed_point start packets

process_all-IsTracked_example : IsTracked after
process_all-IsTracked_example =
    process_all-IsTracked fixed_point start packets (init-IsTracked fixed_point 4)

abbrev stream_8 : StreamId
stream_8 = some 8

abbrev stream_7 : StreamId
stream_7 = some 7

other_stream : stream_8 ≢ stream_7
other_stream e = cc e

process_other_example :
    (get (process fixed_point after (data_packet 3)).0.contexts stream_8
      ≡ get after.contexts stream_8)
    × (get (process fixed_point after (data_packet 3)).0.last_counter stream_8
        ≡ get after.last_counter stream_8)
process_other_example =
    process_other fixed_point after (data_packet 3) (header 1 3 5) stream_8 parsed other_stream

process_all-AreFlagged_example :
    AreFlagged (some 7) (get start.last_counter (some 7)) records
    × (get after.last_counter (some 7) ≡ latest (some 7) (get start.last_counter (some 7)) records)
process_all-AreFlagged_example = process_all-AreFlagged fixed_point (some 7) start packets

process-IsRecord_example :
    IsRecord fixed_point after
      (process fixed_point after (data_packet 3)).0
      (data_packet 3)
      (process fixed_point after (data_packet 3)).1
process-IsRecord_example = process-IsRecord fixed_point after (data_packet 3)
