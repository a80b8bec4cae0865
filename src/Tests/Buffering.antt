-- ===== src/Tests/Buffering.antt =====
-- A buffer and a router on the records of the packets of `Packets`.
use sceptre_pipeline.Prelude.{
  ℕ, ◌*◌, ◌^◌, ◌≡◌, ◌⊎◌, refl, Bool, true, false, some, [], ◌∷◌, inl, inr,
}
use sceptre_pipeline.Floats.{fixed_point}
use sceptre_pipeline.Context.{Context}
use sceptre_pipeline.Interpreter.{Metadata, Record, context_record, data_record}
use sceptre_pipeline.Buffer.{
  IngestBuffer, Window, Field, sample_rate_hz, default_flush_fields, join, window, has_chunks,
  push_context, push_data, push,
}
use sceptre_pipeline.Buffer
use sceptre_pipeline.Buffer.Windows.{All, Good}
use sceptre_pipeline.Buffer.Steps.{push-Good, init-IsValid}
use sceptre_pipeline.Buffer.Lossless.{Taken, push-Taken}
use sceptre_pipeline.Buffer.Triggers.{
  push_data_gap, push_context_change, push_context_heartbeat, alike, IsIn,
}
use sceptre_pipeline.Tests.Packets.{samples, np, declared_context}

abbrev metadata : Bool → Metadata ℕ
metadata gap = record {
  stream_id = some 7;
  counter = 3;
  timestamp = 1000 * 2 ^ 20;
  packet_size = 5;
  dtype = some ">i2";
  bytes_per_sample = some 4;
  is_complex = some true;
  gap_before = gap;
}

abbrev pub context_rec : Record ℕ
context_rec = context_record (metadata false) declared_context

abbrev pub data_rec : Record ℕ
data_rec = data_record (metadata false) samples

-- the context of another sample rate
abbrev retuned : Context ℕ
retuned = record declared_context { sample_rate_hz = some (2000 * 2 ^ 20) }

abbrev empty : IngestBuffer ℕ
empty = Buffer.init 100 (2 ^ 20) (some 7) default_flush_fields

abbrev warm : IngestBuffer ℕ
warm = (push fixed_point np 0 context_rec empty).0

-- with a window of two samples open
abbrev filled : IngestBuffer ℕ
filled = (push fixed_point np 0 data_rec warm).0

open_window : has_chunks filled.chunks ≡ true
unfolding push push_context push_data Buffer.push_usable Buffer.store Buffer.append Buffer.flush_if
    Buffer.adopt Buffer.init Buffer.drop_data
open_window = refl

in_force : filled.current_context ≡ some declared_context
unfolding push push_context push_data Buffer.push_usable Buffer.store Buffer.append Buffer.flush_if
    Buffer.adopt Buffer.init Buffer.drop_data
in_force = refl

listed_rate : IsIn sample_rate_hz filled.flush_fields
unfolding push push_context push_data Buffer.push_usable Buffer.store Buffer.append Buffer.flush_if
    Buffer.adopt Buffer.init Buffer.drop_data
listed_rate = inr (inl refl)

other_rate : alike fixed_point declared_context retuned sample_rate_hz ≡ false
unfolding Buffer.same_value Buffer.read
other_rate = refl

push-Good_example : Good np (push fixed_point np 0 context_rec empty)
push-Good_example =
    push-Good fixed_point np 0 context_rec empty
      (init-IsValid np 100 (2 ^ 20) (some 7) default_flush_fields)

push-Taken_example : Taken warm samples (push fixed_point np 0 data_rec warm)
push-Taken_example = push-Taken fixed_point np 0 data_rec warm

push_context_change_example :
    ((push_context fixed_point retuned filled).1 ≡ window filled ∷ [])
    × ((window filled).context ≡ some declared_context)
    × ((push_context fixed_point retuned filled).0.chunks ≡ [])
    × ((push_context fixed_point retuned filled).0.current_context ≡ some retuned)
push_context_change_example =
    push_context_change fixed_point filled declared_context retuned in_force sample_rate_hz
      listed_rate other_rate open_window

same : All (λ f. alike fixed_point declared_context declared_context f ≡ true) filled.flush_fields
unfolding push push_context push_data Buffer.push_usable Buffer.store Buffer.append Buffer.flush_if
    Buffer.adopt Buffer.init Buffer.drop_data Buffer.same_value Buffer.read
same = (refl, (refl, (refl, (refl, tt))))

push_context_heartbeat_example :
    ((push_context fixed_point declared_context filled).1 ≡ [])
    × ((push_context fixed_point declared_context filled).0.chunks ≡ filled.chunks)
    × ((push_context fixed_point declared_context filled).0.num_samples ≡ filled.num_samples)
    × ((push_context fixed_point declared_context filled).0.current_context ≡ some declared_context)
push_context_heartbeat_example =
    push_context_heartbeat fixed_point filled declared_context declared_context in_force same

kept : (push_data np 1 (metadata true) samples filled).0.dropped ≡ filled.dropped
unfolding push push_context push_data Buffer.push_usable Buffer.store Buffer.append Buffer.flush_if
    Buffer.adopt Buffer.init Buffer.drop_data
kept = refl

push_data_gap_example :
    (((push_data np 1 (metadata true) samples filled).0.chunks ≡ [])
      ⊎ ((push_data np 1 (metadata true) samples filled).0.chunks ≡ samples ∷ []))
    × All
        (λ w. (w.raw ≡ join filled.chunks) ⊎ (w.raw ≡ samples))
        (push_data np 1 (metadata true) samples filled).1
push_data_gap_example = push_data_gap np 1 (metadata true) samples filled refl kept
