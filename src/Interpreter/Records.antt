-- ===== src/Interpreter/Records.antt =====
-- The records that `process` of src/sceptre_pipeline/interpreter.py returns.
use sceptre_pipeline.Prelude.{ℕ, ◌≡◌, refl, false, Option, none, some}
use sceptre_pipeline.Prelude.Bytes.{Bytes}
use sceptre_pipeline.Floats.{Floats}
use sceptre_pipeline.Result.{ok}
use sceptre_pipeline.Header.{Header, parse_header}
use sceptre_pipeline.Header.Bounds.{parse_header-IsParsed}
use sceptre_pipeline.Context.{Context, decode_context}
use sceptre_pipeline.Trim.Samples.{IsTrimmed, trim_data-IsTrimmed}
use sceptre_pipeline.Dict.{get}
use sceptre_pipeline.Dict.Laws.{get-put_self}
use sceptre_pipeline.Interpreter.{
  Interpreter, Metadata, Record, context_record, data_record, metadata, drop_packet, is_gap,
  process,
}
use sceptre_pipeline.Interpreter.Outcome.{Returned, Processed, Outcome, process-cases}

module _ {F : Type 0} (fl : Floats F) where
  -- A data record: the packet's whole samples, labelled by the context of its stream.
  pub record IsDataRecord (s : Interpreter F) (raw : Bytes) (md : Metadata F) (body : Bytes)
      : Type 0 where
    pub hdr : Header
    pub ctx : Context F
    pub bps : ℕ
    pub count : ℕ
    pub parsed : parse_header raw ≡ ok hdr
    pub type : hdr.packet_type ≡ 1
    pub context : get s.contexts hdr.stream_id ≡ some ctx
    pub size : md.bytes_per_sample ≡ some bps
    pub labels :
        md ≡ metadata fl hdr ctx (is_gap (get s.last_counter hdr.stream_id) hdr.packet_counter)
    pub samples : IsTrimmed raw hdr bps body count

  -- A context record: the packet's context, which is now that of its stream.
  pub record IsContextRecord (s' : Interpreter F) (raw : Bytes) (md : Metadata F) (ctx : Context F)
      : Type 0 where
    pub hdr : Header
    pub parsed : parse_header raw ≡ ok hdr
    pub type : hdr.packet_type ≡ 4
    pub decoded : decode_context fl raw hdr ≡ ok ctx
    pub adopted : get s'.contexts hdr.stream_id ≡ some ctx
    pub labels : md ≡ metadata fl hdr ctx false

  abbrev pub IsRecord : Interpreter F → Interpreter F → Bytes → Option (Record F) → Type 0
  IsRecord s s' raw none = Unit
  IsRecord s s' raw (some (context_record md ctx)) = IsContextRecord s' raw md ctx
  IsRecord s s' raw (some (data_record md body)) = IsDataRecord s raw md body

  outcome-IsRecord :
      (s : Interpreter F) (raw : Bytes) (r : Returned fl)
      → Outcome fl s raw r
      → IsRecord s r.0 raw r.1
  unfolding drop_packet
  outcome-IsRecord s raw r (Outcome.dropped reason e) = rw e tt
  outcome-IsRecord s raw r (Outcome.adopted hdr ctx p t room d e) = rw e (record {
    hdr = hdr;
    parsed = p;
    type = t;
    decoded = d;
    adopted = get-put_self s.contexts hdr.stream_id ctx;
    labels = refl;
  })
  outcome-IsRecord s raw r (Outcome.accepted hdr ctx bps body n p t known size good tr e) =
      rw e (record {
        hdr = hdr;
        ctx = ctx;
        bps = bps;
        count = n;
        parsed = p;
        type = t;
        context = known;
        size = unfold metadata in size;
        labels = refl;
        samples = trim_data-IsTrimmed raw hdr bps body n (parse_header-IsParsed raw hdr p).fits tr;
      })

  -- What `process` returns, if anything: a context record holds the packet's decoded context, which
  -- is now that of its stream; a data record holds as many whole samples as fit between the header
  -- and the declared end less the trailer, labelled by the stream's context and by whether the
  -- counter follows the stream's last.
  pub process-IsRecord :
      (s : Interpreter F) (raw : Bytes) → IsRecord s (process fl s raw).0 raw (process fl s raw).1
  process-IsRecord s raw = by_case (process fl s raw) (process-cases fl s raw)
    where
      by_case : (r : Returned fl) → Processed fl s raw r → IsRecord s r.0 raw r.1
      by_case r (Processed.unparseable e) = rw e tt
      by_case r (Processed.handled o) = outcome-IsRecord s raw r o
