-- ===== src/Snapshot/Validate/Exact.antt =====
-- internal/snapshot/snapshot.go: `ValidateSemantic` of an envelope, against what a valid one is.
use bering.Prelude.{◌≡◌, true, arith, length, ok, ◌↔◌}
use bering.Go.Int.{pos, ◌≤ℤ◌}
use bering.Go.Float.{FloatOps, InUnit}
use bering.Go.Time.{Rfc3339}
use bering.Go.Map.{is_some}
use bering.Model.Validate.Exact as Model
use bering.Model.Validate.Steps.{NonBlank}
use bering.Snapshot.Types.{IngestSummary, Envelope}
use bering.Snapshot.Validate.{
  check_header, check_emission, check_length, check_lengths, of_model, validate_semantic,
}

pub record IsIngestOk (i : IngestSummary) : Type 0 where
  pub spans : pos 0 ≤ℤ i.spans
  pub traces : pos 0 ≤ℤ i.traces
  pub dropped_spans : pos 0 ≤ℤ i.dropped_spans
  pub late_spans : pos 0 ≤ℤ i.late_spans

-- The lengths that an envelope states are those of its model, and each part of the model has as
-- many records.
pub record IsCounted (e : Envelope) : Type 0 where
  pub services : e.counts.services ≡ pos (length e.model.services)
  pub edges : e.counts.edges ≡ pos (length e.model.edges)
  pub endpoints : e.counts.endpoints ≡ pos (length e.model.endpoints)
  pub service_records : length e.discovery.services ≡ length e.model.services
  pub edge_records : length e.discovery.edges ≡ length e.model.edges
  pub endpoint_records : length e.discovery.endpoints ≡ length e.model.endpoints

pub record HasHeader (clock : Rfc3339) (e : Envelope) : Type 0 where
  pub snapshot_id : NonBlank e.snapshot_id
  pub topology_version : NonBlank e.topology_version
  pub window_start : is_some (clock.parse e.window_start) ≡ true
  pub window_end : is_some (clock.parse e.window_end) ≡ true

pub record HasEmission (fl : FloatOps) (clock : Rfc3339) (e : Envelope) : Type 0 where
  pub source_type : NonBlank e.metadata.source_type
  pub source_ref : NonBlank e.metadata.source_ref
  pub emitted_at : is_some (clock.parse e.metadata.emitted_at) ≡ true
  pub confidence : InUnit fl e.metadata.confidence
  pub ingest : IsIngestOk e.ingest

pub record IsValid (fl : FloatOps) (clock : Rfc3339) (e : Envelope) : Type 0 where
  pub header : HasHeader clock e
  pub model : Model.IsValid fl clock e.model
  pub emission : HasEmission fl clock e
  pub counted : IsCounted e

module _ (fl : FloatOps) (clock : Rfc3339) (e : Envelope) where
  check_lengths_lem : (check_lengths fl clock e ≡ ok tt) ↔ IsCounted e
  unfolding check_lengths check_length
  check_lengths_lem = ground arith

  check_header_lem : (check_header fl clock e ≡ ok tt) ↔ HasHeader clock e
  unfolding check_header
  check_header_lem = ground arith

  check_emission_lem : (check_emission fl clock e ≡ ok tt) ↔ HasEmission fl clock e
  unfolding check_emission
  check_emission_lem = ground arith

  -- `ValidateSemantic` returns no error exactly for the envelopes that are valid: with names, readable
  -- moments and a confidence in the unit interval, a valid model, ingest counts that are not negative,
  -- and lengths that agree with the model, both the stated ones and those of the records.
  pub validate_envelope_iff : (validate_semantic fl clock e ≡ ok tt) ↔ IsValid fl clock e
  unfolding validate_semantic of_model
  validate_envelope_iff = ground (
    arith,
    Model.validate_semantic_iff fl clock e.model,
    check_header_lem,
    check_emission_lem,
    check_lengths_lem,
  )
