-- ===== src/Snapshot/Validate.antt =====
-- internal/snapshot/snapshot.go: `ValidateSemantic` of an envelope.
pub mod Exact
use bering.Prelude.{String, Bool, ◌||◌, not, length, ok, err, ◌>>◌, ◌>>=◌, Checked, fail_if}
use bering.Go.Int
use bering.Go.Int.{ℤ, pos}
use bering.Go.Float.{FloatOps}
use bering.Go.Text.{trim_space, is_blank}
use bering.Go.Time.{Rfc3339}
use bering.Go.Map.{is_some}
use bering.Model.Validate as Model
use bering.Model.Validate.Errors
use bering.Model.Validate.Parts.{out_of_unit}
use bering.Snapshot.Types.{IngestSummary, Envelope}

-- The lists whose lengths an envelope states, or shows twice.
pub data Part : Type 0 where
  services edges endpoints : Part

pub data Error : Type 0 where
  snapshot_id_empty topology_version_empty : Error
  window_start_unreadable window_end_unreadable : Error
  model_invalid : Errors.Error → Error
  source_type_empty source_ref_empty emitted_at_unreadable confidence_range : Error
  ingest_negative : Error
  counts_mismatch : Part → ℤ → ℤ → Error
  discovery_mismatch : Part → ℤ → ℤ → Error

unfoldable pub is_negative_ingest : IngestSummary → Bool
is_negative_ingest i =
    Int.lt i.spans (pos 0)
    || Int.lt i.traces (pos 0)
    || Int.lt i.dropped_spans (pos 0)
    || Int.lt i.late_spans (pos 0)

-- `if got != want { return … }`
unfoldable pub check_length : (ℤ → ℤ → Error) → ℤ → ℤ → Checked Error
check_length error got want = fail_if (not (Int.equal got want)) (error got want)

unfoldable pub of_model : Checked Errors.Error → Checked Error
of_model (ok u) = ok u
of_model (err e) = err (model_invalid e)

module _ (fl : FloatOps) (clock : Rfc3339) where
  unreadable : String → Bool
  unreadable text = not (is_some (clock.parse text))

  unfoldable pub check_lengths : Envelope → Checked Error
  check_lengths e = do
    check_length (counts_mismatch services) e.counts.services (pos (length e.model.services))
    check_length (counts_mismatch edges) e.counts.edges (pos (length e.model.edges))
    check_length (counts_mismatch endpoints) e.counts.endpoints (pos (length e.model.endpoints))
    check_length (discovery_mismatch services) (pos (length e.discovery.services))
        (pos (length e.model.services))
    check_length (discovery_mismatch edges) (pos (length e.discovery.edges))
        (pos (length e.model.edges))
    check_length (discovery_mismatch endpoints) (pos (length e.discovery.endpoints))
        (pos (length e.model.endpoints))

  unfoldable pub check_header : Envelope → Checked Error
  unfolding unreadable
  check_header e = do
    fail_if (is_blank (trim_space e.snapshot_id)) snapshot_id_empty
    fail_if (is_blank (trim_space e.topology_version)) topology_version_empty
    fail_if (unreadable e.window_start) window_start_unreadable
    fail_if (unreadable e.window_end) window_end_unreadable

  unfoldable pub check_emission : Envelope → Checked Error
  unfolding unreadable is_negative_ingest
  check_emission e = do
    fail_if (is_blank (trim_space e.metadata.source_type)) source_type_empty
    fail_if (is_blank (trim_space e.metadata.source_ref)) source_ref_empty
    fail_if (unreadable e.metadata.emitted_at) emitted_at_unreadable
    fail_if (out_of_unit fl e.metadata.confidence) confidence_range
    fail_if (is_negative_ingest e.ingest) ingest_negative

  unfoldable pub validate_semantic : Envelope → Checked Error
  validate_semantic e = do
    check_header e
    of_model (Model.validate_semantic fl clock e.model)
    check_emission e
    check_lengths e
