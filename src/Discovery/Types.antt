-- ===== src/Discovery/Types.antt =====
-- internal/discovery/discovery.go: the result of a discovery.
use bering.Prelude.{String, List}
use bering.Go.Int.{ℤ}
use bering.Model.Types.{ResilienceModel}
use bering.Snapshot.Types.{DiscoveryDetails, SourceSummary, CoverageSummary}

abbrev pub source_type_bering : String
source_type_bering = "bering"

pub record Result : Type 0 where
  pub model : ResilienceModel
  pub discovery : DiscoveryDetails
  pub sources : List SourceSummary
  pub coverage : CoverageSummary
  pub span_count : ℤ
  pub trace_count : ℤ
