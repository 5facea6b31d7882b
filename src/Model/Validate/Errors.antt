-- ===== src/Model/Validate/Errors.antt =====
-- internal/model/model.go: the errors of `ValidateSemantic`, one constructor for each message.
use bering.Prelude.{ℕ, String, Result, ok, err}

-- The label of a reliability record: the metadata's own, or that of `placements[i]`.
pub data Label : Type 0 where
  own : Label
  of_placement : ℕ → Label

pub data Problem : Type 0 where
  live_probability_required : Label → Problem
  live_probability_range : Label → Problem
  reliability_confidence_range : Label → Problem
  placement_replicas : ℕ → Problem
  pipe_character : Problem
  negative_weight : Problem
  predicate_mode_unknown : Problem
  mandatory_target_empty : ℕ → Problem
  mandatory_target_unknown : ℕ → String → Problem
  dependency_mode_unknown : ℕ → Problem
  semantics_confidence_range : Problem
  negative_field : String → Problem
  error_rate_range : Problem
  not_monotonic : String → String → Problem

pub data Error : Type 0 where
  services_empty : Error
  service_id_empty : Error
  service_name_empty : String → Error
  service_replicas : String → Error
  service_duplicate : String → Error
  service_metadata : String → Problem → Error
  edge_from_unknown : String → Error
  edge_to_unknown : String → Error
  edge_kind_unsupported : String → Error
  edge_duplicate : String → Error
  edge_identity : String → Problem → Error
  edge_metadata : String → Problem → Error
  edge_resilience : String → Problem → Error
  edge_observed : String → Problem → Error
  endpoint_id_empty : Error
  endpoint_duplicate : String → Error
  endpoint_service_unknown : String → String → Error
  endpoint_predicate_empty : String → Error
  endpoint_metadata : String → Problem → Error
  source_type_empty : Error
  source_ref_empty : Error
  discovered_at_empty : Error
  discovered_at_unreadable : Error
  confidence_range : Error

-- `if err := f(); err != nil { return fmt.Errorf("…: %w", err) }`
abbrev pub within {ℓ} : {A : Type ℓ} → (Problem → Error) → Result Problem A → Result Error A
within wrap (ok a) = ok a
within wrap (err p) = err (wrap p)
