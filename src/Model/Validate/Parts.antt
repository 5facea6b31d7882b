-- ===== src/Model/Validate/Parts.antt =====
-- internal/model/model.go: the checks of metadata, identities, policies and observations.
use bering.Prelude.{
  ℕ, ◌+◌, String, Bool, false, ◌&&◌, ◌||◌, not, Option, none, some, List, [], ◌∷◌, ◌==◌, ◌>>◌,
  Checked, ok, err, fail_if,
}
use bering.Go.Int
use bering.Go.Int.{ℤ, pos}
use bering.Go.Float.{Float, FloatOps}
use bering.Go.Text.{trim_space, is_blank, contains_char}
use bering.Go.Map.{contains}
use bering.Model.Types.{
  ReliabilityEvidence, Placement, ServiceMetadata, EdgeIdentity, EdgeMetadata, EndpointSemantics,
  EndpointMetadata, BackoffPolicy, RetryPolicy, CircuitBreakerPolicy, ResiliencePolicy,
  LatencySummary, ObservedEdge, edge_kind_sync, edge_kind_async, endpoint_predicate_mode_immediate,
  endpoint_predicate_mode_eventual, endpoint_predicate_mode_external,
}
use bering.Model.Validate.Errors.{
  Label, own, of_placement, Problem, live_probability_required, live_probability_range,
  reliability_confidence_range, placement_replicas, pipe_character, negative_weight,
  predicate_mode_unknown, mandatory_target_empty, mandatory_target_unknown, dependency_mode_unknown,
  semantics_confidence_range, negative_field, error_rate_range, not_monotonic,
}

-- `v != nil && *v < 0` at an integer
abbrev pub is_negative : Option ℤ → Bool
is_negative none = false
is_negative (some v) = Int.lt v (pos 0)

-- The loops over named integer fields: the first negative one is reported.
unfoldable pub check_fields : List (String × Option ℤ) → Checked Problem
check_fields [] = ok tt
check_fields ((name, v) ∷ rest) = do
  fail_if (is_negative v) (negative_field name)
  check_fields rest

unfoldable pub validate_edge_identity : Option EdgeIdentity → Checked Problem
unfolding contains_char
validate_edge_identity none = ok tt
validate_edge_identity (some identity) =
    fail_if
      (contains_char b'|' identity.protocol
        || contains_char b'|' identity.operation
        || contains_char b'|' identity.route
        || contains_char b'|' identity.topic
        || contains_char b'|' identity.span_kind)
      pipe_character

unfoldable pub validate_mandatory_targets : ℕ → List String → List String → Checked Problem
unfolding contains
validate_mandatory_targets idx service_set [] = ok tt
validate_mandatory_targets idx service_set (target ∷ rest) = do
  fail_if (is_blank (trim_space target)) (mandatory_target_empty idx)
  fail_if (not (contains service_set (trim_space target)))
      (mandatory_target_unknown idx (trim_space target))
  validate_mandatory_targets (idx + 1) service_set rest

unfoldable pub validate_dependency_modes : ℕ → List String → Checked Problem
validate_dependency_modes idx [] = ok tt
validate_dependency_modes idx (mode ∷ rest) = do
  fail_if (not (trim_space mode == edge_kind_sync || trim_space mode == edge_kind_async))
      (dependency_mode_unknown idx)
  validate_dependency_modes (idx + 1) rest

is_predicate_mode : String → Bool
is_predicate_mode mode =
    mode == endpoint_predicate_mode_immediate
    || mode == endpoint_predicate_mode_eventual
    || mode == endpoint_predicate_mode_external

module _ (fl : FloatOps) where
  -- `v != nil && *v < 0`
  abbrev pub is_negative_float : Option Float → Bool
  is_negative_float none = false
  is_negative_float (some v) = fl.lt v (fl.decimal 0 0)

  -- `v < 0 || v > 1`
  abbrev pub out_of_unit : Float → Bool
  out_of_unit v = fl.lt v (fl.decimal 0 0) || fl.lt (fl.decimal 1 0) v

  abbrev pub out_of_unit_opt : Option Float → Bool
  out_of_unit_opt none = false
  out_of_unit_opt (some v) = out_of_unit v

  unfoldable pub check_live_probability : Label → Option Float → Checked Problem
  check_live_probability label none = err (live_probability_required label)
  check_live_probability label (some v) = fail_if (out_of_unit v) (live_probability_range label)

  unfoldable pub validate_reliability_evidence :
      Label → Option ReliabilityEvidence → Checked Problem
  unfolding check_live_probability
  validate_reliability_evidence label none = ok tt
  validate_reliability_evidence label (some reliability) = do
    check_live_probability label reliability.live_probability
    fail_if (out_of_unit_opt reliability.confidence) (reliability_confidence_range label)

  unfoldable pub validate_placements : ℕ → List Placement → Checked Problem
  validate_placements i [] = ok tt
  validate_placements i (placement ∷ rest) = do
    fail_if (Int.le placement.replicas (pos 0)) (placement_replicas i)
    validate_reliability_evidence (of_placement i) placement.reliability
    validate_placements (i + 1) rest

  unfoldable pub validate_service_metadata : Option ServiceMetadata → Checked Problem
  validate_service_metadata none = ok tt
  validate_service_metadata (some meta) = do
    validate_reliability_evidence own meta.reliability
    validate_placements 0 meta.placements

  unfoldable pub validate_edge_metadata : Option EdgeMetadata → Checked Problem
  validate_edge_metadata none = ok tt
  validate_edge_metadata (some meta) = do
    fail_if (is_negative_float meta.weight) negative_weight
    validate_reliability_evidence own meta.reliability

  unfoldable pub validate_endpoint_semantics :
      Option EndpointSemantics → List String → Checked Problem
  unfolding is_predicate_mode
  validate_endpoint_semantics none service_set = ok tt
  validate_endpoint_semantics (some semantics) service_set = do
    fail_if
        (not (is_blank (trim_space semantics.predicate_mode))
          && not (is_predicate_mode (trim_space semantics.predicate_mode)))
        predicate_mode_unknown
    validate_mandatory_targets 0 service_set semantics.mandatory_targets
    validate_dependency_modes 0 semantics.dependency_modes
    fail_if (out_of_unit_opt semantics.confidence) semantics_confidence_range

  unfoldable pub validate_endpoint_metadata :
      Option EndpointMetadata → List String → Checked Problem
  validate_endpoint_metadata none service_set = ok tt
  validate_endpoint_metadata (some meta) service_set = do
    fail_if (is_negative_float meta.weight) negative_weight
    validate_endpoint_semantics meta.semantics service_set

  unfoldable pub validate_backoff : Option BackoffPolicy → Checked Problem
  validate_backoff none = ok tt
  validate_backoff (some backoff) = do
    check_fields (
        ("retry.backoff.initial_ms", backoff.initial_ms)
        ∷ ("retry.backoff.max_ms", backoff.max_ms)
        ∷ [])
    fail_if (is_negative_float backoff.multiplier) (negative_field "retry.backoff.multiplier")

  unfoldable pub validate_retry : Option RetryPolicy → Checked Problem
  unfolding validate_backoff
  validate_retry none = ok tt
  validate_retry (some retry) = do
    fail_if (is_negative retry.max_attempts) (negative_field "retry.max_attempts")
    fail_if (is_negative_float retry.budget_cap) (negative_field "retry.budget_cap")
    validate_backoff retry.backoff

  unfoldable pub validate_circuit_breaker : Option CircuitBreakerPolicy → Checked Problem
  validate_circuit_breaker none = ok tt
  validate_circuit_breaker (some breaker) = check_fields (
      ("circuit_breaker.max_pending_requests", breaker.max_pending_requests)
      ∷ ("circuit_breaker.max_requests", breaker.max_requests)
      ∷ ("circuit_breaker.max_connections", breaker.max_connections)
      ∷ ("circuit_breaker.consecutive_5xx", breaker.consecutive_5xx)
      ∷ ("circuit_breaker.interval_ms", breaker.interval_ms)
      ∷ ("circuit_breaker.base_ejection_time_ms", breaker.base_ejection_time_ms)
      ∷ [])

  unfoldable pub validate_resilience : Option ResiliencePolicy → Checked Problem
  unfolding validate_retry validate_circuit_breaker
  validate_resilience none = ok tt
  validate_resilience (some policy) = do
    check_fields (
        ("request_timeout_ms", policy.request_timeout_ms)
        ∷ ("per_try_timeout_ms", policy.per_try_timeout_ms)
        ∷ [])
    validate_retry policy.retry
    validate_circuit_breaker policy.circuit_breaker

  -- The loop of `validateMonotonicLatency`: the last value seen, with its name.
  unfoldable pub check_monotonic :
      Option (String × Float) → List (String × Option Float) → Checked Problem
  check_monotonic last [] = ok tt
  check_monotonic last ((name, none) ∷ rest) = check_monotonic last rest
  check_monotonic none ((name, some v) ∷ rest) = check_monotonic (some (name, v)) rest
  check_monotonic (some (last_name, last_value)) ((name, some v) ∷ rest) = do
    fail_if (fl.lt v last_value) (not_monotonic name last_name)
    check_monotonic (some (name, v)) rest

  unfoldable pub validate_monotonic_latency : LatencySummary → Checked Problem
  unfolding check_monotonic
  validate_monotonic_latency summary = check_monotonic none (
      ("p50", summary.p50)
      ∷ ("p90", summary.p90)
      ∷ ("p95", summary.p95)
      ∷ ("p99", summary.p99)
      ∷ [])

  unfoldable pub validate_latency : Option LatencySummary → Checked Problem
  unfolding validate_monotonic_latency
  validate_latency none = ok tt
  validate_latency (some summary) = do
    fail_if (is_negative_float summary.p50) (negative_field "latency_ms.p50")
    fail_if (is_negative_float summary.p90) (negative_field "latency_ms.p90")
    fail_if (is_negative_float summary.p95) (negative_field "latency_ms.p95")
    fail_if (is_negative_float summary.p99) (negative_field "latency_ms.p99")
    validate_monotonic_latency summary

  unfoldable pub validate_observed : Option ObservedEdge → Checked Problem
  unfolding validate_latency
  validate_observed none = ok tt
  validate_observed (some observed) = do
    fail_if (out_of_unit_opt observed.error_rate) error_rate_range
    validate_latency observed.latency_ms
