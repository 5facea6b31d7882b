-- ===== src/Discovery/Clone.antt =====
-- internal/discovery/topology.go: the copies of the parts of a model. Each copy is brought into the
-- normal form, and an empty one is left out.
use bering.Prelude.{Option, List, map}
use bering.Go.Float.{FloatOps}
use bering.Model.Types.{
  EdgeIdentity, ReliabilityEvidence, Placement, EndpointSemantics, BackoffPolicy, RetryPolicy,
  CircuitBreakerPolicy, ResiliencePolicy, LatencySummary, ObservedEdge, PolicyScope,
}
use bering.Model.Normalize.Methods.{
  normalize_pointer, normalize_identity, normalize_policy_scope, normalize_backoff, normalize_retry,
  normalize_resilience, normalize_reliability, normalize_placement, normalize_semantics,
  normalize_latency, normalize_observed, is_zero_policy_scope, is_zero_backoff, is_zero_retry,
  is_zero_resilience, is_zero_circuit_breaker, is_zero_reliability, is_zero_semantics,
  is_zero_latency, is_zero_observed,
}
use bering.Model.Normalize.Texts.{is_zero_identity}

unfoldable pub clone_edge_identity : Option EdgeIdentity → Option EdgeIdentity
clone_edge_identity values = normalize_pointer normalize_identity is_zero_identity values

unfoldable pub clone_policy_scope : Option PolicyScope → Option PolicyScope
clone_policy_scope values = normalize_pointer normalize_policy_scope is_zero_policy_scope values

unfoldable pub clone_backoff : Option BackoffPolicy → Option BackoffPolicy
clone_backoff values = normalize_pointer normalize_backoff is_zero_backoff values

retry_copy : RetryPolicy → RetryPolicy
retry_copy p = record p { backoff = clone_backoff p.backoff }

unfoldable pub clone_retry : Option RetryPolicy → Option RetryPolicy
unfolding retry_copy
clone_retry values = normalize_pointer (λ p. normalize_retry (retry_copy p)) is_zero_retry values

unfoldable pub clone_circuit_breaker : Option CircuitBreakerPolicy → Option CircuitBreakerPolicy
clone_circuit_breaker values = normalize_pointer (λ p. p) is_zero_circuit_breaker values

resilience_copy : ResiliencePolicy → ResiliencePolicy
resilience_copy p = record p {
  retry = clone_retry p.retry;
  circuit_breaker = clone_circuit_breaker p.circuit_breaker;
}

unfoldable pub clone_resilience : Option ResiliencePolicy → Option ResiliencePolicy
unfolding resilience_copy
clone_resilience values =
    normalize_pointer (λ p. normalize_resilience (resilience_copy p)) is_zero_resilience values

module _ (fl : FloatOps) where
  unfoldable pub clone_reliability : Option ReliabilityEvidence → Option ReliabilityEvidence
  clone_reliability values = normalize_pointer (normalize_reliability fl) is_zero_reliability values

  placement_copy : Placement → Placement
  placement_copy p = record p { reliability = clone_reliability p.reliability }

  unfoldable pub clone_placements : List Placement → List Placement
  unfolding placement_copy
  clone_placements values = map (λ p. normalize_placement fl (placement_copy p)) values

  unfoldable pub clone_semantics : Option EndpointSemantics → Option EndpointSemantics
  clone_semantics values = normalize_pointer (normalize_semantics fl) is_zero_semantics values

  unfoldable pub clone_latency : Option LatencySummary → Option LatencySummary
  clone_latency values = normalize_pointer (normalize_latency fl) is_zero_latency values

  observed_copy : ObservedEdge → ObservedEdge
  observed_copy o = record o { latency_ms = clone_latency o.latency_ms }

  unfoldable pub clone_observed : Option ObservedEdge → Option ObservedEdge
  unfolding observed_copy
  clone_observed values =
      normalize_pointer (λ o. normalize_observed fl (observed_copy o)) is_zero_observed values
