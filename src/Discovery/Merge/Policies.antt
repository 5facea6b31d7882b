-- ===== src/Discovery/Merge/Policies.antt =====
-- internal/discovery/discovery.go: how what an overlay gives is merged into a policy, an observation or
-- a scope.
use bering.Prelude.{String, Option, none, some, List, [], ◌∷◌, ◌++◌, is_empty, if◌then◌else◌}
use bering.Go.Float.{FloatOps}
use bering.Go.Text.{trim_space, is_blank, to_upper}
use bering.Model.Types.{
  BackoffPolicy, RetryPolicy, CircuitBreakerPolicy, ResiliencePolicy, LatencySummary, ObservedEdge,
  PolicyScope,
}
use bering.Discovery.Attributes.{dedupe_strings}
use bering.Discovery.Clone.{
  clone_backoff, clone_retry, clone_circuit_breaker, clone_resilience, clone_latency,
  clone_observed, clone_policy_scope,
}

-- `if source != nil { target = clone(source) }`
unfoldable pub given_or {ℓ} : {A : Type ℓ} → Option A → Option A → Option A
given_or target none = target
given_or target (some source) = some source

-- `if strings.TrimSpace(source) != "" { target = strings.TrimSpace(source) }`
unfoldable pub text_or : String → String → String
text_or target source = if is_blank (trim_space source) then target else trim_space source

-- `if len(source) > 0 { target = clone(source) }`
unfoldable pub list_or {ℓ} : {A : Type ℓ} → List A → List A → List A
list_or target [] = target
list_or target (x ∷ xs) = x ∷ xs

merge_backoff_policy : BackoffPolicy → BackoffPolicy → BackoffPolicy
merge_backoff_policy target source = record {
  initial_ms = given_or target.initial_ms source.initial_ms;
  max_ms = given_or target.max_ms source.max_ms;
  multiplier = given_or target.multiplier source.multiplier;
  jitter = text_or target.jitter source.jitter;
}

merge_backoff : Option BackoffPolicy → Option BackoffPolicy → Option BackoffPolicy
unfolding merge_backoff_policy
merge_backoff target none = target
merge_backoff none (some source) = clone_backoff (some source)
merge_backoff (some target) (some source) = some (merge_backoff_policy target source)

merge_retry_policy : Option RetryPolicy → Option RetryPolicy → Option RetryPolicy
unfolding merge_backoff
merge_retry_policy target none = target
merge_retry_policy none (some source) = clone_retry (some source)
merge_retry_policy (some target) (some source) = some (record {
  max_attempts = given_or target.max_attempts source.max_attempts;
  budget_cap = given_or target.budget_cap source.budget_cap;
  retry_on =
      if is_empty source.retry_on
      then target.retry_on
      else dedupe_strings (target.retry_on ++ source.retry_on);
  backoff = merge_backoff target.backoff source.backoff;
})

merge_circuit_breaker_policy :
    Option CircuitBreakerPolicy → Option CircuitBreakerPolicy → Option CircuitBreakerPolicy
merge_circuit_breaker_policy target none = target
merge_circuit_breaker_policy none (some source) = clone_circuit_breaker (some source)
merge_circuit_breaker_policy (some target) (some source) = some (record {
  enabled = given_or target.enabled source.enabled;
  max_pending_requests = given_or target.max_pending_requests source.max_pending_requests;
  max_requests = given_or target.max_requests source.max_requests;
  max_connections = given_or target.max_connections source.max_connections;
  consecutive_5xx = given_or target.consecutive_5xx source.consecutive_5xx;
  interval_ms = given_or target.interval_ms source.interval_ms;
  base_ejection_time_ms = given_or target.base_ejection_time_ms source.base_ejection_time_ms;
})

unfoldable pub merge_resilience_policy :
    Option ResiliencePolicy → Option ResiliencePolicy → Option ResiliencePolicy
unfolding merge_retry_policy merge_circuit_breaker_policy
merge_resilience_policy target none = target
merge_resilience_policy none (some source) = clone_resilience (some source)
merge_resilience_policy (some target) (some source) = some (record {
  request_timeout_ms = given_or target.request_timeout_ms source.request_timeout_ms;
  per_try_timeout_ms = given_or target.per_try_timeout_ms source.per_try_timeout_ms;
  retry = merge_retry_policy target.retry source.retry;
  circuit_breaker = merge_circuit_breaker_policy target.circuit_breaker source.circuit_breaker;
})

unfoldable pub merge_policy_scope : Option PolicyScope → Option PolicyScope → Option PolicyScope
merge_policy_scope target none = target
merge_policy_scope none (some source) = clone_policy_scope (some source)
merge_policy_scope (some target) (some source) = some (record {
  source_endpoint_id = text_or target.source_endpoint_id source.source_endpoint_id;
  source_route = text_or target.source_route source.source_route;
  method =
      if is_blank (trim_space source.method)
      then target.method
      else to_upper (trim_space source.method);
  operation = text_or target.operation source.operation;
})

module _ (fl : FloatOps) where
  merge_latency : Option LatencySummary → Option LatencySummary → Option LatencySummary
  merge_latency target none = target
  merge_latency none (some source) = clone_latency fl (some source)
  merge_latency (some target) (some source) = some (record {
    p50 = given_or target.p50 source.p50;
    p90 = given_or target.p90 source.p90;
    p95 = given_or target.p95 source.p95;
    p99 = given_or target.p99 source.p99;
  })

  unfoldable pub merge_observed_edge :
      Option ObservedEdge → Option ObservedEdge → Option ObservedEdge
  unfolding merge_latency
  merge_observed_edge target none = target
  merge_observed_edge none (some source) = clone_observed fl (some source)
  merge_observed_edge (some target) (some source) = some (record {
    latency_ms = merge_latency target.latency_ms source.latency_ms;
    error_rate = given_or target.error_rate source.error_rate;
  })
