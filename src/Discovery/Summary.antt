-- ===== src/Discovery/Summary.antt =====
-- internal/discovery/discovery.go: the support and the observed latencies that the counts give.
use bering.Discovery.Accumulate.{ServiceAccumulator, EndpointAccumulator, EdgeAccumulator}
use bering.Prelude.{ℕ, zero, suc, Option, none, some, List, [], ◌∷◌, length, if◌then◌else◌, leb}
use bering.Go.Int
use bering.Go.Int.{pos, pos_part}
use bering.Go.Float
use bering.Go.Float.{Float, FloatOps}
use bering.Go.Text.Order.{less}
use bering.Go.Sort.{sort}
use bering.Model.Types.{ObservedEdge}
use bering.Model.Normalize.Methods.{normalize_observed, is_zero_observed}
use bering.Snapshot.Types.{SupportSummary}

unfoldable pub service_support : ServiceAccumulator → SupportSummary
service_support a = record {
  observations = a.observations;
  trace_count = pos (length a.trace_ids);
  evidence = [];
}

unfoldable pub endpoint_support : EndpointAccumulator → SupportSummary
endpoint_support a = record {
  observations = a.observations;
  trace_count = pos (length a.trace_ids);
  evidence = [];
}

unfoldable pub edge_support : EdgeAccumulator → SupportSummary
edge_support a = record {
  observations = a.observations;
  trace_count = pos (length a.trace_ids);
  evidence = sort less a.evidence;
}

module _ (fl : FloatOps) where
  -- The n-th of a list that is not empty, or its last.
  nth_or_last : Float → List Float → ℕ → Float
  nth_or_last first [] n = first
  nth_or_last first (x ∷ xs) zero = first
  nth_or_last first (x ∷ xs) (suc n) = nth_or_last x xs n

  percentile_at : Float → List Float → Float → Float
  unfolding nth_or_last
  percentile_at first [] p = fl.fixed3 first
  percentile_at first (x ∷ xs) p =
      let size = suc (length (x ∷ xs)) in
      let index = Int.sub (fl.to_int (fl.ceil (fl.mul (fl.of_int (pos size)) p))) (pos 1) in
      if Float.le fl p (fl.decimal 0 0)
      then fl.fixed3 first
      else if Float.le fl (fl.decimal 1 0) p
      then fl.fixed3 (nth_or_last first (x ∷ xs) size)
      else fl.fixed3 (nth_or_last first (x ∷ xs) (pos_part index))

  unfoldable pub percentile : List Float → Float → Float
  unfolding percentile_at
  percentile [] p = fl.decimal 0 0
  percentile (first ∷ rest) p = percentile_at first rest p

  summary_of : List Float → ObservedEdge
  unfolding percentile
  summary_of samples = record {
    latency_ms = some (record {
      p50 = some (percentile samples (fl.decimal 50 2));
      p90 = some (percentile samples (fl.decimal 90 2));
      p95 = some (percentile samples (fl.decimal 95 2));
      p99 = some (percentile samples (fl.decimal 99 2));
    });
    error_rate = none;
  }

  unfoldable pub observed_summary : EdgeAccumulator → Option ObservedEdge
  unfolding summary_of
  observed_summary a =
      let observed = normalize_observed fl (summary_of (sort fl.lt a.latency_ms)) in
      if leb (length a.latency_ms) 0
      then none
      else if is_zero_observed observed
      then none
      else some observed
