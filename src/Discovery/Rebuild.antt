-- ===== src/Discovery/Rebuild.antt =====
-- internal/discovery/discovery.go: what `Discover` makes of the records at its end: the replicas and
-- names of the model, the least supports, and the sources.
use bering.Prelude.{String, Option, none, some, List, [], ◌∷◌, map, if◌then◌else◌}
use bering.Go.Int
use bering.Go.Int.{ℤ, pos}
use bering.Go.Text.{is_blank}
use bering.Go.Map.{Map, lookup, by_key}
use bering.Model.Types.{Service}
use bering.Snapshot.Types.{ServiceRecord, SourceSummary}

-- The service of a model with an identifier; the last one, where there are several.
unfoldable pub rebuild_service_record : Map Service → ServiceRecord → ServiceRecord
rebuild_service_record index item = of (lookup item.id index)
  where
    of : Option Service → ServiceRecord
    of none = item
    of (some service) = record item { replicas = service.replicas; name = service.name }

unfoldable pub rebuild_service_records : List ServiceRecord → List Service → List ServiceRecord
rebuild_service_records records services =
    map (rebuild_service_record (by_key (λ s. s.id) [] services)) records

least : ℤ → List ℤ → ℤ
least min [] = min
least min (current ∷ rest) = least (if Int.lt current min then current else min) rest

-- `minSupport`
unfoldable pub min_support : List ℤ → ℤ
unfolding least
min_support [] = pos 0
min_support (first ∷ rest) = least first rest

unfoldable pub default_sources : List SourceSummary → String → ℤ → List SourceSummary
default_sources [] ref observations =
    record { type = "traces"; connector = "trace_file"; ref = ref; observations = observations }
    ∷ []
default_sources (first ∷ rest) ref observations =
    record first {
      ref = if is_blank first.ref then ref else first.ref;
      observations =
          if Int.equal first.observations (pos 0) then observations else first.observations;
    }
    ∷ rest
