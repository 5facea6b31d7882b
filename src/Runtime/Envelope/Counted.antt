-- ===== src/Runtime/Envelope/Counted.antt =====
-- engine.go: the lengths in the envelope of a window.
use mathlib.Core.Option
use bering.Prelude.{
  ◌≡◌, refl, ap, ◌∙◌, sym, subst, String, Bool, Option, none, some, List, map, length, length-map,
}
use bering.Go.Int.{pos}
use bering.Go.Float.{FloatOps}
use bering.Go.Time.{Time}
use bering.Go.Sort.{sort, length-sort}
use bering.Model.Normalize.Sort as Model
use bering.Snapshot.Types.{Envelope}
use bering.Snapshot.Normalize.{sort_deterministic, sort_details}
use bering.Snapshot.Validate.Exact.{IsCounted}
use bering.Discovery.Types as Discovery
use bering.Runtime.Types.{WindowState, EngineConfig}
use bering.Runtime.Session.{Host}
use bering.Runtime.Envelope.{
  carry_forward_observation_times, compare_and_sort, envelope_of, build_snapshot_envelope,
}

length-sort-map :
    {A : Type 0} (less : A → A → Bool) (f : A → A) (xs : List A)
    → length (sort less (map f xs)) ≡ length xs
length-sort-map less f xs = length-sort less (map f xs) ∙ length-map f xs

-- The normal form of an envelope has the lengths of the envelope.
sort_deterministic-IsCounted :
    (fl : FloatOps) (e : Envelope) → IsCounted e → IsCounted (sort_deterministic fl e)
unfolding sort_deterministic sort_details Model.sort_deterministic
sort_deterministic-IsCounted fl e h = record {
  services = h.services ∙ ap pos (sym (length-sort-map _ _ e.model.services));
  edges = h.edges ∙ ap pos (sym (length-sort-map _ _ e.model.edges));
  endpoints = h.endpoints ∙ ap pos (sym (length-sort-map _ _ e.model.endpoints));
  service_records =
      length-sort-map _ _ e.discovery.services
      ∙ h.service_records
      ∙ sym (length-sort-map _ _ e.model.services);
  edge_records =
      length-sort-map _ _ e.discovery.edges
      ∙ h.edge_records
      ∙ sym (length-sort-map _ _ e.model.edges);
  endpoint_records =
      length-sort-map _ _ e.discovery.endpoints
      ∙ h.endpoint_records
      ∙ sym (length-sort-map _ _ e.model.endpoints);
}

-- A discovery with one record for each part of its model.
pub record HasRecords (result : Discovery.Result) : Type 0 where
  pub services : length result.discovery.services ≡ length result.model.services
  pub edges : length result.discovery.edges ≡ length result.model.edges
  pub endpoints : length result.discovery.endpoints ≡ length result.model.endpoints

module _ {Value : Type 0} (host : Host Value) where
  carry_forward-IsCounted :
      (previous : Option Envelope) (e : Envelope)
      → IsCounted e
      → IsCounted (carry_forward_observation_times host.external.clock previous e)
  unfolding carry_forward_observation_times
  carry_forward-IsCounted none e h = h
  carry_forward-IsCounted (some previous) e h = record {
    services = h.services;
    edges = h.edges;
    endpoints = h.endpoints;
    service_records = length-map _ e.discovery.services ∙ h.service_records;
    edge_records = length-map _ e.discovery.edges ∙ h.edge_records;
    endpoint_records = length-map _ e.discovery.endpoints ∙ h.endpoint_records;
  }

  compare_and_sort-IsCounted :
      (previous : Option Envelope) (e : Envelope)
      → IsCounted e
      → IsCounted (compare_and_sort host previous e)
  unfolding compare_and_sort
  compare_and_sort-IsCounted previous e h = sort_deterministic-IsCounted host.float _ (record {
    services = h.services;
    edges = h.edges;
    endpoints = h.endpoints;
    service_records = h.service_records;
    edge_records = h.edge_records;
    endpoint_records = h.endpoint_records;
  })

  module _ (cfg : EngineConfig) (current : WindowState Value) (result : Discovery.Result)
      (previous : Option Envelope) (started : Time) where
    envelope_of-IsCounted :
        (version : String)
        → HasRecords result
        → IsCounted (envelope_of host cfg current result started version)
    unfolding envelope_of
    envelope_of-IsCounted version h = record {
      services = refl;
      edges = refl;
      endpoints = refl;
      service_records = h.services;
      edge_records = h.edges;
      endpoint_records = h.endpoints;
    }

    -- The claim on what was built.
    abbrev CountedIf : Option Envelope → Type 0
    CountedIf none = Unit
    CountedIf (some env) = IsCounted env

    built-CountedIf :
        (version : Option String)
        → HasRecords result
        → CountedIf (
            Option.map
              (λ v. compare_and_sort host previous (
                carry_forward_observation_times host.external.clock previous
                  (envelope_of host cfg current result started v)))
              version)
    built-CountedIf none h = tt
    built-CountedIf (some v) h =
        compare_and_sort-IsCounted previous _
          (carry_forward-IsCounted previous _ (envelope_of-IsCounted v h))

    -- The envelope that is built of a window states the lengths of its model, and has a record for each
    -- part of it, if the discovery has: it passes the checks of lengths of `ValidateSemantic`.
    pub build_snapshot_envelope-IsCounted :
        (env : Envelope)
        → HasRecords result
        → build_snapshot_envelope host cfg current result previous started ≡ some env
        → IsCounted env
    unfolding build_snapshot_envelope
    build_snapshot_envelope-IsCounted env h built =
        subst CountedIf built (built-CountedIf (host.topology_digest result.model) h)
