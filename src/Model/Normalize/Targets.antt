-- ===== src/Model/Normalize/Targets.antt =====
-- internal/model/model.go: what `Normalize` makes of the mandatory targets of an endpoint.
use bering.Prelude.{
  String, ap, ◌∙◌, ◌||◌, Option, none, some, List, [], ◌∷◌, All, Bool-cases, inl, inr,
}
use bering.Go.Float.{FloatOps}
use bering.Go.Map.{contains}
use bering.Go.Sort.{All-sort}
use bering.Go.Text.{trim_space, is_blank}
use bering.Go.Text.Order.{less}
use bering.Go.Text.Trim.{trim_space_idempotent}
use bering.Model.Types.{EndpointSemantics, EndpointMetadata, Endpoint}
use bering.Model.Integrity.{IsTarget, semantic_targets, mandatory_targets, Targets}
use bering.Model.Normalize.Texts.{distinct_loop, normalize_string_slice}
use bering.Model.Normalize.Methods.{
  normalize_pointer, normalize_semantics, is_zero_semantics, normalize_endpoint_metadata,
  is_zero_endpoint_metadata,
}
use bering.Model.Normalize.Sort.{normalize_endpoint}

module _ (ids : List String) where
  trim_space-IsTarget : (t : String) → IsTarget ids t → IsTarget ids (trim_space t)
  trim_space-IsTarget t h = ap (contains ids) (trim_space_idempotent t) ∙ h

  distinct_loop-IsTarget :
      (seen ts : List String)
      → All (IsTarget ids) ts
      → All (IsTarget ids) (distinct_loop trim_space seen ts)
  unfolding distinct_loop
  distinct_loop-IsTarget seen [] h = tt
  distinct_loop-IsTarget seen (t ∷ ts) h =
      elim (Bool-cases (is_blank (trim_space t) || contains seen (trim_space t))) [
        | inl skipped ↦ rw skipped (distinct_loop-IsTarget seen ts h.1)
        | inr new ↦
            rw new (trim_space-IsTarget t h.0, distinct_loop-IsTarget (trim_space t ∷ seen) ts h.1)
      ]

  normalize_string_slice-IsTarget :
      (ts : List String) → All (IsTarget ids) ts → All (IsTarget ids) (normalize_string_slice ts)
  unfolding normalize_string_slice
  normalize_string_slice-IsTarget ts h =
      All-sort (IsTarget ids) less (distinct_loop trim_space [] ts) (distinct_loop-IsTarget [] ts h)

  module _ (fl : FloatOps) where
    semantics-IsTarget :
        (o : Option EndpointSemantics)
        → All (IsTarget ids) (semantic_targets o)
        → All
            (IsTarget ids)
            (semantic_targets (normalize_pointer (normalize_semantics fl) is_zero_semantics o))
    unfolding normalize_semantics
    semantics-IsTarget none h = tt
    semantics-IsTarget (some s) h =
        elim (Bool-cases (is_zero_semantics (normalize_semantics fl s))) [
          | inl zero ↦ rw zero tt
          | inr full ↦ rw full (normalize_string_slice-IsTarget s.mandatory_targets h)
        ]

    metadata-IsTarget :
        (o : Option EndpointMetadata)
        → All (IsTarget ids) (mandatory_targets o)
        → All (IsTarget ids) (
            mandatory_targets
              (normalize_pointer (normalize_endpoint_metadata fl) is_zero_endpoint_metadata o))
    unfolding normalize_endpoint_metadata
    metadata-IsTarget none h = tt
    metadata-IsTarget (some m) h =
        elim (Bool-cases (is_zero_endpoint_metadata (normalize_endpoint_metadata fl m))) [
          | inl zero ↦ rw zero tt
          | inr full ↦ rw full (semantics-IsTarget m.semantics h)
        ]

    -- The mandatory targets of an endpoint stay resolved in its normal form.
    pub normalize_endpoint-Targets :
        (e : Endpoint) → Targets ids e → Targets ids (normalize_endpoint fl e)
    unfolding normalize_endpoint
    normalize_endpoint-Targets e h = metadata-IsTarget e.metadata h
