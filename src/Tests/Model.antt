-- ===== src/Tests/Model.antt =====
-- The model and its checks at small inputs.
use bering.Prelude.{◌≡◌, refl, ◌↔◌, ok, err, none, some, [], ◌∷◌}
use bering.Go.Float.{thousandths}
use bering.Go.Text.{trim_space}
use bering.Go.Map.{contains}
use bering.Model.Types.{ResilienceModel}
use bering.Model.Integrity.{IsResolved}
use bering.Model.Validate.{validate_semantic}
use bering.Model.Validate.Parts.{
  validate_service_metadata, validate_edge_identity, validate_edge_metadata, validate_resilience,
  validate_observed, validate_endpoint_metadata,
}
use bering.Model.Validate.Errors.{edge_to_unknown}
use bering.Model.Validate.Exact.{IsValid, validate_semantic_iff}
use bering.Model.Normalize.Order.{IsOrdered, sort_deterministic-IsOrdered}
use bering.Model.Normalize.Sort.{sort_deterministic}
use bering.Model.Normalize.Resolution.{sort_deterministic-IsResolved}
use bering.Tests.Samples.{clock, shop, call, entry}

shop_passes : validate_semantic thousandths clock shop ≡ ok tt
unfolding validate_semantic trim_space contains validate_service_metadata validate_edge_identity
    validate_edge_metadata validate_resilience validate_observed validate_endpoint_metadata
shop_passes = refl

abbrev broken : ResilienceModel
broken = record shop { edges = call "web" "bank" ∷ [] }

broken_fails : validate_semantic thousandths clock broken ≡ err (edge_to_unknown "bank")
unfolding validate_semantic trim_space contains validate_service_metadata
broken_fails = refl

validate_semantic_iff_example :
    (validate_semantic thousandths clock shop ≡ ok tt) ↔ IsValid thousandths clock shop
validate_semantic_iff_example = validate_semantic_iff thousandths clock shop

-- The entry of the shop needs the cart, which is named with blanks around it; and the cart calls
-- back without waiting.
abbrev aimed : ResilienceModel
aimed = record shop {
  edges = call "web" "cart" ∷ call "cart" "web" ∷ [];
  endpoints =
      record (entry "web:GET /" "web") {
        metadata = some (record {
          common = record { labels = []; tags = []; slo_refs = [] };
          weight = none;
          semantics = some (record {
            predicate_mode = "immediate";
            mandatory_targets = " cart" ∷ [];
            dependency_modes = [];
            source = "";
            confidence = none;
          });
        });
      }
      ∷ [];
}

aimed-IsResolved : IsResolved aimed
unfolding contains trim_space
aimed-IsResolved = record {
  integrity = record { edges = ((refl, refl), ((refl, refl), tt)); endpoints = (refl, tt) };
  targets = ((refl, tt), tt);
}

sort_deterministic-IsResolved_example : IsResolved (sort_deterministic thousandths aimed)
sort_deterministic-IsResolved_example =
    sort_deterministic-IsResolved thousandths aimed aimed-IsResolved

sort_deterministic-IsOrdered_example :
    IsOrdered thousandths aimed (sort_deterministic thousandths aimed)
sort_deterministic-IsOrdered_example = sort_deterministic-IsOrdered thousandths aimed
