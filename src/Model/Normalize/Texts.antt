-- ===== src/Model/Normalize/Texts.antt =====
-- internal/model/model.go: `normalizeStringMap`, `normalizeStringSlice` and
-- `normalizeDependencyModes`, `EdgeIDWithIdentity`.
use bering.Prelude.{
  String, ◌<>◌, Bool, ◌&&◌, ◌||◌, Option, none, some, List, [], ◌∷◌, if◌then◌else◌,
}
use bering.Go.Text.{trim_space, is_blank, to_lower}
use bering.Go.Text.Order.{less}
use bering.Go.Text.Escape.{query_escape}
use bering.Go.Map.{Map, put, contains}
use bering.Go.Sort.{sort}
use bering.Model.Types.{EdgeKind, EdgeIdentity}
use bering.Model.Validate.{edge_id}

normalize_map_loop : Map String → Map String → Map String
normalize_map_loop out [] = out
normalize_map_loop out ((key, value) ∷ rest) =
    normalize_map_loop
      (if is_blank (trim_space key) then out else put (trim_space key) (trim_space value) out) rest

unfoldable pub normalize_string_map : Map String → Map String
unfolding normalize_map_loop
normalize_string_map values = normalize_map_loop [] values

-- The loop over the values: a blank text and one that was seen are left out.
unfoldable pub distinct_loop : (String → String) → List String → List String → List String
distinct_loop clean seen [] = []
distinct_loop clean seen (value ∷ rest) =
    let trimmed = clean value in
    let skip = is_blank trimmed || contains seen trimmed in
    let others = distinct_loop clean (if skip then seen else trimmed ∷ seen) rest in
    if skip then others else trimmed ∷ others

unfoldable pub normalize_string_slice : List String → List String
unfolding distinct_loop
normalize_string_slice values = sort less (distinct_loop trim_space [] values)

unfoldable pub normalize_dependency_modes : List String → List String
unfolding distinct_loop
normalize_dependency_modes values =
    sort less (distinct_loop (λ value. to_lower (trim_space value)) [] values)

-- `EdgeIdentity.IsZero`
unfoldable pub is_zero_identity : EdgeIdentity → Bool
is_zero_identity i =
    is_blank (trim_space i.protocol)
    && is_blank (trim_space i.operation)
    && is_blank (trim_space i.route)
    && is_blank (trim_space i.topic)
    && is_blank (trim_space i.span_kind)

-- `"|" + strings.Join(parts, "|")`, empty when there is no part.
identity_parts : List (String × String) → String
identity_parts [] = ""
identity_parts ((name, value) ∷ rest) =
    let others = identity_parts rest in
    if is_blank (trim_space value)
    then others
    else "|" <> (name <> ("=" <> (query_escape (trim_space value) <> others)))

-- `EdgeIDWithIdentity`
unfoldable pub edge_id_with_identity :
    String → String → EdgeKind → Bool → Option EdgeIdentity → String
unfolding identity_parts is_zero_identity
edge_id_with_identity from to kind blocking none = edge_id from to kind blocking
edge_id_with_identity from to kind blocking (some identity) =
    if is_zero_identity identity
    then edge_id from to kind blocking
    else edge_id from to kind blocking
      <> identity_parts (
          ("protocol", identity.protocol)
          ∷ ("operation", identity.operation)
          ∷ ("route", identity.route)
          ∷ ("topic", identity.topic)
          ∷ ("span_kind", identity.span_kind)
          ∷ [])
