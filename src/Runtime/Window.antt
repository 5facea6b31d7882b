-- ===== src/Runtime/Window.antt =====
-- internal/runtime/engine.go: the sources, the spans and the traces of a window; `Span.EventTime` of
-- internal/connectors/traces/loader.go.
use bering.Prelude.{String, ◌<>◌, not, Option, none, some, List, [], ◌∷◌, ◌++◌, ◌==◌, if◌then◌else◌}
use bering.Go.Int
use bering.Go.Int.{ℤ, pos}
use bering.Go.Text.{trim_space, is_blank}
use bering.Go.Text.Decimal.{decimal, byte_length}
use bering.Go.Time.{Time, is_zero}
use bering.Go.Map.{lookup, put, contains}
use bering.Snapshot.Types.{SourceSummary}
use bering.Runtime.Types.{Span, WindowState}

unfoldable pub default_source_summary : SourceSummary → List SourceSummary → SourceSummary
default_source_summary source [] =
    if not (is_blank (trim_space source.type))
    then source
    else record { type = "traces"; connector = "trace_file"; ref = ""; observations = pos 0 }
default_source_summary source (first ∷ _) =
    if not (is_blank (trim_space source.type)) then source else first

unfoldable pub source_summary_key : SourceSummary → String
source_summary_key s =
    trim_space s.type <> ("|" <> (trim_space s.connector <> ("|" <> trim_space s.ref)))

trimmed_type : String → String
trimmed_type type = if is_blank type then "traces" else type

-- The entry of the map, or the source without its own count where there is none.
merged_from : SourceSummary → Option SourceSummary → SourceSummary
merged_from source none = record source { observations = pos 0 }
merged_from source (some merged) =
    if merged.type == "" then record source { observations = pos 0 } else merged

add_to_set : String → List String → List String
add_to_set k set = if contains set k then set else k ∷ set

module _ {Value : Type 0} where
  unfoldable pub event_time : Span Value → Time → Time
  event_time span fallback =
      if not (is_zero span.end_time)
      then span.end_time
      else if not (is_zero span.start_time)
      then span.start_time
      else fallback

  unfoldable pub merge_window_source_summary :
      WindowState Value → SourceSummary → ℤ → WindowState Value
  unfolding trimmed_type merged_from source_summary_key
  merge_window_source_summary current source observations =
      let source' : SourceSummary = record source {
        type = trimmed_type (trim_space source.type);
      } in
      let key = source_summary_key source' in
      let merged = merged_from source' (lookup key current.sources) in
      if Int.le observations (pos 0) then current else record current {
        sources =
            put key (record merged { observations = Int.add merged.observations observations })
              current.sources;
      }

  -- `if span.SourceRef == "" { span.SourceRef = source.Ref }`
  unfoldable pub with_source_ref : SourceSummary → Span Value → Span Value
  with_source_ref source span =
      if span.source_ref == "" then record span { source_ref = source.ref } else span

  -- The end of both loops: the span is kept, and its trace noted.
  unfoldable pub append_span : WindowState Value → Span Value → WindowState Value
  unfolding add_to_set
  append_span current span = record current {
    spans = current.spans ++ (span ∷ []);
    traces =
        if span.trace_id == ""
        then current.traces
        else add_to_set
            (decimal (byte_length span.source_domain)
              <> (":" <> (span.source_domain <> span.trace_id)))
            current.traces;
  }
