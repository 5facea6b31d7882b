-- ===== src/Lib.antt =====
-- Bering discovers the topology of a system of services from its traces and keeps it reconciled
-- across observation windows. This library models its core and proves what makes it correct.
--
-- The program's parts. Discovery turns the spans of a window into a model, that is services, edges
-- and endpoints (internal/model), and into records with support and provenance (internal/snapshot).
-- The reconciler (internal/reconciliation) takes each window's result, matches it with the entities
-- it retains, advances each entity's lifecycle by the evidence for and against it and by the health
-- of the telemetry, drops retired entities from time to time, and publishes three projections of
-- what it retains: the raw window, the stable core and the guardrail union. The engine (internal/runtime)
-- collects the spans of a window, flushes the windows that are due through the discovery and the
-- reconciler, and hands each envelope to a sink; or it collects one batch until shutdown. The server's
-- configuration (internal/config) is adapted to the settings of the engine and the reconciler.
--
-- Files and code.
--   Prelude          the names of the standard library that the rest uses, Boolean tests, lists with
--                    a native length, results with an error.
--   Go               the parts of Go that the source uses: Int is the 64-bit int with its
--                    wrap-around, Float the bits of a float64 with its arithmetic as an interface,
--                    Text trims, splits, compares, lowers and escapes, Time is a moment in nanoseconds, Map
--                    an association list, Sort an insertion sort.
--   Model            internal/model/model.go: Types; Validate is ResilienceModel.ValidateSemantic,
--                    one definition for the body of each loop, with the checks of metadata in Parts
--                    and the errors in Errors; Normalize is SortDeterministic, EdgeIDWithIdentity
--                    and the Normalize methods; Integrity says when references are resolved.
--   Snapshot         internal/snapshot/snapshot.go: the types of the envelope and of the records
--                    (Types), SortDeterministic (Normalize), ValidateSemantic (Validate), ComputeDiff
--                    (Diff).
--   Discovery        internal/discovery/discovery.go: Result (Types); what a span and its parent say
--                    (Attributes), the identity of a dependency and the endpoint of a span (Infer),
--                    the index of the spans (Index, of observations.go), what is counted of each
--                    (Accumulate) and what the counts give (Summary), the loops of Discover over the
--                    spans and the lists made of it (Scan); the copies of topology.go (Clone), the merges of an overlay
--                    (Merge), applyOverlays (Positions, Overlays) and the end of Discover (Rebuild).
--   Overlay          internal/overlay/overlay.go: the types of an overlay, File.Normalize, FromReplicas.
--   Reconciliation   internal/reconciliation: Types (types.go); Config (config.go); Lifecycle
--                    (observeEntity in Observe, advanceLifecycle and gapThresholds in Advance);
--                    Health (evaluateTelemetryHealth); Index (buildObservationIndex and the
--                    opportunities); Projection (buildProjection, topologyFingerprint) with the loops that
--                    choose its entities (Selection); Compaction (compact and the trims of io.go);
--                    Process (Process, the step of one window), whose first part, up to the
--                    projections, is Window; State (New and loadState).
--   Config           internal/config/serve.go: the settings of the server and their validation.
--   Runtime          internal/runtime/engine.go: the window that collects spans (Window), the loop of
--                    IngestWithSource that keeps or drops each span (Admission), ingestShutdownBatch
--                    (Shutdown), the engine beside what it wrote and calls that may fail (Session),
--                    the builders of envelopes (Envelope), flushReconciled and the publication of a
--                    window (Publish), flushCurrent and flushDueLocked (Flush), NewEngine,
--                    IngestWithSource, FlushDue and Close (Lifetime); reconciliation_adapter.go and the
--                    settings of service.go (Adapter); a Span of internal/connectors/traces.
--   Tests            runs on small inputs, and the theorems at inputs that meet their hypotheses.
--
-- State. A method that changes its receiver returns the new value; Process returns the reconciler
-- beside its result or its error, so that what was changed before an error is seen. A pointer is an
-- Option, an error return a result with a value of an error type that has a constructor for each
-- message. The engine's calls run on a session, the engine with the list of what was written and the
-- number of readings of the clock, and return it on every path. The loops run over lists by structural
-- recursion. The printing of a number has fuel, and the number itself is enough of it; the loop of
-- flushDueLocked has the nanoseconds from the window's end to the moment, and two rounds more, which is
-- enough since each round moves the end by the window's size. A loop over a Go map runs over an
-- association list in its order; Go's order is arbitrary.
--
-- Parameters. FloatOps is the machine's arithmetic; IsRounding states the facts of it that the bounds
-- use, and thousandths, an arithmetic of whole thousandths, satisfies them. Rfc3339 prints and parses
-- moments. External holds the clock, the constants of the schema and the SHA-256 digest of a shape's
-- canonical JSON; writing the state file is a function that may fail. Host is what the engine is
-- given: the clock, whether an output is accepted, the discovery of a window's spans, digests, and
-- reflect.DeepEqual. MathOps is math.Exp and the seconds of a duration; IsComparison states how its
-- numbers compare. Texts is the text of an attribute's value, the path of a URL and the JSON of three
-- texts; Marshal is the JSON of a span and of its context.
--
-- Bounds. An int is a 64-bit integer with wrap-around; where a count must not overflow, that is a
-- hypothesis.
--
-- Not modelled. Letters beyond ASCII keep their case; sort.Slice is not stable, so where it may
-- order equal elements in several ways the model takes one; moments before the year 1 do not occur;
-- nil and empty slices are the same; fused multiply-add is not told from its two steps; the
-- metadata that a projection shares with the retained state is normalized in the projection only. The locks are
-- not modelled: a call of the engine runs alone. Reading and writing files, the decoding of YAML, JSON
-- and OTLP, the HTTP services, the command line, the release tooling and the schema validator are
-- input, output or calls of other programs. Of the discovery, the enrichment by observations and eBPF
-- peers and the assembly of the result are left out; so are the evidence, the quality report, the canonical JSON,
-- the resolution of paths, the metrics and the logs.
pub mod Prelude
pub mod Go
pub mod Model
pub mod Snapshot
pub mod Discovery
pub mod Overlay
pub mod Reconciliation
pub mod Config
pub mod Runtime
pub mod Tests
