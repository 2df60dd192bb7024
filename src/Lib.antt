-- ===== src/Lib.antt =====
-- znyx-runtime: a policy runtime that evaluates the text that goes into and comes out of language
-- models, and decides ALLOW, WARN, TRANSFORM, REDACT or BLOCK.
--
-- The path of a text: detectors answer with results (Core/Models: packages/znyx-core/src/znyx_core/
-- core/models.py). Where a detector has a model-backed strategy (Engine/Backends: engine/backends.py)
-- its deterministic result is escalated through the strategy's modes (Engine/Escalation with the pieces
-- of one attempt in Engine/Attempt and Engine/Redaction: engine/escalation.py); every call that leaves
-- the boundary goes through the egress sequence first (Engine/Egress: engine/egress.py). The scorecard
-- gate then downgrades a BLOCK or REDACT that its detector has no authority for (Engine/Enforcement:
-- engine/orchestrator.py; the bars in Engine/ScorecardGate: engine/scorecard_gate.py; the signed stamp
-- in Engine/ScorecardStamp: engine/scorecard_stamp.py), and the results of all detectors are aggregated
-- (Core/Aggregate: core/decision.py, with the ranks of Core/Labels: core/labels.py and core/risk.py).
-- Several judges are combined by vote (Engine/Consensus: engine/consensus.py).
-- A streamed text is evaluated window by window (Engine/Streaming: engine/streaming.py and the loop of
-- packages/znyx-runtime/src/znyx_runtime/api/stream_routes.py). Requests pass the rate limit before
-- (RateLimit: middleware/rate_limit.py). The inference service keeps its decisions in a cache
-- (Inference/Cache: packages/znyx-inference/src/znyx_inference/cache.py) and forms batches of concurrent
-- calls (Inference/Batching: batching.py beside it).
--
-- The policy that the detectors are configured from comes from a YAML file whose layers are merged
-- (Policy/Resolver: policy/resolver.py, policy/loader.py, utils/hash.py; the JSON values in
-- Policy/Value) or from a signed bundle (Policy/Bundle: policy/bundle.py, as a JSON document in
-- Policy/Bundle/Document), which the bundle manager fetches, caches and serves (Runtime/BundleManager:
-- packages/znyx-runtime/src/znyx_runtime/bundle_manager.py, with Serve for what it serves and Load for
-- how it boots and polls). Of the detectors, Detectors/Consumption is
-- detectors/unbounded_consumption.py, Detectors/TenantScope is detectors/tenant_scope_assertion.py and
-- Detectors/ApprovalGate is detectors/human_approval_gate.py, on the scanned text and the patterns of
-- detectors/excessive_agency.py (Detectors/ExcessiveAgency; what they share in reading metadata is in
-- Detectors/Metadata), and Checksums is utils/checksums.py with utils/luhn.py.
--
-- State is passed explicitly: the local variables of `run_with_strategy` are the record `Run`, a
-- `StreamingEvaluator` is `Stream`, the limiter's dict is `Requests`, a `ContentHashCache` is `Cache`,
-- a `BundleManager` with its cache files is `Manager`, a `BatchProcessor` with the calls that wait on
-- it is `Processor`, and the state of an audit sink or a Redis client is a parameter that its calls
-- return anew. A JSON file is its text. A call that raises returns `none` or a constructor of
-- its own (`unavailable`). A text is the list of its code points. What runs concurrently is a sequence
-- of events, each of them a piece of code between two awaits: the events of the batch processor, and
-- the polls and listener runs after a boot. Detectors, backends, judges, redactors, `urlparse`,
-- SHA-256, HMAC, Ed25519, base64, `json.dumps` and `json.loads`, regular expressions, the control
-- plane, the runner of a model, the clock and the application behind the middleware are parameters.
--
-- Every loop of the source is structural recursion but one: the loop of `push` runs on fuel, the length
-- of the buffer, and the clamped sizes make each round remove at least 25 characters. A score held in a
-- float is a number of hundredths or ten-thousandths, a time a number of milliseconds; no float rounding
-- is modelled but the one of `normalize_risk`.
--
-- Not modelled: the detectors but four (most are regular expressions and word lists), the orchestrator's
-- pipeline and the evaluator, the policy schema and its lint, the model registry and reconciler, the
-- transports and SDKs, the HTTP routes but the loop above, metrics and logs.
pub mod Prelude
pub mod Core
pub mod Engine
pub mod RateLimit
pub mod Policy
pub mod Runtime
pub mod Detectors
pub mod Checksums
pub mod Inference
pub mod Witnesses
