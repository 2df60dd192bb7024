-- ===== src/Engine.antt =====
-- packages/znyx-core/src/znyx_core/engine: the scorecard gate, egress, escalation, streaming.
pub mod Config
pub mod ScorecardGate
pub mod ScorecardStamp
pub mod Enforcement
pub mod Egress
pub mod Redaction
pub mod Backends
pub mod Attempt
pub mod Escalation
pub mod Streaming
pub mod Consensus
