-- ===== src/Core.antt =====
-- packages/znyx-core/src/znyx_core/core: the vocabulary of decisions, and how they combine.
pub mod Models
pub mod Labels
pub mod Aggregate
