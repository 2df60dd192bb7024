-- ===== src/Policy.antt =====
-- packages/znyx-core/src/znyx_core/policy: policies as JSON objects, the layers that the resolver
-- merges, and the signed bundles.
pub mod Value
pub mod Resolver
pub mod Bundle
