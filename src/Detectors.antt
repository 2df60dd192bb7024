-- ===== src/Detectors.antt =====
-- packages/znyx-core/src/znyx_core/detectors: the detectors that keep state or decide on metadata.
pub mod ApprovalGate
pub mod Consumption
pub mod ExcessiveAgency
pub mod Metadata
pub mod TenantScope
