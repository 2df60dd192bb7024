-- ===== src/Runtime.antt =====
-- packages/znyx-runtime/src/znyx_runtime: the parts of the runtime service.
pub mod BundleManager
