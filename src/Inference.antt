-- ===== src/Inference.antt =====
-- packages/znyx-inference: the decision cache and the batching of the inference service.
pub mod Cache
pub mod Batching
