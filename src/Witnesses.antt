-- ===== src/Witnesses.antt =====
-- The theorems at concrete inputs, and the sample data for that.
mod Approvals
mod Base64
mod Samples
mod Aggregation
mod Gates
mod Crossings
mod Escalations
mod Serving
mod Votes
mod Policies
mod Batches
mod Usage
