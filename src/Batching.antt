-- ===== src/Batching.antt =====
-- internal/platform/batching/pipeline.go: a reader, several processors and a writer, joined by
-- channels, with a bound on the items in flight.
pub mod Options
pub mod Pipeline
pub mod Invariant
pub mod Progress
pub mod Conservation
mod Tests
