-- ===== src/Delivery/Due.antt =====
-- internal/modules/delivery/app/process/due.go: how a worker sends the messages that are due.
pub mod Data
pub mod Retry
pub mod Accepted
pub mod Send
pub mod Process
pub mod Claim
pub mod Delay
pub mod Writes
pub mod Retrying
pub mod Paths
pub mod Whole
pub mod Sends
pub mod Guards
pub mod Once
pub mod Exhausted
pub mod Counts
pub mod Exclusive
pub mod PipelineOptions
mod Tests
