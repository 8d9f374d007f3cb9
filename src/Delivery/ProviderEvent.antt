-- ===== src/Delivery/ProviderEvent.antt =====
-- internal/modules/delivery/app/process/provider_event.go: what an event from the mail provider does
-- to the message that it is about.
pub mod Data
pub mod Changes
pub mod Writes
pub mod Handler
pub mod Quiet
pub mod Tail
pub mod Locked
pub mod Status
pub mod Atomic
pub mod Report
pub mod Outbox
mod Tests
