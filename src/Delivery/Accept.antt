-- ===== src/Delivery/Accept.antt =====
-- internal/modules/delivery/app/send/accept.go: the acceptance of a transactional send request.
pub mod Data
pub mod Validate
pub mod Rows
pub mod Idempotency
pub mod Write
pub mod Handler
pub mod Quiet
pub mod Settled
pub mod Whole
pub mod Recipients
pub mod Bounds
pub mod Accepts
pub mod Refused
pub mod Unaccepted
pub mod Tests
