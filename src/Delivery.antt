-- ===== src/Delivery.antt =====
-- The delivery module (internal/modules/delivery).
pub mod Status
pub mod Message
pub mod Contracts
pub mod Sending
pub mod Store
pub mod ProviderEvent
pub mod Due
pub mod Fixtures
pub mod Insert
pub mod Listing
pub mod Accept
