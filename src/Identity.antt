-- ===== src/Identity.antt =====
-- The identity module (internal/modules/identity): the permissions of roles.
pub mod Access
pub mod Masks
pub mod RoundTrip
pub mod Tests
