-- ===== src/Marketplace.antt =====
-- The marketplace (backend/internal/marketplace): deadlines, the Rider's selection of an offer, and
-- the timing policy.
pub mod Tests
pub mod Expiry
pub mod Timing
pub mod Assignment
