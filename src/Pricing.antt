-- ===== src/Pricing.antt =====
-- Suggested fares (backend/internal/pricing): pricing policies, the calculation of a fare and the
-- amounts that a reviewer types.
pub mod Calculate
pub mod Amount
pub mod Tests
pub mod Publication
