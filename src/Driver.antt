-- ===== src/Driver.antt =====
-- Driver operations (backend/internal/driver): eligibility, presence, the operating selection and
-- going online.
pub mod Eligibility
pub mod Presence
pub mod Vehicles
pub mod Location
pub mod Tests
