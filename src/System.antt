-- ===== src/System.antt =====
-- The Trips of all Drivers and Riders together: the operations on the table of Trips as steps, in any
-- order, and what holds of every store that they reach.
pub mod Changes
pub mod Steps
pub mod Tests
