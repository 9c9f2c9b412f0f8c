-- ===== src/Views.antt =====
-- What Riders and Drivers read about a ride and its Trip.
pub mod RideStatus
pub mod DriverTrip
pub mod RiderLocation
pub mod Current
pub mod Ended
pub mod Active
pub mod Tests
