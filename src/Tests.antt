-- ===== src/Tests.antt =====
-- Concrete runs of the services: each theorem of the development at an input where its conditions hold.
pub mod Bookings
pub mod Requests
pub mod Payments
pub mod Endpoints
pub mod Notices
pub mod Rental
pub mod Vehicles
pub mod Searches
pub mod Accounts
pub mod Switches
pub mod Queries
pub mod Listings
