-- ===== src/Booking.antt =====
-- services/booking: the saga of one rental, from the request to the payment.
pub mod Domain
pub mod Model
pub mod ListingClient
pub mod Repository
pub mod Service
pub mod Settle
pub mod Create
pub mod Invariant
pub mod Machine
pub mod Consumers
pub mod Routes
