-- ===== src/Saga.antt =====
-- The booking and the payment service together: services/booking and services/payment, which exchange
-- messages over the outbox of each and the consumer of the other.
pub mod Statuses
pub mod Payments
pub mod Bookings
pub mod Machine
pub mod Agreement
