-- ===== src/Payment.antt =====
-- services/payment: the hold, the capture and the ledger of each booking's payment.
pub mod Model
pub mod Service
pub mod Ledger
pub mod Machine
pub mod Routes
pub mod Consumers
