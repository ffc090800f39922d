-- ===== src/Payment/Payouts.antt =====
-- apps/payment/src/payouts/payouts.service.ts.
pub mod Charges
pub mod Reversal
pub mod Settle
pub mod Books
pub mod SettleBooks
pub mod Initiate
pub mod InitiateBooks
pub mod Limits
pub mod ReversalOnce
pub mod Requery
pub mod References
