-- ===== src/Payment/Bills.antt =====
-- Bill payments (apps/payment/src/bills): what is bought and for how much, the payment, and what
-- becomes of it. The bills provider and the cache of its catalogue are parameters.
pub mod Catalogue
pub mod Recipients
pub mod Settle
pub mod Pay
pub mod SettleBooks
pub mod PayBooks
pub mod Price
pub mod Receipts
pub mod Tests
