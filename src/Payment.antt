-- ===== src/Payment.antt =====
-- The payment service (apps/payment): wallets, transactions, payouts, bills, deposits, webhooks,
-- postings.
pub mod Entities
pub mod Store
pub mod Wallets
pub mod Addresses
pub mod Fees
pub mod Provider
pub mod Beneficiaries
pub mod Ledger
pub mod Runs
pub mod Payouts
pub mod Deposits
pub mod Webhooks
pub mod Bills
pub mod Internal
pub mod TransferCodes
pub mod Books
pub mod Overall
pub mod Tests
