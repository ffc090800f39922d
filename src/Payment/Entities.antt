-- ===== src/Payment/Entities.antt =====
-- The rows of the payment database: apps/payment/src/wallets/entities,
-- apps/payment/src/transactions/entities/transaction.entity.ts and the saved recipients.
-- An amount of naira is a natural number of 1/10000 naira, the scale of the numeric(15, 4)
-- columns; a timestamp is a number of milliseconds; a UUID is a number; a jsonb payload is a text.
use fiam_retail_apis.Common.{ℕ, ◌*◌, String, Bool, true, false, Option, List, ◌==◌}

pub data CurrencyCode : Type 0 where
  ngn : CurrencyCode

abbrev pub currency_eq : CurrencyCode → CurrencyCode → Bool
currency_eq ngn ngn = true

pub data PaymentProviderKey : Type 0 where
  vfd manual : PaymentProviderKey

abbrev pub provider_code : PaymentProviderKey → ℕ
provider_code PaymentProviderKey.vfd = 0
provider_code PaymentProviderKey.manual = 1

abbrev pub provider_eq : PaymentProviderKey → PaymentProviderKey → Bool
provider_eq p q = provider_code p == provider_code q

pub data TransactionType : Type 0 where
  credit debit : TransactionType

abbrev pub is_debit : TransactionType → Bool
is_debit TransactionType.credit = false
is_debit TransactionType.debit = true

pub data TransactionKind : Type 0 where
  deposit payout bill_payment reversal adjustment : TransactionKind

abbrev pub is_payout : TransactionKind → Bool
is_payout TransactionKind.payout = true
is_payout _ = false

pub data BillType : Type 0 where
  airtime mobile_data cable_tv utility internet betting other : BillType

pub data TransactionStatus : Type 0 where
  pending processing successful failed unmatched : TransactionStatus

-- `status === SUCCESSFUL || status === FAILED`
abbrev pub is_final : TransactionStatus → Bool
is_final TransactionStatus.successful = true
is_final TransactionStatus.failed = true
is_final _ = false

abbrev pub is_successful : TransactionStatus → Bool
is_successful TransactionStatus.successful = true
is_successful _ = false

abbrev pub is_failed : TransactionStatus → Bool
is_failed TransactionStatus.failed = true
is_failed _ = false

abbrev pub is_unmatched : TransactionStatus → Bool
is_unmatched TransactionStatus.unmatched = true
is_unmatched _ = false

-- `status IN ('PENDING', 'PROCESSING', 'SUCCESSFUL')`
abbrev pub is_outgoing : TransactionStatus → Bool
is_outgoing TransactionStatus.pending = true
is_outgoing TransactionStatus.processing = true
is_outgoing TransactionStatus.successful = true
is_outgoing _ = false

-- A line of a receipt, `{ label, value }`.
pub record Labelled : Type 0 where
  pub label : String
  pub value : String

pub record BillDetails : Type 0 where
  pub category : String
  pub biller_id : String
  pub biller_name : String
  pub division : String
  pub product_id : String
  pub payment_item : String
  pub payment_item_name : String
  pub customer_id : String
  pub customer_name : Option String
  pub customer_address : Option String
  pub token : Option String
  pub extra_tokens : List Labelled
  pub details : List Labelled

pub record Wallet : Type 0 where
  pub id : ℕ
  pub user_id : ℕ
  pub currency : CurrencyCode
  pub balance : ℕ

pub record Address : Type 0 where
  pub id : ℕ
  pub wallet_id : ℕ
  pub provider : PaymentProviderKey
  pub provider_account_number : String
  -- `status === ACTIVE`
  pub active : Bool

pub record Transaction : Type 0 where
  pub id : ℕ
  pub wallet_id : Option ℕ
  pub currency : CurrencyCode
  pub type : TransactionType
  pub kind : TransactionKind
  pub bill_type : Option BillType
  pub status : TransactionStatus
  pub provider : PaymentProviderKey
  pub account_number : String
  pub amount : ℕ
  pub fee : Option ℕ
  pub fee_vat : Option ℕ
  pub stamp_duty : Option ℕ
  pub beneficiary_id : Option ℕ
  pub balance_after : Option ℕ
  pub reference : String
  pub external_id : Option String
  pub provider_status_code : Option String
  pub bill : Option BillDetails
  pub narration : Option String
  pub occurred_at : Option ℕ
  pub verified_at : Option ℕ
  pub raw_payload : Option String
  pub created_at : ℕ

-- A saved recipient (apps/payment/src/beneficiaries/entities/beneficiary.entity.ts).
pub record Beneficiary : Type 0 where
  pub id : ℕ
  pub user_id : ℕ
  pub currency : CurrencyCode
  pub provider : PaymentProviderKey
  pub bank_code : String
  pub bank_name : Option String
  pub account_number : String
  pub account_name : Option String
  pub updated_at : ℕ

-- A number, meter or smartcard that a user has paid for
-- (apps/payment/src/bills/entities/bill-beneficiary.entity.ts).
pub record BillBeneficiary : Type 0 where
  pub id : ℕ
  pub user_id : ℕ
  pub bill_type : BillType
  pub biller_id : String
  pub biller_name : String
  pub division : String
  pub product_id : String
  pub customer_id : String
  pub nickname : Option String
  pub last_payment_item : String
  pub last_payment_item_name : String
  pub last_amount : ℕ
  pub pay_count : ℕ
  pub last_paid_at : ℕ
  pub dismissed : Bool
  pub updated_at : ℕ

-- Why a delivery was not verified.
pub data VerificationNote : Type 0 where
  inconclusive not_confirmed mismatch : VerificationNote

-- A delivery of a webhook (apps/payment/src/webhooks/entities/webhook-event.entity.ts), all of them
-- inward credits of VFD.
pub record WebhookEvent : Type 0 where
  pub id : ℕ
  pub reference : String
  pub payload : String
  pub verified : Bool
  pub verified_at : Option ℕ
  pub verification_note : Option VerificationNote
  pub tsq_payload : Option String

-- An amount in whole naira.
abbrev pub naira : ℕ → ℕ
naira n = n * 10000
