-- ===== src/Payment/Tests.antt =====
-- A small database: one customer's wallet, a payout in flight and deposits; and what the service
-- reads outside it.
pub mod Payouts
pub mod Credits
use fiam_retail_apis.Common.{
  if◌then◌else◌, ◌≤◌, ◌+◌, String, Option, ◌≡◌, ℕ, List, none, some, [], ◌∷◌, refl, true, arith,
}
use fiam_retail_apis.Payment.Entities.{
  is_debit, TransactionKind, CurrencyCode, TransactionStatus, PaymentProviderKey, TransactionType,
  Transaction, naira,
}
use fiam_retail_apis.Payment.Payouts.Initiate.{Outside, InitiatePayoutDto}
use fiam_retail_apis.Payment.Fees.{stamp_duty}
use fiam_retail_apis.Payment.Store.{◌>>=◌, ok, Db}
use fiam_retail_apis.Payment.Provider.{TransferResult, TransferOutcome, successful, Provider}
use fiam_retail_apis.Payment.Ledger.{received_of, spent_of, received, spent, IsFresh, IsBalanced}
use fiam_retail_apis.Common.Int.{pos}

abbrev pub row : ℕ → TransactionType → TransactionStatus → ℕ → Option ℕ → String → Transaction
row id type status amount fee reference = record {
  id = id;
  wallet_id = some 1;
  currency = CurrencyCode.ngn;
  type = type;
  kind = if is_debit type then TransactionKind.payout else TransactionKind.deposit;
  bill_type = none;
  status = status;
  provider = PaymentProviderKey.vfd;
  account_number = "1000000001";
  amount = amount;
  fee = fee;
  fee_vat = none;
  stamp_duty = none;
  beneficiary_id = none;
  balance_after = none;
  reference = reference;
  external_id = none;
  provider_status_code = none;
  bill = none;
  narration = none;
  occurred_at = none;
  verified_at = none;
  raw_payload = none;
  created_at = 1700000000000;
}

abbrev pub funded : Transaction
funded = row 1 TransactionType.credit TransactionStatus.successful (naira 1000) none "VFD-1"

abbrev pub in_flight : Transaction
in_flight =
    row 2 TransactionType.debit TransactionStatus.processing (naira 300) (some (naira 10)) "Fiam-1"

abbrev pub incoming : Transaction
incoming = row 3 TransactionType.credit TransactionStatus.pending (naira 50) none "VFD-2"

abbrev pub unmatched : Transaction
unmatched =
    record (row 4 TransactionType.credit TransactionStatus.unmatched (naira 70) none "VFD-3") {
      wallet_id = none;
    }

abbrev pub holding : List Transaction → ℕ → Db
holding rows balance = record {
  wallets = record { id = 1; user_id = 7; currency = CurrencyCode.ngn; balance = balance } ∷ [];
  addresses =
      record {
        id = 1;
        wallet_id = 1;
        provider = PaymentProviderKey.vfd;
        provider_account_number = "1000000001";
        active = true;
      }
      ∷ [];
  beneficiaries = [];
  bill_beneficiaries = [];
  webhook_events = [];
  transactions = rows;
  free_payouts = none;
  jobs = [];
  notices = [];
  next_id = 10;
  now = 1700000000000;
}

abbrev pub db : Db
db = holding (funded ∷ in_flight ∷ incoming ∷ unmatched ∷ []) (naira 690)

abbrev pub answer : TransferOutcome → TransferResult
answer o = record {
  outcome = o;
  external_id = some "S-1";
  provider_status_code = some "00";
  raw_payload = none;
}

abbrev pub bank : TransferOutcome → Provider
bank o = record {
  key = PaymentProviderKey.vfd;
  resolve_transfer_type = λ code. "inter";
  get_account_details = λ number. ok (record {
    account_number = "1";
    client_id = "c";
    client_name = "Fiam";
    account_id = "a";
    balance = none;
  });
  lookup_transfer_recipient = λ number code type.
      ok (record { account_number = number; name = some "Ada"; bank_name = none });
  initiate_transfer = λ input. ok (answer o);
  query_transfer_status = λ reference. ok (answer o);
}

abbrev pub outside : Outside
outside = record {
  assert_valid = λ user pin. ok (record { transfer_limit = none; caps = none });
  provider = bank successful;
  list_banks = ok [];
  random_int = λ attempt. attempt;
  wallet_name = "Fiam-";
  enforce_caps = true;
}

abbrev pub request : InitiatePayoutDto
request = record {
  pin = "1234";
  beneficiary_id = none;
  bank_code = some "058";
  account_number = some "0123456789";
  amount = pos (naira 100);
  narration = none;
}

pub db-IsBalanced : IsBalanced 1 db
unfolding spent received spent_of received_of
db-IsBalanced = refl

pub db-IsFresh : IsFresh db
db-IsFresh id later = ground arith
