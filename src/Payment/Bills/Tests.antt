-- ===== src/Payment/Bills/Tests.antt =====
-- The theorems on bills at one wallet: an electricity bill that is paid, and one that is in flight.
use fiam_retail_apis.Payment.Books.{run_bill_job-IsBalanced, pay_bill-IsBalanced}
use fiam_retail_apis.Payment.Entities.{
  BillType, PaymentProviderKey, TransactionStatus, TransactionType, naira, BillDetails, Transaction,
}
use fiam_retail_apis.Payment.Ledger.{
  received_of, spent_of, received, spent, IsFresh, Ends, IsBalanced,
}
use fiam_retail_apis.Payment.Store.{JobKind, ok, Db}
use fiam_retail_apis.Payment.Bills.Price.{prepare-IsPriced, IsPriced}
use fiam_retail_apis.Payment.Bills.Receipts.{fetch_token-Ends, FetchEnds}
use fiam_retail_apis.Payment.Bills.Catalogue.{
  bill_failed, bill_successful, ProviderBillResult, BillsProvider, BillOutcome, ProviderBillItem,
  ProviderBiller,
}
use fiam_retail_apis.Payment.Bills.Pay.{prepare, pay_bill, PayBillDto, BillsOutside}
use fiam_retail_apis.Payment.Bills.Settle.{fetch_token_and_send_receipt, run_bill_job}
use fiam_retail_apis.Common.Int.{pos}
use fiam_retail_apis.Payment.Tests.{holding, row, funded}
use fiam_retail_apis.Common.{String, Option, ◌≡◌, refl, none, some, [], ◌∷◌, true, false, arith}

abbrev ikeja : ProviderBiller
ikeja = record {
  id = "IKEDC";
  name = "Ikeja Electric";
  division = "A";
  product = "7";
  category = "Utility";
  convenience_fee = some (naira 100);
}

abbrev prepaid : ProviderBillItem
prepaid = record {
  payment_code = "PRE";
  name = "Prepaid";
  amount = none;
  is_amount_fixed = false;
  product_id = none;
  division = some "B";
}

abbrev answer : BillOutcome → Option String → ProviderBillResult
answer outcome token = record {
  outcome = outcome;
  provider_status_code = some "00";
  token = token;
  extra_tokens = [];
  details = [];
  raw_payload = none;
}

abbrev vendor : BillOutcome → BillsProvider
vendor o = record {
  list_billers = λ category. ok (ikeja ∷ []);
  list_bill_items = λ key. ok (prepaid ∷ []);
  validate_bill_customer = λ customer key item.
      ok (record { valid = true; name = some "Ada"; address = none; details = [] });
  pay_bill = λ input. ok (answer o none);
  query_bill_status = λ reference. ok (answer o (some "1234"));
}

abbrev outside : BillsOutside
outside = record {
  assert_valid = λ user pin. ok (record { transfer_limit = none; caps = none });
  bills = vendor bill_successful;
  provider_key = PaymentProviderKey.vfd;
  cached_billers = none;
  lookup_phone = λ user. some "08030000000";
  random_int = λ attempt. attempt;
  wallet_name = "Fiam";
  service_fee = naira 50;
  enforce_caps = true;
}

abbrev request : PayBillDto
request = record {
  pin = "1234";
  biller_id = "IKEDC";
  division_id = "A";
  product_id = "7";
  payment_item = "PRE";
  customer_id = "54100";
  amount = some (pos (naira 200));
  phone_number = none;
}

abbrev meter : BillDetails
meter = record {
  category = "Utility";
  biller_id = "IKEDC";
  biller_name = "Ikeja Electric";
  division = "A";
  product_id = "7";
  payment_item = "PRE";
  payment_item_name = "Prepaid";
  customer_id = "54100";
  customer_name = none;
  customer_address = none;
  token = none;
  extra_tokens = [];
  details = [];
}

abbrev in_flight : Transaction
in_flight =
    record (row 2 TransactionType.debit TransactionStatus.processing (naira 200) (some (naira 10))
      "Fiam-B1") { bill = some meter; bill_type = some BillType.utility }

abbrev db : Db
db = holding (funded ∷ in_flight ∷ []) (naira 790)

db-IsBalanced : IsBalanced 1 db
unfolding spent received spent_of received_of
db-IsBalanced = refl

db-IsFresh : IsFresh db
db-IsFresh id later = ground arith

pay_bill-IsBalanced_example : IsBalanced 1 (pay_bill outside 7 request db).1
pay_bill-IsBalanced_example = pay_bill-IsBalanced 1 outside 7 request db db-IsBalanced db-IsFresh

run_bill_job-IsBalanced_example :
    IsBalanced 1 (run_bill_job (vendor bill_failed) JobKind.bill_status_query 2 db).1
run_bill_job-IsBalanced_example =
    run_bill_job-IsBalanced 1 2 in_flight (vendor bill_failed) JobKind.bill_status_query db refl
      refl db-IsBalanced

prepare-IsPriced_example :
    Ends
      (λ p d. (d ≡ db) × IsPriced outside request p.0)
      (λ d. d ≡ db)
      (prepare outside 7 request db)
prepare-IsPriced_example = prepare-IsPriced outside 7 request db

fetch_token-Ends_example :
    Ends (FetchEnds 2 db) (λ d. d ≡ db) (fetch_token_and_send_receipt (vendor bill_successful) 2 db)
fetch_token-Ends_example = fetch_token-Ends 2 (vendor bill_successful) db
