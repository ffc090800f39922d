-- ===== src/Payment/Bills/Pay.antt =====
-- `payBill` of apps/payment/src/bills/bills.service.ts.
use fiam_retail_apis.Payment.Store.{
  pure, no_active_account, unknown_item, insert_transaction, or_raise, Result, M, ◌>>=◌, ◌>>◌, gets,
  lift, transaction, wallet_not_found,
}
use fiam_retail_apis.Payment.Bills.Catalogue.{
  calculate_bill_fees, validate_holder, assert_biller_rules, trimmed, amount_of, is_item,
  bill_type_from_category, ProviderBillItem, ProviderBiller, resolve_biller, BillsProvider,
  BillerKey, ProviderBillPayInput,
}
use fiam_retail_apis.Payment.Wallets.{
  find_active_for_wallet, find_by_user_and_currency, debit_for_update,
}
use fiam_retail_apis.Common.{
  slice, find?, Bool, pad_start, ℕ, ◌+◌, String, Option, none, some, List, [], truthy, or_else,
  get_or, join,
}
use fiam_retail_apis.Payment.Entities.{
  TransactionStatus, TransactionKind, TransactionType, CurrencyCode, BillDetails, Transaction,
  PaymentProviderKey,
}
use fiam_retail_apis.Payment.Provider.{TransferCaps, PinGrant}
use fiam_retail_apis.Payment.Payouts.Charges.{check_caps}
use fiam_retail_apis.Payment.Payouts.Initiate.{generate_from}
use fiam_retail_apis.Common.Int.{ℤ}
use fiam_retail_apis.Payment.Bills.Settle.{apply_result}

-- dto/bills.dto.ts
pub record PayBillDto : Type 0 where
  pub pin : String
  pub biller_id : String
  pub division_id : String
  pub product_id : String
  pub payment_item : String
  pub customer_id : String
  pub amount : Option ℤ
  pub phone_number : Option String

-- What the request reads outside the database. `lookup_phone` is CustomerPhoneService, which never
-- throws; `cached_billers` is what Redis holds.
pub record BillsOutside : Type 0 where
  pub assert_valid : ℕ → String → Result PinGrant
  pub bills : BillsProvider
  pub provider_key : PaymentProviderKey
  pub cached_billers : Option (List ProviderBiller)
  pub lookup_phone : ℕ → Option String
  pub random_int : ℕ → ℕ
  pub wallet_name : String
  pub service_fee : ℕ
  pub enforce_caps : Bool

-- `toKey`
abbrev pub key_of : PayBillDto → BillerKey
key_of dto = record { id = dto.biller_id; division = dto.division_id; product = dto.product_id }

-- Ten draws, as for a payout.
unfoldable pub generate_bill_reference : BillsOutside → M String
unfolding generate_from pad_start
generate_bill_reference o =
    generate_from (λ attempt. join o.wallet_name (join "-B" (pad_start 9 (o.random_int attempt))))
      o.provider_key 10 0

-- What the payment of a bill needs, once everything is looked up.
pub record Purchase : Type 0 where
  pub provider_key : PaymentProviderKey
  pub wallet : ℕ
  pub account : String
  pub biller : ProviderBiller
  pub item : ProviderBillItem
  pub customer_id : String
  pub amount : ℕ
  pub fee : ℕ
  pub holder_name : Option String
  pub holder_address : Option String
  pub reference : String
  pub caps : Option TransferCaps
  pub enforce : Bool

abbrev pub bill_of : Purchase → BillDetails
bill_of p = record {
  category = p.biller.category;
  biller_id = p.biller.id;
  biller_name = p.biller.name;
  division = p.biller.division;
  product_id = p.biller.product;
  payment_item = p.item.payment_code;
  payment_item_name = p.item.name;
  customer_id = p.customer_id;
  customer_name = truthy p.holder_name;
  customer_address = truthy p.holder_address;
  token = none;
  extra_tokens = [];
  details = [];
}

-- The DEBIT row of a bill payment.
unfoldable pub bill_row : Purchase → ℕ → ℕ → ℕ → Transaction
bill_row p balance now id = record {
  id = id;
  wallet_id = some p.wallet;
  currency = CurrencyCode.ngn;
  type = TransactionType.debit;
  kind = TransactionKind.bill_payment;
  bill_type = some (bill_type_from_category p.biller.category);
  status = TransactionStatus.processing;
  provider = p.provider_key;
  account_number = p.account;
  amount = p.amount;
  fee = some p.fee;
  fee_vat = none;
  stamp_duty = none;
  beneficiary_id = none;
  balance_after = some balance;
  reference = p.reference;
  external_id = none;
  provider_status_code = none;
  bill = some (bill_of p);
  narration = some (slice 255 (join p.biller.name (join " — " p.item.name)));
  occurred_at = none;
  verified_at = none;
  raw_payload = none;
  created_at = now;
}

-- The database transaction: the money, and then the caps, under the lock of the wallet's row.
unfoldable pub charge_in_transaction : Purchase → M Transaction
unfolding bill_row
charge_in_transaction p = do
  debited ← debit_for_update p.wallet (p.amount + p.fee)
  check_caps p.enforce p.wallet p.amount p.caps
  now ← gets (λ db. db.now)
  insert_transaction (bill_row p debited.balance now)

unfoldable pub charge : Purchase → M Transaction
unfolding charge_in_transaction
charge p = transaction (charge_in_transaction p)

-- The call of the provider: the item's own product and division win over the biller's.
abbrev pub pay_input : Purchase → Option String → ProviderBillPayInput
pay_input p phone = record {
  customer_id = p.customer_id;
  amount = p.amount;
  biller = record {
    id = p.biller.id;
    division = get_or p.item.division p.biller.division;
    product = get_or p.item.product_id p.biller.product;
  };
  payment_item = p.item.payment_code;
  reference = p.reference;
  phone_number = phone;
}

-- The money is taken, then the bill is paid.
unfoldable pub purchase : BillsProvider → Purchase → Option String → M Transaction
unfolding charge
purchase bills p phone = do
  t ← charge p
  result ← lift (bills.pay_bill (pay_input p phone))
  apply_result bills t result

-- Everything up to the payment: what is bought, the amount, the fee and the wallet.
unfoldable pub prepare : BillsOutside → ℕ → PayBillDto → M (Purchase × Option String)
unfolding generate_bill_reference
prepare o user dto = do
  grant ← lift (o.assert_valid user dto.pin)
  biller ← resolve_biller o.cached_billers o.bills (key_of dto)
  items ← lift (o.bills.list_bill_items (key_of dto))
  item ← or_raise (find? (is_item dto.payment_item) items) unknown_item
  amount ← amount_of item dto.amount
  let phone = or_else (trimmed dto.phone_number) (o.lookup_phone user)
  assert_biller_rules biller item amount phone
  (name, address) ← validate_holder o.bills biller dto.customer_id (key_of dto) dto.payment_item
  found ← find_by_user_and_currency user CurrencyCode.ngn
  wallet ← or_raise found wallet_not_found
  active ← find_active_for_wallet wallet.id
  account ← or_raise active no_active_account
  reference ← generate_bill_reference o
  pure (
    record {
      provider_key = o.provider_key;
      wallet = wallet.id;
      account = account.provider_account_number;
      biller = biller;
      item = item;
      customer_id = dto.customer_id;
      amount = amount;
      fee = (calculate_bill_fees biller o.service_fee).total;
      holder_name = name;
      holder_address = address;
      reference = reference;
      caps = grant.caps;
      enforce = o.enforce_caps;
    },
    phone,
  )

unfoldable pub pay_bill : BillsOutside → ℕ → PayBillDto → M Transaction
unfolding prepare purchase
pay_bill o user dto = do (p, phone) ← prepare o user dto; purchase o.bills p phone
