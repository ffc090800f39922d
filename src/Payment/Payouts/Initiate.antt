-- ===== src/Payment/Payouts/Initiate.antt =====
-- `initiatePayout` of apps/payment/src/payouts/payouts.service.ts.
use fiam_retail_apis.Common.{
  ℕ, zero, suc, String, Bool, Option, none, some, List, if◌then◌else◌, get_or, truthy, join,
  pad_start, text_eq, find?, any,
}
use fiam_retail_apis.Common.Int.{ℤ, positive}
use fiam_retail_apis.Payment.Entities.{
  CurrencyCode, TransactionType, TransactionKind, TransactionStatus, PaymentProviderKey,
  Transaction, Beneficiary,
}
use fiam_retail_apis.Payment.Store.{
  M, Result, ◌>>=◌, ◌>>◌, pure, raise, gets, lift, or_raise, transaction, wallet_not_found,
  recipient_required, amount_not_positive, no_active_account, no_unique_reference, same_reference,
  insert_transaction,
}
use fiam_retail_apis.Payment.Wallets.{
  find_by_user_and_currency, find_active_for_wallet, debit_for_update,
}
use fiam_retail_apis.Payment.Beneficiaries.{find_owned_by_id, upsert}
use fiam_retail_apis.Payment.Provider.{
  TransferRecipient, Provider, TransferLimit, TransferCaps, PinGrant,
}
use fiam_retail_apis.Payment.Payouts.Charges.{
  Charges, payout_charges, assert_within_transfer_limit, check_caps,
}
use fiam_retail_apis.Payment.Payouts.Settle.{apply_transfer_result}

-- The request's body.
pub record InitiatePayoutDto : Type 0 where
  pub pin : String
  pub beneficiary_id : Option ℕ
  pub bank_code : Option String
  pub account_number : Option String
  pub amount : ℤ
  pub narration : Option String

pub record Bank : Type 0 where
  pub code : String
  pub name : String

-- What the request reads outside the database: auth's PIN check, the provider, the list of banks,
-- random draws and the configuration.
pub record Outside : Type 0 where
  pub assert_valid : ℕ → String → Result PinGrant
  pub provider : Provider
  pub list_banks : Result (List Bank)
  pub random_int : ℕ → ℕ
  pub wallet_name : String
  pub enforce_caps : Bool

-- The draws left and the number of the attempt: a clash with an existing reference is retried.
unfoldable pub generate_from : (ℕ → String) → PaymentProviderKey → ℕ → ℕ → M String
generate_from name provider zero attempt = raise no_unique_reference
generate_from name provider (suc left) attempt =
    let reference = name attempt in
    let rest = generate_from name provider left (suc attempt) in
    do
      taken ← gets (λ db. any (same_reference provider reference) db.transactions)
      if taken then rest else pure reference

unfoldable pub generate_reference : Outside → M String
unfolding generate_from pad_start
generate_reference o =
    generate_from (λ attempt. join o.wallet_name (pad_start 9 (o.random_int attempt)))
      o.provider.key 10 0

unfoldable pub bank_name_of : List Bank → String → TransferRecipient → Option String
bank_name_of banks code recipient = elim (find? (λ (b : Bank). text_eq b.code code) banks) [
  | some bank ↦ some bank.name
  | none ↦ recipient.bank_name
]

unfoldable pub save_beneficiary : Outside → ℕ → String → TransferRecipient → M Beneficiary
unfolding bank_name_of
save_beneficiary o user bank_code recipient = do
  banks ← lift o.list_banks
  upsert (record {
    user_id = user;
    currency = CurrencyCode.ngn;
    provider = o.provider.key;
    bank_code = bank_code;
    bank_name = bank_name_of banks bank_code recipient;
    account_number = recipient.account_number;
    account_name = recipient.name;
  })

-- The DEBIT row of a payout.
unfoldable pub payout_row :
    PaymentProviderKey
    → ℕ
    → String
    → ℕ
    → Charges
    → ℕ
    → String
    → ℕ
    → Option String
    → ℕ
    → ℕ
    → Transaction
payout_row key wallet account amount charges balance reference beneficiary narration now id =
    record {
      id = id;
      wallet_id = some wallet;
      currency = CurrencyCode.ngn;
      type = TransactionType.debit;
      kind = TransactionKind.payout;
      bill_type = none;
      status = TransactionStatus.processing;
      provider = key;
      account_number = account;
      amount = amount;
      fee = some charges.total;
      fee_vat = some charges.vat;
      stamp_duty = some charges.stamp_duty;
      beneficiary_id = some beneficiary;
      balance_after = some balance;
      reference = reference;
      external_id = none;
      provider_status_code = none;
      bill = none;
      narration = narration;
      occurred_at = none;
      verified_at = none;
      raw_payload = none;
      created_at = now;
    }

-- What the reservation of a payout needs.
pub record Reservation : Type 0 where
  pub provider_key : PaymentProviderKey
  pub wallet : ℕ
  pub account : String
  pub amount : ℕ
  pub reference : String
  pub beneficiary : ℕ
  pub narration : Option String
  pub limit : Option TransferLimit
  pub caps : Option TransferCaps
  pub enforce : Bool

-- The database transaction that takes the money: the amount, the charges, then the caps.
unfoldable pub reserve_in_transaction : Reservation → M Transaction
unfolding payout_row
reserve_in_transaction r = do
  debit_for_update r.wallet r.amount
  charges ← gets (payout_charges (some r.wallet) r.amount)
  debited ← debit_for_update r.wallet charges.total
  assert_within_transfer_limit r.wallet r.amount r.limit
  check_caps r.enforce r.wallet r.amount r.caps
  now ← gets (λ db. db.now)
  insert_transaction (
      payout_row r.provider_key r.wallet r.account r.amount charges debited.balance r.reference
        r.beneficiary r.narration now)

unfoldable pub reserve : Reservation → M Transaction
unfolding reserve_in_transaction
reserve r = transaction (reserve_in_transaction r)

-- The recipient: a saved one, or the bank code and the account number of the body.
unfoldable pub recipient_of : ℕ → InitiatePayoutDto → M (String × String)
recipient_of user dto = elim dto.beneficiary_id [
  | some id ↦ do
    b ← find_owned_by_id user id
    bank_code ← or_raise (truthy (some b.bank_code)) recipient_required
    account_number ← or_raise (truthy (some b.account_number)) recipient_required
    pure (bank_code, account_number)
  | none ↦ do
    bank_code ← or_raise (truthy dto.bank_code) recipient_required
    account_number ← or_raise (truthy dto.account_number) recipient_required
    pure (bank_code, account_number)
]

unfoldable pub initiate_payout : Outside → ℕ → InitiatePayoutDto → M Transaction
unfolding recipient_of
initiate_payout o user dto = do
  grant ← lift (o.assert_valid user dto.pin)
  (bank_code, account_number) ← recipient_of user dto
  amount ← or_raise (positive dto.amount) amount_not_positive
  found ← find_by_user_and_currency user CurrencyCode.ngn
  wallet ← or_raise found wallet_not_found
  active ← find_active_for_wallet wallet.id
  address ← or_raise active no_active_account
  let transfer_type = o.provider.resolve_transfer_type bank_code
  from ← lift (o.provider.get_account_details none)
  sender ← lift (o.provider.get_account_details (some address.provider_account_number))
  to ← lift (o.provider.lookup_transfer_recipient account_number bank_code transfer_type)
  beneficiary ← save_beneficiary o user bank_code to
  reference ← generate_reference o
  t ← reserve (record {
    provider_key = o.provider.key;
    wallet = wallet.id;
    account = address.provider_account_number;
    amount = amount;
    reference = reference;
    beneficiary = beneficiary.id;
    narration = dto.narration;
    limit = grant.transfer_limit;
    caps = grant.caps;
    enforce = o.enforce_caps;
  })
  result ← lift (
      o.provider.initiate_transfer (record {
        from = from;
        sender_account_id = truthy (some sender.account_id);
        to = to;
        bank_code = bank_code;
        transfer_type = transfer_type;
        amount = amount;
        reference = reference;
        narration = get_or dto.narration "Payout";
      }))
  apply_transfer_result t result
