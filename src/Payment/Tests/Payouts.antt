-- ===== src/Payment/Tests/Payouts.antt =====
-- The theorems on payouts and on the codes of the provider, at the small database.
use fiam_retail_apis.Payment.Entities.{TransactionStatus, PaymentProviderKey, Transaction, naira}
use fiam_retail_apis.Payment.TransferCodes.Refunds.{resolve_vfd_outcome-refunds}
use fiam_retail_apis.Payment.Overall.{payment_ends-IsBalanced}
use fiam_retail_apis.Payment.Tests.{
  answer, bank, db, db-IsBalanced, db-IsFresh, funded, holding, in_flight, outside, request,
}
use fiam_retail_apis.Payment.Addresses.{ProviderAccount}
use fiam_retail_apis.Common.{
  pad_start, ◌≤◌, false, ◌+◌, String, ◌≡◌, none, some, [], ◌∷◌, refl, true, arith,
}
use fiam_retail_apis.Payment.Wallets.{
  find_by_user_and_currency, find_active_for_wallet, debit_for_update,
}
use fiam_retail_apis.Payment.Beneficiaries.{find_owned_by_id, same_recipient, upsert}
use fiam_retail_apis.Payment.Payouts.Charges.{
  assert_within_transfer_limit, check_caps, assert_within_caps, assert_within_daily, charges_after,
  charges_of, exceeds, outflow_of, outflow_since, over_cap, uses_free_payout, start_of_lagos_day,
  free_payouts_enabled, payout_charges,
}
use fiam_retail_apis.Payment.Payouts.Initiate.{
  save_beneficiary, reserve, bank_name_of, generate_from, payout_row, recipient_of,
  reserve_in_transaction, generate_reference, Reservation, initiate_payout,
}
use fiam_retail_apis.Payment.Payouts.Settle.{
  settle_transfer, apply_transfer_result, sync_payout_status, requery_transaction,
}
use fiam_retail_apis.Payment.Fees.{stamp_duty, calculate_transfer_fee, with_vat}
use fiam_retail_apis.Payment.Store.{
  transaction, ◌>>=◌, find_wallet, set_balance, find_transaction, insert_transaction,
  update_transaction, update_with_external, notify, enqueue, ok, Db,
}
use fiam_retail_apis.Payment.Payouts.References.{payout_charges-total, most, IsUnused}
use fiam_retail_apis.Payment.Books.{
  reserve-caps, generate_reference-IsUnused, sync_payout_status-wallets,
  apply_transfer_result-wallets, initiate_payout-IsBalanced,
}
use fiam_retail_apis.Payment.TransferCodes.{
  reverse, category_failed, classify_vfd_transaction_status, classify_vfd_transfer_response, entry,
  resolve_vfd_outcome,
}
use fiam_retail_apis.Payment.Payouts.ReversalOnce.{refund_once}
use fiam_retail_apis.Payment.Provider.{requery, hold, TransferResult, failed}
use fiam_retail_apis.Payment.Payouts.Reversal.{
  refund, reversal_row, reverse_failed_bill, reverse_failed_payout,
}
use fiam_retail_apis.Payment.Payouts.Limits.{daily_of, IsWithinDaily, IsWithinLimit}
use fiam_retail_apis.Payment.Payouts.Requery.{is_failure}
use fiam_retail_apis.Payment.Ledger.{balance_of, Ends, IsBalanced}

initiate_payout-IsBalanced_example : IsBalanced 1 (initiate_payout outside 7 request db).1
initiate_payout-IsBalanced_example =
    initiate_payout-IsBalanced 1 outside 7 request db db-IsBalanced db-IsFresh

payment_ends-IsBalanced_example :
    (IsBalanced 1 (sync_payout_status (bank failed) 2 db).1
      × IsBalanced 1 (requery_transaction (bank failed) 2 db).1)
    × (IsBalanced 1 (reverse_failed_payout 2 db).1 × IsBalanced 1 (reverse_failed_bill 2 db).1)
payment_ends-IsBalanced_example =
    payment_ends-IsBalanced 1 2 in_flight (bank failed) db refl refl db-IsBalanced

abbrev settled : Transaction
settled = record in_flight { status = TransactionStatus.failed }

abbrev reversal : Transaction
reversal = reversal_row in_flight "Reversal" none (naira 1000) 1700000000000 9

abbrev reversed_db : Db
reversed_db = holding (funded ∷ settled ∷ reversal ∷ []) (naira 1000)

refund_once_example :
    Ends {A = Transaction}
      (λ _ _. ⊥)
      (λ after. after ≡ reversed_db)
      (transaction (refund in_flight "Reversal" none) reversed_db)
unfolding reversal_row
refund_once_example = refund_once in_flight "Reversal" none reversed_db refl

apply_transfer_result-wallets_example :
    (apply_transfer_result in_flight (answer hold) db).1.wallets ≡ db.wallets
apply_transfer_result-wallets_example =
    apply_transfer_result-wallets in_flight (answer hold) db refl

held :
    (reference : String) (r : TransferResult)
    → (bank hold).query_transfer_status reference ≡ ok r
    → is_failure r.outcome ≡ false
held reference r e = cc e

sync_payout_status-wallets_example : (sync_payout_status (bank hold) 2 db).1.wallets ≡ db.wallets
sync_payout_status-wallets_example = sync_payout_status-wallets (bank hold) 2 db held

abbrev reservation : Reservation
reservation = record {
  provider_key = PaymentProviderKey.vfd;
  wallet = 1;
  account = "1000000001";
  amount = naira 100;
  reference = "Fiam-2";
  beneficiary = 5;
  narration = none;
  limit = some (record { amount = naira 500; since = 0; until = 1800000000000 });
  caps = some (record { per_transfer = some (naira 200); daily = some (naira 400) });
  enforce = true;
}

reserve-caps_example :
    Ends
      (λ _ after.
        IsWithinLimit 1 reservation.limit after
        × IsWithinDaily 1 (daily_of true reservation.caps) after)
      (λ _. Unit)
      (reserve reservation db)
reserve-caps_example = reserve-caps reservation db (omega arith)

generate_reference-IsUnused_example :
    Ends (IsUnused outside) (λ _. Unit) (generate_reference outside db)
generate_reference-IsUnused_example = generate_reference-IsUnused outside db

resolve_vfd_outcome-refunds_example :
    (is_failure (resolve_vfd_outcome (entry category_failed reverse true)) ≡ false)
    × ((resolve_vfd_outcome (classify_vfd_transfer_response (some "17")) ≡ requery)
        × (resolve_vfd_outcome (classify_vfd_transaction_status (some "108")) ≡ requery))
resolve_vfd_outcome-refunds_example =
    resolve_vfd_outcome-refunds (entry category_failed reverse true) (some "17") (some "108") refl
      refl

abbrev new_account : ProviderAccount
new_account = record { provider = PaymentProviderKey.vfd; account_number = "1000000002" }

payout_charges-total_example :
    let c = payout_charges (some 1) (naira 20000) db in
    (c.total ≡ c.fee + c.vat + c.stamp_duty)
    × ((c.total ≤ most) × (c.stamp_duty ≡ stamp_duty (naira 20000)))
payout_charges-total_example = payout_charges-total (some 1) (naira 20000) db

-- The payout of the request succeeds: ₦100 and no charge, since the day's first payouts are free.
initiate_payout_runs : balance_of 1 (initiate_payout outside 7 request db).1.wallets ≡ naira 590
unfolding initiate_payout ◌>>=◌ find_by_user_and_currency find_active_for_wallet save_beneficiary
    upsert generate_reference reserve debit_for_update find_wallet set_balance payout_charges
    start_of_lagos_day calculate_transfer_fee with_vat stamp_duty assert_within_transfer_limit
    check_caps pad_start find_owned_by_id same_recipient assert_within_caps assert_within_daily
    charges_after charges_of exceeds free_payouts_enabled outflow_of outflow_since over_cap
    uses_free_payout bank_name_of generate_from payout_row recipient_of reserve_in_transaction
    apply_transfer_result settle_transfer enqueue find_transaction insert_transaction notify
    update_transaction update_with_external
initiate_payout_runs = refl
