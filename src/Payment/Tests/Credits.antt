-- ===== src/Payment/Tests/Credits.antt =====
-- The theorems on deposits, postings and webhooks, at the small database.
use fiam_retail_apis.Payment.Store.{
  notify, pure, insert_transaction, set_balance, find_wallet, ◌>>=◌, ok, Db,
}
use fiam_retail_apis.Payment.Tests.{unmatched, db, db-IsBalanced, incoming}
use fiam_retail_apis.Payment.Wallets.{find_active_for_wallet, debit_for_update}
use fiam_retail_apis.Payment.Internal.{
  move, replay_or_raise, announce_posting, post_in_transaction, PostingView, find_existing,
  post_new, view, AssignUnmatchedDto, CreatePostingDto, assign, post, posting_row,
}
use fiam_retail_apis.Common.{
  false, [], ◌++◌, ◌+◌, text_eq, if◌then◌else◌, ◌≡◌, none, some, ◌∷◌, refl, true,
}
use fiam_retail_apis.Payment.Internal.Reassign.{assign_twice}
use fiam_retail_apis.Payment.Internal.Twice.{post_twice}
use fiam_retail_apis.Payment.Store.{
  transaction, find_transaction, update_transaction, raise_if, or_raise,
}
use fiam_retail_apis.Payment.Wallets.{credit_for_update}
use fiam_retail_apis.Payment.Internal.{
  assign_in_transaction, assign_row, announce_assignment, mark_assigned, AssignResult,
}
use fiam_retail_apis.Payment.Webhooks.{
  new_event, mark_verified, payin as deposit_of, handle_vfd_inward_credit, TsqData, WebhookOutside,
  VfdInwardCreditWebhookDto,
}
use fiam_retail_apis.Payment.Overall.{credits-IsBalanced}
use fiam_retail_apis.Payment.Webhooks.Recorded.{handle-recorded}
use fiam_retail_apis.Payment.Entities.{
  WebhookEvent, CurrencyCode, PaymentProviderKey, TransactionType, Transaction, naira,
}
use fiam_retail_apis.Payment.Provider.{TransferResult, successful}
use fiam_retail_apis.Payment.Webhooks.Confirmed.{handle-unconfirmed, after_webhook, HasLedger}
use fiam_retail_apis.Payment.Books.{handle_failed-IsBalanced, post-IsBalanced}
use fiam_retail_apis.Payment.Deposits.Once.{record_payin-seen}
use fiam_retail_apis.Payment.Ledger.{Ends, IsBalanced}
use fiam_retail_apis.Payment.Internal.Once.{post_lost}
use fiam_retail_apis.Payment.Deposits.{process, handle_failed, RecordPayinInput, record_payin}

abbrev payin : RecordPayinInput
payin = record {
  provider = PaymentProviderKey.vfd;
  currency = CurrencyCode.ngn;
  account_number = "1000000001";
  amount = naira 50;
  reference = "VFD-2";
  external_id = none;
  narration = none;
  occurred_at = none;
  raw_payload = none;
}

handle_failed-IsBalanced_example : IsBalanced 1 (handle_failed 3 5 5 db).1
handle_failed-IsBalanced_example =
    handle_failed-IsBalanced 1 3 incoming 5 5 db refl refl db-IsBalanced

abbrev posting : CreatePostingDto
posting = record {
  wallet_id = 1;
  type = TransactionType.debit;
  amount = naira 20;
  reference = "PST-1";
  narration = "Correction";
  meta = "{}";
}

abbrev after_posting : Db
after_posting = record db {
  transactions =
      posting_row posting CurrencyCode.ngn "1000000001" (naira 670) 1700000000000 9
      ∷ db.transactions;
}

abbrev posted : Transaction
posted = posting_row posting CurrencyCode.ngn "1000000001" (naira 670) 1700000000000 9

post-IsBalanced_example : IsBalanced 1 (post posting none db).1
post-IsBalanced_example = post-IsBalanced 1 posting none db (λ winner e. cc e) db-IsBalanced

abbrev made : PostingView
made = view (record posted { id = 10 }) false

posted_first : post posting none db ≡ (ok made, (post posting none db).1)
unfolding post post_new find_existing post_in_transaction announce_posting replay_or_raise move
    debit_for_update find_wallet set_balance find_active_for_wallet posting_row insert_transaction
    ◌>>=◌ pure notify
posted_first = refl

post_twice_example :
    post posting (some after_posting) (post posting none db).1
    ≡ (ok (record made { replayed = true }), (post posting none db).1)
post_twice_example =
    post_twice posting db made (post posting none db).1 (some after_posting) posted_first

post_lost_example :
    Ends
      (λ v d. (v ≡ view posted true) × (d ≡ after_posting))
      (λ d. d ≡ after_posting)
      (post posting (some after_posting) db)
unfolding posting_row
post_lost_example = post_lost posting posted after_posting refl db refl refl

abbrev assignment : AssignUnmatchedDto
assignment = record { wallet_id = 1; reference = "UNM-1"; meta = "{}" }

credits-IsBalanced_example :
    IsBalanced 1 (record_payin payin db).1
    × (IsBalanced 1 (process 4 db).1 × IsBalanced 1 (assign 4 assignment db).1)
credits-IsBalanced_example = credits-IsBalanced 1 payin 4 assignment db db-IsBalanced

abbrev first_assignment : AssignResult
first_assignment = record {
  transaction =
      mark_assigned assignment
        (record { id = 1; user_id = 7; currency = CurrencyCode.ngn; balance = naira 760 })
        1700000000000 unmatched;
  replayed = false;
}

assigned_first : assign 4 assignment db ≡ (ok first_assignment, (assign 4 assignment db).1)
unfolding assign assign_in_transaction assign_row announce_assignment transaction credit_for_update
    find_wallet find_transaction set_balance update_transaction ◌>>=◌ pure notify raise_if or_raise
assigned_first = refl

assign_twice_example :
    let after = (assign 4 assignment db).1 in
    assign 4 assignment after ≡ (ok (record first_assignment { replayed = true }), after)
assign_twice_example =
    assign_twice 4 assignment first_assignment db (assign 4 assignment db).1 assigned_first

record_payin-seen_example :
    Ends (λ o after. (o ≡ none) × (after ≡ db)) (λ _. ⊥) (record_payin payin db)
record_payin-seen_example = record_payin-seen payin db refl

abbrev forged : VfdInwardCreditWebhookDto
forged = record {
  reference = "VFD-9";
  amount = "5000";
  account_number = "1000000001";
  originator_account_number = none;
  originator_narration = none;
  timestamp = none;
  session_id = none;
}

-- The provider knows the reference, with another amount.
abbrev checks : WebhookOutside
checks = record {
  query_transfer_status = λ reference. ok (record {
    outcome = successful;
    external_id = none;
    provider_status_code = some "00";
    raw_payload = some "{}";
  });
  parse_amount = λ text. if text_eq text "5000" then some (naira 5000) else some (naira 50);
  data_of = λ text. some (record {
    amount = some "50";
    account_no = some "1000000001";
    from_account_no = none;
    session_id = none;
  });
  event_payload = λ dto. "{}";
  deposit_payload = λ dto t. "{}";
}

handle-unconfirmed_example : HasLedger db (after_webhook checks forged db)
handle-unconfirmed_example = handle-unconfirmed checks forged db refl

-- The same webhook with the amount that the provider knows.
abbrev genuine : VfdInwardCreditWebhookDto
genuine = record forged { amount = "50" }

abbrev known : TsqData
known = record {
  amount = some "50";
  account_no = some "1000000001";
  from_account_no = none;
  session_id = none;
}

abbrev confirmed : TransferResult
confirmed = record {
  outcome = successful;
  external_id = none;
  provider_status_code = some "00";
  raw_payload = some "{}";
}

-- The delivery as the log keeps it.
abbrev delivered : WebhookEvent
delivered = mark_verified db.now confirmed.raw_payload (new_event checks genuine db.next_id)

handle-recorded_example :
    (handle_vfd_inward_credit checks genuine db).1
    ≡ (record_payin (deposit_of checks genuine known (naira 50)) (record db {
      webhook_events = db.webhook_events ++ (delivered ∷ []);
      next_id = db.next_id + 1;
    })).1
handle-recorded_example =
    handle-recorded checks genuine confirmed known (naira 50) refl refl refl refl refl refl db refl
