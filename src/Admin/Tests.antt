-- ===== src/Admin/Tests.antt =====
-- The theorems on manual postings at one console: a posting that Ada asked for, and Bola decides.
use fiam_retail_apis.Admin.Postings.{
  serve_source, serve, posting_body, mark_posted, reject, cancel, answered, answer_lost, System,
  approve,
}
use fiam_retail_apis.Common.{get_or, ap, ◌≡◌, refl, some, none, [], ◌∷◌, false, String, ℕ}
use fiam_retail_apis.Admin.Postings.Operations.{request-IsAsked, IsAsked, decisions-Advances}
use fiam_retail_apis.Payment.Store.{notify, insert_transaction, set_balance, find_wallet, ◌>>=◌, Db}
use fiam_retail_apis.Payment.Wallets.{debit_for_update}
use fiam_retail_apis.Admin.Desk.{claim, decide, posting_key, PostingStatus, Posting, Ctx, Desk}
use mathlib.Core.Path.{subst}
use fiam_retail_apis.Payment.Internal.{
  CreatePostingDto as PaymentPosting, view, posting_row, post, PostingView,
}
use fiam_retail_apis.Payment.Entities.{TransactionType, CurrencyCode, naira}
use fiam_retail_apis.Common.Table.{find}
use fiam_retail_apis.Admin.Postings.Request.{request, CreatePostingDto}
use fiam_retail_apis.Admin.Postings.Guarantee.{IsFair}
use fiam_retail_apis.Admin.Postings.FourEyes.{Advances}
use fiam_retail_apis.Admin.Postings.Retry.{approve_retried}
use fiam_retail_apis.Admin.Postings.Refused.{approve_refused}

abbrev uuid_text : ℕ → String
uuid_text id = "5"

abbrev ada : Ctx
ada = record { actor = record { id = 1; email = "ada@fiam.ng" }; ip = none }

abbrev bola : Ctx
bola = record { actor = record { id = 2; email = "bola@fiam.ng" }; ip = none }

abbrev waiting : Posting
waiting = record {
  id = 5;
  customer_id = 7;
  wallet_id = 1;
  source_transaction_id = none;
  currency = CurrencyCode.ngn;
  type = TransactionType.debit;
  amount = naira 20;
  reason = "Charged twice";
  narration = "Account debit adjustment";
  status = PostingStatus.pending;
  requested_by_id = 1;
  requested_by_email = "ada@fiam.ng";
  decided_by_id = none;
  decided_by_email = none;
  decided_at = none;
  decision_note = none;
  transaction_id = none;
  balance_after = none;
  failure_reason = none;
  created_at = 1700000000000;
}

abbrev payment : ℕ → Db
payment balance = record {
  wallets = record { id = 1; user_id = 7; currency = CurrencyCode.ngn; balance = balance } ∷ [];
  addresses = [];
  beneficiaries = [];
  bill_beneficiaries = [];
  webhook_events = [];
  transactions = [];
  free_payouts = none;
  jobs = [];
  notices = [];
  next_id = 10;
  now = 1700000000000;
}

abbrev console : ℕ → System
console balance = record {
  desk = record { postings = waiting ∷ []; audit = []; next_id = 6; now = 1700000000000 };
  payment = payment balance;
}

-- Ada withdraws the posting while Bola decides it.
abbrev withdrawn : Desk
withdrawn = (cancel 5 ada none (console 0).desk).1

withdrawn-IsFair : (other : Desk) → some withdrawn ≡ some other → IsFair 5 (console 0).desk other
withdrawn-IsFair other e =
    subst (IsFair 5 (console 0).desk) (ap (λ o. get_or o withdrawn) e) record {
      advances =
          (decisions-Advances 5 ada (console 0) none refl (λ o never. cc never) uuid_text answered
            none "").2;
      held = λ p found open_. cc (found, open_);
    }

decisions-Advances_example :
    Advances
      (console 0).desk
      (approve uuid_text answered 5 bola none (some withdrawn) (console 0)).1.desk
    × Advances (console 0).desk (reject 5 bola "Not ours" (some withdrawn) (console 0).desk).1
    × Advances (console 0).desk (cancel 5 bola (some withdrawn) (console 0).desk).1
decisions-Advances_example =
    decisions-Advances 5 bola (console 0) (some withdrawn) refl withdrawn-IsFair uuid_text answered
      none "Not ours"

abbrev asked : CreatePostingDto
asked = record {
  customer_id = 7;
  type = TransactionType.credit;
  amount = naira 5;
  source_transaction_id = none;
  reason = "Refund of a fee";
  narration = none;
}

request-IsAsked_example :
    IsAsked ada (console 0).desk (request asked (some (record { closed = false })) ada (console 0))
request-IsAsked_example = request-IsAsked asked ada (some (record { closed = false })) (console 0)

abbrev body : PaymentPosting
body = posting_body uuid_text bola waiting

abbrev made : PostingView
made = view (posting_row body CurrencyCode.ngn "manual" (naira 80) 1700000000000 10) false

approve_retried_example :
    let lost = approve uuid_text answer_lost 5 bola none none (console (naira 100)) in
    let again = approve uuid_text answered 5 bola none none lost.1 in
    (lost.1.payment ≡ (post body none (payment (naira 100))).1)
    × ((again.1.payment ≡ (post body none (payment (naira 100))).1)
        × (find posting_key 5 again.1.desk.postings
            ≡ some (
                mark_posted made.transaction_id made.balance_after
                  (decide PostingStatus.processing bola none 1700000000000 waiting))))
unfolding serve serve_source post posting_row ◌>>=◌ debit_for_update find_wallet set_balance
    insert_transaction notify
approve_retried_example =
    approve_retried uuid_text bola waiting (console (naira 100)) refl refl refl made.transaction_id
      made.balance_after (post body none (payment (naira 100))).1 refl none none

approve_refused_example :
    (approve uuid_text answered 5 bola none none (console 0)).1.payment ≡ payment 0
unfolding approve claim post ◌>>=◌ debit_for_update find_wallet
approve_refused_example = approve_refused uuid_text answered bola 5 none none (console 0) refl
