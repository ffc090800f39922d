-- ===== src/Payment/Bills/SettleBooks.antt =====
-- The books of every wallet stay balanced while the provider's answers are applied to a bill.
use fiam_retail_apis.Payment.Payouts.Settle.{
  already_final, not_found, sync_hold, sync_failed, sync_successful, sync_unresolved, SyncOutcome,
}
use fiam_retail_apis.Payment.Bills.Settle.{
  job_end, sync_with, fetch_with, issue, has_token, record_result, with_token, mark_paid,
  remember_bill, run_bill_job, remember_for, fetch_token_and_send_receipt, apply_result,
  sync_bill_status, mark_successful, settle_bill_sync, settle_bill, remember_recipient,
  announce_paid,
}
use fiam_retail_apis.Payment.Store.{M, JobKind, ◌>>◌, Db, find_wallet}
use fiam_retail_apis.Payment.Bills.Catalogue.{
  bill_requery, bill_failed, bill_successful, BillOutcome, ProviderBillResult, BillsProvider,
}
use fiam_retail_apis.Payment.Entities.{is_final, is_debit, Wallet, BillDetails, Transaction}
use fiam_retail_apis.Payment.Ledger.Triples.{update-Standing, Holds-self, Holds, update-IsBalanced}
use fiam_retail_apis.Payment.Ledger.Reads.{
  forget, notify-Keeps, enqueue-Keeps, find_transaction-Keeps, find-bind,
}
use fiam_retail_apis.Payment.Bills.Recipients.{is_recipient, record_success}
use fiam_retail_apis.Common.{
  option_map, none, any, String, Option, ℕ, ◌≡◌, true, refl, arith, some, inl, inr, Bool-cases,
  or_else,
}
use fiam_retail_apis.Payment.Payouts.Books.{reverse_failed_bill-Triple}
use fiam_retail_apis.Payment.Ledger.{Triple, received_of, IsBalanced, spent_of, Keeps}
use fiam_retail_apis.Payment.Ledger.Rules.{
  assuming, raise_if-bind, lift-bind, Triple-bind, gets-bind,
}
use fiam_retail_apis.Payment.Ledger.Keeping.{modify-Triple, keeps_rules}

abbrev Standing : ℕ → ℕ → Transaction → Db → Type 0
Standing w id cur db = IsBalanced w db × Holds id cur db.transactions

-- What the books see of a DEBIT row does not depend on its bill or on the provider's answers.
module _ (w : ℕ) (cur : Transaction) (was_debit : is_debit cur.type ≡ true) where
  abbrev SameShare : Transaction → Type 0
  SameShare t = (spent_of w t ≡ spent_of w cur) × (received_of w t ≡ received_of w cur)

  mark_paid_share : (now : ℕ) (bill : Option BillDetails) → SameShare (mark_paid now bill cur)
  unfolding spent_of received_of
  mark_paid_share now bill = ground arith

  record_result_share :
      (r : ProviderBillResult) (payload : Option String) → SameShare (record_result r payload cur)
  unfolding spent_of received_of
  record_result_share r payload = ground arith

  bill_share : (bill : Option BillDetails) → SameShare (record cur { bill = bill })
  unfolding spent_of received_of
  bill_share bill = ground arith

-- The notices, the jobs and the recipients are not in the books.
module _ (w : ℕ) where
  record_success-Keeps :
      (user : ℕ) (bill : BillDetails) (amount : ℕ)
      → Keeps (IsBalanced w) (record_success user bill amount)
  unfolding record_success
  record_success-Keeps user bill amount = modify-Triple (IsBalanced w) _ λ db p.
      elim (Bool-cases (any (is_recipient user bill) db.bill_beneficiaries)) [
        | inl known ↦ rw known p
        | inr new ↦ rw new p
      ]

  job_end-Keeps : (o : SyncOutcome) → Keeps (IsBalanced w) (job_end o)
  job_end-Keeps sync_unresolved = search keeps_rules
  job_end-Keeps sync_successful = search keeps_rules
  job_end-Keeps sync_failed = search keeps_rules
  job_end-Keeps sync_hold = search keeps_rules
  job_end-Keeps not_found = search keeps_rules
  job_end-Keeps already_final = search keeps_rules

  find_wallet-Keeps : (id : ℕ) → Keeps (IsBalanced w) (find_wallet id)
  unfolding find_wallet
  find_wallet-Keeps id = record { at = λ db p. p }

  remember_for-Keeps :
      (bill : BillDetails) (amount : ℕ) (o : Option Wallet)
      → Keeps (IsBalanced w) (remember_for bill amount o)
  remember_for-Keeps bill amount none = search keeps_rules
  remember_for-Keeps bill amount (some wallet) = record_success-Keeps wallet.user_id bill amount

  remember_bill-Keeps :
      (bill : Option BillDetails) (wallet : Option ℕ) (amount : ℕ)
      → Keeps (IsBalanced w) (remember_bill bill wallet amount)
  remember_bill-Keeps none wallet amount = search keeps_rules
  remember_bill-Keeps (some bill) none amount = search keeps_rules
  remember_bill-Keeps (some bill) (some wallet) amount =
      search (keeps_rules, find_wallet-Keeps, remember_for-Keeps)

  after_payment-Keeps :
      (t : Transaction) (bill : Option BillDetails)
      → Keeps (IsBalanced w) (announce_paid t bill >> remember_recipient t)
  unfolding announce_paid remember_recipient
  after_payment-Keeps t bill =
      search (keeps_rules, notify-Keeps, enqueue-Keeps, remember_bill-Keeps)

module _ (w : ℕ) (t cur : Transaction) (was_debit : is_debit cur.type ≡ true) where
  mark_successful-Triple :
      (issued : ProviderBillResult)
      → Triple (Standing w t.id cur) (mark_successful t issued) (λ _. IsBalanced w) (IsBalanced w)
  unfolding mark_successful
  mark_successful-Triple issued = gets-bind _ λ now.
      let bill = option_map (issue issued) t.bill in
      let same = mark_paid_share w cur was_debit now bill in
      Triple-bind (λ _. IsBalanced w)
        (update-IsBalanced w t.id cur (mark_paid now bill) same.0 same.1)
        λ _. after_payment-Keeps w t bill

  settle_bill-Triple :
      (bills : BillsProvider) (r : ProviderBillResult) (o : BillOutcome)
      → Triple (Standing w t.id cur) (settle_bill bills t r o) (λ _. IsBalanced w) (IsBalanced w)
  unfolding settle_bill
  settle_bill-Triple bills r bill_successful = mark_successful-Triple (with_token bills t r)
  settle_bill-Triple bills r bill_failed = reverse_failed_bill-Triple w t.id cur was_debit
  settle_bill-Triple bills r bill_requery = forget w _ (enqueue-Keeps w _)

  settle_bill_sync-Triple :
      (r : ProviderBillResult) (o : BillOutcome)
      → Triple (Standing w t.id cur) (settle_bill_sync t r o) (λ _. IsBalanced w) (IsBalanced w)
  unfolding settle_bill_sync
  settle_bill_sync-Triple r bill_successful =
      Triple-bind (λ _. IsBalanced w) (mark_successful-Triple r) λ _. search keeps_rules
  settle_bill_sync-Triple r bill_failed =
      Triple-bind (λ _. IsBalanced w) (reverse_failed_bill-Triple w t.id cur was_debit)
        λ _. search keeps_rules
  settle_bill_sync-Triple r bill_requery =
      forget w (λ db. Holds t.id cur db.transactions) search keeps_rules

module _ (w : ℕ) (t cur : Transaction) (was_debit : is_debit cur.type ≡ true)
    (bills : BillsProvider) where
  pub apply_result-Triple :
      (r : ProviderBillResult)
      → Triple (Standing w t.id cur) (apply_result bills t r) (λ _. IsBalanced w) (IsBalanced w)
  unfolding apply_result
  apply_result-Triple r =
      let same = record_result_share w cur was_debit r r.raw_payload in
      Triple-bind _ (update-Standing w t.id cur (record_result r r.raw_payload) same.0 same.1 refl)
        λ _.
          Triple-bind (λ _. IsBalanced w)
            (settle_bill-Triple w t (record_result r r.raw_payload cur) was_debit bills r r.outcome)
            λ _. search (keeps_rules, find_transaction-Keeps)

module _ (w id : ℕ) (cur : Transaction) (was_debit : is_debit cur.type ≡ true)
    (bills : BillsProvider) where
  self : (db : Db) → Standing w id cur db → Standing w cur.id cur db
  self db q = (q.0, Holds-self id cur db.transactions q.1)

  final_row :
      {A : Type 0} {m : M A}
      → Keeps (IsBalanced w) m
      → Triple (Standing w id cur) m (λ _. IsBalanced w) (IsBalanced w)
  final_row h = forget w (λ db. Holds id cur db.transactions) h

  sync_with-Triple :
      (o : Option BillDetails)
      → Triple (Standing w id cur) (sync_with bills cur o) (λ _. IsBalanced w) (IsBalanced w)
  unfolding sync_with
  sync_with-Triple none = final_row search keeps_rules
  sync_with-Triple (some bill) = elim (Bool-cases (is_final cur.status)) [
    | inl final ↦ rw final (final_row search keeps_rules)
    | inr open_row ↦ rw open_row (
        assuming (Standing w cur.id cur) self (
          lift-bind _ (λ db q. q.0)
            λ r _.
              let payload = or_else r.raw_payload cur.raw_payload in
              let same = record_result_share w cur was_debit r payload in
              Triple-bind _
                (update-Standing w cur.id cur (record_result r payload) same.0 same.1 refl)
                λ _.
                  settle_bill_sync-Triple w cur (record_result r payload cur) was_debit r
                    r.outcome))
  ]

  pub sync_bill_status-Triple :
      Triple (Standing w id cur) (sync_bill_status bills id) (λ _. IsBalanced w) (IsBalanced w)
  unfolding sync_bill_status
  sync_bill_status-Triple = find-bind id cur _ (sync_with-Triple cur.bill)

  fetch_with-Triple :
      (o : Option BillDetails)
      → Triple (Standing w id cur) (fetch_with bills cur o) (λ _. IsBalanced w) (IsBalanced w)
  unfolding fetch_with
  fetch_with-Triple none = final_row search keeps_rules
  fetch_with-Triple (some bill) = elim (Bool-cases (has_token (some bill))) [
    | inl known ↦ rw known (final_row search (keeps_rules, notify-Keeps))
    | inr missing ↦ rw missing (
        assuming (Standing w cur.id cur) self (
          lift-bind _ (λ db q. q.0)
            λ r _.
              raise_if-bind _ _ _ (λ db q. q.0)
                λ _.
                  let same = bill_share w cur was_debit (some (issue r bill)) in
                  Triple-bind (λ _. IsBalanced w)
                    (update-IsBalanced w cur.id cur
                      (λ row. record row { bill = some (issue r bill) }) same.0 same.1)
                    λ _. search (keeps_rules, notify-Keeps)))
  ]

  pub fetch_token-Triple :
      Triple
        (Standing w id cur)
        (fetch_token_and_send_receipt bills id)
        (λ _. IsBalanced w)
        (IsBalanced w)
  unfolding fetch_token_and_send_receipt
  fetch_token-Triple = find-bind id cur _ (fetch_with-Triple cur.bill)

  sync_job-Triple :
      Triple
        (Standing w id cur)
        (run_bill_job bills JobKind.bill_status_query id)
        (λ _. IsBalanced w)
        (IsBalanced w)
  unfolding run_bill_job
  sync_job-Triple = Triple-bind (λ _. IsBalanced w) sync_bill_status-Triple (job_end-Keeps w)

  -- A job of the queue, whichever it is.
  pub run_bill_job-Triple :
      (kind : JobKind)
      → Triple (Standing w id cur) (run_bill_job bills kind id) (λ _. IsBalanced w) (IsBalanced w)
  unfolding run_bill_job
  run_bill_job-Triple JobKind.fetch_bill_token =
      Triple-bind (λ _. IsBalanced w) fetch_token-Triple λ _. search keeps_rules
  run_bill_job-Triple JobKind.bill_status_query = sync_job-Triple
  run_bill_job-Triple JobKind.payout_status_query = sync_job-Triple
  run_bill_job-Triple JobKind.process_transaction = sync_job-Triple
