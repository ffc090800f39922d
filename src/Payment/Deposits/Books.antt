-- ===== src/Payment/Deposits/Books.antt =====
-- The books of every wallet stay balanced when a deposit is recorded, credited or given up.
use fiam_retail_apis.Common.{
  refl, ltb, inr, ◌+◌, inl, Bool-cases, none, some, arith, false, ◌≡◌, Option, ℕ,
}
use fiam_retail_apis.Payment.Ledger.Triples.{
  update-IsBalanced, update-Standing, insert-Keeps, update-Triple, credit-Triple, share, Holds,
}
use fiam_retail_apis.Payment.Ledger.Reads.{
  find-bind, notify-Keeps, IsOff→IsBalanced, forget, enqueue-Keeps, lookup-bind,
}
use fiam_retail_apis.Payment.Store.{Notice, notify, pure, find_wallet}
use fiam_retail_apis.Payment.Deposits.{
  handle_failed, mark_credited, wallet_id_of, apply_credit, mark_processing, RecordPayinInput,
  process_found, queue_deposit, process, deposit_row, wallet_of_address, record_payin,
  insert_or_ignore,
}
use fiam_retail_apis.Payment.Payouts.Reversal.{mark_failed}
use fiam_retail_apis.Payment.Entities.{
  is_successful, is_debit, Address, Wallet, is_final, Transaction,
}
use fiam_retail_apis.Payment.Ledger.Rules.{
  Triple-transaction, raise_if-bind, gets-bind, relax, or_raise-bind, Triple-bind, Triple-catch,
}
use fiam_retail_apis.Payment.Ledger.Keeping.{Keeps-gets, Keeps-bind, keeps_rules}
use fiam_retail_apis.Payment.Ledger.{IsOff, IsBalanced, received_of, Keeps, Triple, spent_of}
use fiam_retail_apis.Payment.Wallets.{find_active_by_provider_account_number}

module _ (w id : ℕ) where
  deposit_row_share :
      (i : RecordPayinInput) (wallet : Option ℕ) (now key : ℕ)
      → (spent_of w (deposit_row i wallet now key) ≡ 0)
        × (received_of w (deposit_row i wallet now key) ≡ 0)
  unfolding deposit_row spent_of received_of
  deposit_row_share i none now key = ground arith
  deposit_row_share i (some x) now key = ground arith

  insert_or_ignore-Keeps :
      (i : RecordPayinInput) (wallet : Option ℕ) (now : ℕ)
      → Keeps (IsBalanced w) (insert_or_ignore (deposit_row i wallet now))
  unfolding insert_or_ignore
  insert_or_ignore-Keeps i wallet now =
      Triple-catch (IsBalanced w)
        (Triple-bind (λ _. IsBalanced w) (insert-Keeps w _ (deposit_row_share i wallet now))
          λ _. search keeps_rules)
        λ _. search keeps_rules

  wallet_of_address-Keeps : (a : Option Address) → Keeps (IsBalanced w) (wallet_of_address a)
  unfolding wallet_of_address find_wallet
  wallet_of_address-Keeps none = search keeps_rules
  wallet_of_address-Keeps (some a) = record { at = λ db p. p }

  queue_deposit-Keeps :
      (x : Option Wallet) (t : Transaction) → Keeps (IsBalanced w) (queue_deposit x t)
  unfolding queue_deposit
  queue_deposit-Keeps none t = search keeps_rules
  queue_deposit-Keeps (some x) t = search (keeps_rules, enqueue-Keeps)

  queue_inserted-Keeps :
      (x : Option Wallet) (t : Option Transaction)
      → Keeps {A = Option Transaction}
          (IsBalanced w)
          (elim t [ none ↦ pure none | some t ↦ queue_deposit x t ])
  queue_inserted-Keeps x none = search keeps_rules
  queue_inserted-Keeps x (some t) = queue_deposit-Keeps x t

  -- Recording a deposit moves no money.
  pub record_payin-Keeps : (i : RecordPayinInput) → Keeps (IsBalanced w) (record_payin i)
  unfolding record_payin find_active_by_provider_account_number
  record_payin-Keeps i = Keeps-bind _ _ (Keeps-gets _) λ a.
      Keeps-bind _ _ (wallet_of_address-Keeps a) λ x. Keeps-bind _ _ (Keeps-gets _) λ now.
        Keeps-bind _ _ (insert_or_ignore-Keeps i (wallet_id_of x) now) λ t. queue_inserted-Keeps x t

module _ (w id : ℕ) (cur : Transaction) (is_open : is_final cur.status ≡ false)
    (is_credit : is_debit cur.type ≡ false) where
  mark_processing_share :
      (spent_of w (mark_processing cur) ≡ spent_of w cur)
      × (received_of w (mark_processing cur) ≡ received_of w cur)
  unfolding spent_of received_of
  mark_processing_share = ground arith

  mark_credited-share :
      (x balance now : ℕ)
      → cur.wallet_id ≡ some x
      → (spent_of w (mark_credited balance now (mark_processing cur))
          ≡ spent_of w (mark_processing cur))
        × (received_of w (mark_credited balance now (mark_processing cur))
            ≡ share w x cur.amount + received_of w (mark_processing cur))
  unfolding spent_of received_of
  mark_credited-share x balance now e = ground arith

  apply_credit-Triple :
      Triple
        (λ db. IsOff w 0 0 db × Holds id (mark_processing cur) db.transactions)
        (apply_credit id cur)
        (λ _. IsOff w 0 0)
        (λ _. Unit)
  unfolding apply_credit
  apply_credit-Triple =
      or_raise-bind _ _ (λ _ _. tt)
        λ x e.
          Triple-bind _
            (relax (
              credit-Triple w (λ db. Holds id (mark_processing cur) db.transactions) (λ _ _ h. h) 0
                0 x cur.amount))
            λ wallet. gets-bind _ λ now. relax (
              update-Triple w id (mark_processing cur) (mark_credited wallet.balance now) 0
                (0 + share w x cur.amount) 0 0
                (omega (arith, mark_credited-share x wallet.balance now e)))

module _ (w id : ℕ) where
  process_found-Triple :
      (cur : Transaction)
      → Triple
          (λ db. IsBalanced w db × Holds id cur db.transactions)
          (process_found id (some cur))
          (λ _. IsBalanced w)
          (IsBalanced w)
  unfolding process_found
  process_found-Triple cur = elim (Bool-cases (is_final cur.status)) [
    | inl final ↦ rw final (forget w (λ db. Holds id cur db.transactions) search keeps_rules)
    | inr open_row ↦ rw open_row (
        raise_if-bind _ _ _ (λ db q. q.0)
          λ is_credit.
            let same = mark_processing_share w id cur open_row is_credit in
            Triple-bind (λ _ db. IsBalanced w db × Holds id (mark_processing cur) db.transactions)
              (update-Standing w id cur mark_processing same.0 same.1 refl)
              λ _.
                Triple-bind (λ _. IsBalanced w)
                  (Triple-transaction (λ db p. p.0)
                    (IsOff→IsBalanced w _ (apply_credit-Triple w id cur open_row is_credit)))
                  λ _. notify-Keeps w _)
  ]

  -- The worker credits a deposit, or does nothing, or throws: the books stay balanced.
  pub process-Keeps : Keeps (IsBalanced w) (process id)
  unfolding process
  process-Keeps = lookup-bind id _ (search keeps_rules) process_found-Triple

-- Giving a deposit up marks it FAILED: that keeps the books, unless the deposit was credited.
module _ (w id : ℕ) (cur : Transaction) (not_credited : is_successful cur.status ≡ false) where
  mark_failed_share :
      (now : ℕ)
      → (spent_of w (mark_failed now cur) ≡ spent_of w cur)
        × (received_of w (mark_failed now cur) ≡ received_of w cur)
  unfolding spent_of received_of
  mark_failed_share now = ground arith

  pub handle_failed-Triple :
      (made most : ℕ)
      → Triple
          (λ db. IsBalanced w db × Holds id cur db.transactions)
          (handle_failed id made most)
          (λ _. IsBalanced w)
          (IsBalanced w)
  unfolding handle_failed notify
  handle_failed-Triple made most = elim (Bool-cases (ltb made most)) [
    | inl again ↦ rw again (forget w (λ db. Holds id cur db.transactions) search keeps_rules)
    | inr last ↦ rw last (
        find-bind id cur _ (
          Triple-bind (λ _ db. IsBalanced w db × Holds id cur db.transactions) (notify-Standing _)
            λ _.
              Triple-bind (λ _ db. IsBalanced w db × Holds id cur db.transactions)
                (notify-Standing _)
                λ _. gets-bind _ λ now.
                  let same = mark_failed_share now in
                  update-IsBalanced w id cur (mark_failed now) same.0 same.1))
  ]
    where
      notify-Standing :
          (n : Notice)
          → Triple
              (λ db. IsBalanced w db × Holds id cur db.transactions)
              (notify n)
              (λ _ db. IsBalanced w db × Holds id cur db.transactions)
              (IsBalanced w)
      notify-Standing n = record { at = λ db p. p }
