-- ===== src/Payment/Bills/PayBooks.antt =====
-- The books of every wallet stay balanced when a bill is paid.
use fiam_retail_apis.Common.{sym, true, String, Option, ℕ, ◌+◌, ◌≡◌, refl, arith}
use mathlib.Core.Path.{subst}
use fiam_retail_apis.Payment.Bills.Price.{prepare-Reads, IsPriced}
use fiam_retail_apis.Payment.Bills.Pay.{
  prepare, pay_input, PayBillDto, charge_in_transaction, bill_row, charge, BillsOutside, purchase,
  pay_bill, Purchase,
}
use fiam_retail_apis.Payment.Bills.SettleBooks.{apply_result-Triple}
use fiam_retail_apis.Payment.Ledger.Triples.{insert-Holds, insert-Triple, debit-Triple, share}
use fiam_retail_apis.Payment.Ledger.Rules.{
  gets-bind, Keeps-relax, Triple-and, Triple-weaken, assuming, Triple-transaction, relax,
  Triple-bind,
}
use fiam_retail_apis.Payment.Ledger.Keeping.{Keeps-lift, after}
use fiam_retail_apis.Payment.Store.{insert_transaction}
use fiam_retail_apis.Payment.Ledger.{
  IsFresh, received_of, IsOff, IsBalanced, spent_of, Keeps, Triple,
}
use fiam_retail_apis.Payment.Bills.Catalogue.{BillsProvider}
use fiam_retail_apis.Payment.Entities.{is_debit, Transaction}
use fiam_retail_apis.Payment.Payouts.InitiateBooks.{IsReserved, IsReady, check_caps-Keeps}

module _ (w : ℕ) (p : Purchase) where
  bill_row-share :
      (balance now id : ℕ)
      → let row = bill_row p balance now id in
        (spent_of w row ≡ share w p.wallet (p.amount + p.fee)) × (received_of w row ≡ 0)
  unfolding bill_row spent_of received_of
  bill_row-share balance now id = ground arith

  bill_row_debit :
      (balance now : ℕ) (t : Transaction)
      → (id : ℕ) × (t ≡ bill_row p balance now id)
      → is_debit t.type ≡ true
  unfolding bill_row
  bill_row_debit balance now t e = rw e.1 refl

  -- What is taken for the bill, as wallet `w` sees it.
  abbrev taken : ℕ
  taken = share w p.wallet (p.amount + p.fee)

  insert_row-Triple :
      (balance now : ℕ)
      → Triple
          (λ db. IsOff w (0 + taken) 0 db × IsFresh db)
          (insert_transaction (bill_row p balance now))
          (IsReserved w)
          (λ _. Unit)
  unfolding bill_row
  insert_row-Triple balance now =
      Triple-weaken _ _ _
        (Triple-and
          (insert-Triple w 0 0 taken 0 (bill_row p balance now) (bill_row-share balance now))
          (insert-Holds (bill_row p balance now) (λ id. refl)))
        (λ db q. (omega arith, q.1))
        (λ t db q. (omega arith, q.1.1, bill_row_debit balance now t q.1.0, q.1.2)) (λ _ _. tt)

  charge_in_transaction-Triple :
      Triple
        (λ db. IsOff w 0 0 db × IsFresh db)
        (charge_in_transaction p)
        (IsReserved w)
        (λ _. Unit)
  unfolding charge_in_transaction
  charge_in_transaction-Triple =
      Triple-bind _ (relax (debit-Triple w IsFresh (λ _ _ f. f) 0 0 p.wallet (p.amount + p.fee)))
        λ debited.
          Triple-bind _ (Keeps-relax (check_caps-Keeps p.wallet p.amount p.enforce p.caps))
            λ _. gets-bind _ λ now. insert_row-Triple debited.balance now

  -- The database transaction of a bill payment.
  charge-Triple :
      Triple (λ db. IsBalanced w db × IsFresh db) (charge p) (IsReserved w) (IsBalanced w)
  unfolding charge
  charge-Triple =
      Triple-transaction (λ _ q. q.0)
        (assuming (λ db. IsOff w 0 0 db × IsFresh db) (λ db q. (omega arith, q.1))
          charge_in_transaction-Triple)

  purchase-Triple :
      (bills : BillsProvider) (phone : Option String)
      → Triple (IsReady w) (purchase bills p phone) (λ _. IsBalanced w) (IsBalanced w)
  unfolding purchase
  purchase-Triple bills phone = Triple-bind _ charge-Triple λ t.
      after _ (λ db q. q.0) (Keeps-lift (bills.pay_bill (pay_input p phone)))
        λ r. record { at = λ db q. (apply_result-Triple w t t q.2 bills r).at db (q.0, q.1) }

module _ (w : ℕ) where
  prepare-Keeps :
      (o : BillsOutside) (user : ℕ) (dto : PayBillDto) → Keeps (IsReady w) (prepare o user dto)
  prepare-Keeps o user dto = record {
    at = λ db p.
        (Triple-weaken (λ d. d ≡ db) (λ b d. (d ≡ db) × IsPriced o dto b.0) (λ d. d ≡ db)
            (prepare-Reads db o user dto) (λ d e. e) (λ b d q. subst (IsReady w) (sym q.0) p)
            (λ d q. subst (IsReady w) (sym q) p)).at
          db refl;
  }

  -- A bill payment from the request to the row that is returned, whatever the provider answers.
  pub pay_bill-Triple :
      (o : BillsOutside) (user : ℕ) (dto : PayBillDto)
      → Triple (IsReady w) (pay_bill o user dto) (λ _. IsBalanced w) (IsBalanced w)
  unfolding pay_bill
  pay_bill-Triple o user dto =
      after _ (λ db q. q.0) (prepare-Keeps o user dto) λ p. purchase-Triple w p.0 o.bills p.1
