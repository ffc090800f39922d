-- ===== src/Payment/Bills/Receipts.antt =====
-- The receipt of an electricity bill waits for the token.
use fiam_retail_apis.Common.Table.{find-update_self, update, key-find, find}
use fiam_retail_apis.Common.{
  sym, ◌∙◌, or_else, ap, String, inr, truthy, inl, Bool-cases, is_some, none, ◌&&◌, [], ◌∷◌, some,
  not, false, true, ◌++◌, Bool, Option, ℕ, ◌≡◌, refl, arith,
}
use fiam_retail_apis.Payment.Store.{
  token_not_issued, M, raise_if, ◌>>◌, lift, Result, update_transaction, find_transaction, notify,
  ◌>>=◌, Notice, pure, Db,
}
use mathlib.Core.Path.{subst}
use fiam_retail_apis.Payment.Bills.Settle.{
  mail_receipt, issue, has_token, fetch_token_found, is_paid, fetch_with,
  fetch_token_and_send_receipt,
}
use fiam_retail_apis.Payment.Ledger.Rules.{raise_if-bind, lift-bind}
use fiam_retail_apis.Payment.Ledger.{Triple, Ends}
use fiam_retail_apis.Payment.Ledger.Moves.{transaction_key}
use fiam_retail_apis.Payment.Entities.{BillDetails, Transaction}
use fiam_retail_apis.Payment.Bills.Catalogue.{ProviderBillResult, BillsProvider}

-- The row has a bill with a token.
abbrev pub row_has_token : Option Transaction → Bool
row_has_token none = false
row_has_token (some t) = has_token t.bill

abbrev pub IsTokenKnown : ℕ → Db → Type 0
IsTokenKnown id d = row_has_token (find transaction_key id d.transactions) ≡ true

-- The mails since `db`, of which `id` is to get one.
abbrev pub HasMailed : ℕ → Db → Db → Type 0
HasMailed id db d = d.notices ≡ db.notices ++ (Notice.receipt_email id true ∷ [])

-- What an attempt at the token leaves behind.
abbrev pub FetchEnds : ℕ → Db → Bool → Db → Type 0
FetchEnds id db true d = IsTokenKnown id d × HasMailed id db d
FetchEnds id db false d = d ≡ db

issued_token :
    (r : ProviderBillResult) (bill : BillDetails)
    → not (is_paid r.outcome && is_some (truthy r.token)) ≡ false
    → has_token (some (issue r bill)) ≡ true
issued_token r bill h = token_of r.token h
  where
    token_of :
        (o : Option String)
        → not (is_paid r.outcome && is_some (truthy o)) ≡ false
        → is_some (truthy (or_else o bill.token)) ≡ true
    token_of none k = ground arith
    token_of (some token) k = ground arith

module _ (id : ℕ) (bills : BillsProvider) (db : Db) where
  from :
      {A : Type 0} {Q : A → Db → Type 0} {E : Db → Type 0} {m : M A}
      → Ends Q E (m db)
      → Triple (λ d. d ≡ db) m Q E
  from {Q} {E} {m} h = record { at = λ d q. subst (λ x. Ends Q E (m x)) (sym q) h }

  module _ (t : Transaction) (found : find transaction_key id db.transactions ≡ some t) where
    same_row : t.id ≡ id
    same_row = key-find transaction_key id t db.transactions found

    mailed : HasMailed id db (mail_receipt t.id db).1
    unfolding ◌>>=◌ notify
    mailed = ap (λ i. db.notices ++ (Notice.receipt_email i true ∷ [])) same_row

    -- The row with the token, and its receipt.
    issued_row :
        (r : ProviderBillResult) (bill : BillDetails)
        → has_token (some (issue r bill)) ≡ true
        → FetchEnds id db true
            (mail_receipt t.id
              (update_transaction t.id (λ row. record row { bill = some (issue r bill) }) db).1).1
    unfolding ◌>>=◌ notify update_transaction
    issued_row r bill issued = (
      subst
          (λ i.
            row_has_token (
              find transaction_key id (
                update transaction_key i (λ row. record row { bill = some (issue r bill) })
                  db.transactions))
            ≡ true)
          (sym same_row)
          (ap row_has_token (
              find-update_self transaction_key id (λ row. record row { bill = some (issue r bill) })
                t db.transactions found refl)
            ∙ issued),
      ap (λ i. db.notices ++ (Notice.receipt_email i true ∷ [])) same_row,
    )

    fetch_answer :
        (bill : BillDetails) (answer : Result ProviderBillResult)
        → Triple
            (λ d. d ≡ db)
            (do
              result ← lift answer
              raise_if
                  (not (is_paid result.outcome && is_some (truthy result.token)))
                  token_not_issued
              update_transaction t.id (λ row. record row { bill = some (issue result bill) })
              mail_receipt t.id)
            (FetchEnds id db)
            (λ d. d ≡ db)
    unfolding ◌>>=◌ notify update_transaction
    fetch_answer bill answer =
        lift-bind answer (λ d q. q)
          λ r _.
            raise_if-bind _ _ _ (λ d q. q)
              λ issued. from (issued_row r bill (issued_token r bill issued))

    fetch_with-Ends :
        (o : Option BillDetails)
        → t.bill ≡ o
        → Triple (λ d. d ≡ db) (fetch_with bills t o) (FetchEnds id db) (λ d. d ≡ db)
    unfolding fetch_with pure ◌>>=◌ notify
    fetch_with-Ends none e = record { at = λ d q. q }
    fetch_with-Ends (some bill) e = elim (Bool-cases (has_token (some bill))) [
      | inl known ↦ rw known (from (ap row_has_token found ∙ ap has_token e ∙ known, mailed))
      | inr missing ↦ rw missing (fetch_answer bill (bills.query_bill_status t.reference))
    ]

  fetch_found-Ends :
      (o : Option Transaction)
      → find transaction_key id db.transactions ≡ o
      → Ends (FetchEnds id db) (λ d. d ≡ db) (fetch_token_found bills o db)
  unfolding pure
  fetch_found-Ends none e = refl
  fetch_found-Ends (some t) e = (fetch_with-Ends t e t.bill refl).at db refl

  -- An attempt to fetch the token of a paid bill that throws, or finds no bill, changes nothing; one
  -- that sends the receipt sends it once, and leaves the token on the row.
  pub fetch_token-Ends :
      Ends (FetchEnds id db) (λ d. d ≡ db) (fetch_token_and_send_receipt bills id db)
  unfolding fetch_token_and_send_receipt ◌>>=◌ find_transaction
  fetch_token-Ends = fetch_found-Ends (find transaction_key id db.transactions) refl
