-- ===== src/Payment/Ledger/Moves.antt =====
-- What each write does to the books of a wallet.
use fiam_retail_apis.Common.{
  ℕ, ◌+◌, ◌≡◌, some, List, [], ◌∷◌, ◌++◌, arith, if◌then◌else◌, ◌==◌, sum_by-append,
}
use fiam_retail_apis.Common.Table.{find, update, sum_by-update}
use fiam_retail_apis.Payment.Entities.{Wallet, Transaction}
use fiam_retail_apis.Payment.Ledger.{balance_of, spent_of, received_of, spent, received}

abbrev pub wallet_key : Wallet → ℕ
wallet_key w = w.id

abbrev pub transaction_key : Transaction → ℕ
transaction_key t = t.id

pub balance_of-found :
    (id : ℕ) (x : Wallet) (ws : List Wallet)
    → find wallet_key id ws ≡ some x
    → balance_of id ws ≡ x.balance
balance_of-found id x [] h = ground arith
balance_of-found id x (y ∷ ws) h = ground (arith, balance_of-found id x ws)

pub balance_of-update :
    (w id b : ℕ) (x : Wallet) (ws : List Wallet)
    → find wallet_key id ws ≡ some x
    → balance_of w (update wallet_key id (λ y. record y { balance = b }) ws)
      ≡ (if id == w then b else balance_of w ws)
balance_of-update w id b x [] h = ground arith
balance_of-update w id b x (y ∷ ws) h = ground (arith, balance_of-update w id b x ws)

pub spent-insert :
    (w : ℕ) (t : Transaction) (txs : List Transaction)
    → spent w (txs ++ (t ∷ [])) ≡ spent w txs + spent_of w t
unfolding spent
spent-insert w t txs = omega (arith, sum_by-append (spent_of w) txs (t ∷ []))

pub received-insert :
    (w : ℕ) (t : Transaction) (txs : List Transaction)
    → received w (txs ++ (t ∷ [])) ≡ received w txs + received_of w t
unfolding received
received-insert w t txs = omega (arith, sum_by-append (received_of w) txs (t ∷ []))

pub spent-update :
    (w id : ℕ) (f : Transaction → Transaction) (t : Transaction) (txs : List Transaction)
    → find transaction_key id txs ≡ some t
    → spent w (update transaction_key id f txs) + spent_of w t ≡ spent w txs + spent_of w (f t)
unfolding spent
spent-update w id f t txs h = sum_by-update transaction_key (spent_of w) id f t txs h

pub received-update :
    (w id : ℕ) (f : Transaction → Transaction) (t : Transaction) (txs : List Transaction)
    → find transaction_key id txs ≡ some t
    → received w (update transaction_key id f txs) + received_of w t
      ≡ received w txs + received_of w (f t)
unfolding received
received-update w id f t txs h = sum_by-update transaction_key (received_of w) id f t txs h
