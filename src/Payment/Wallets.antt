-- ===== src/Payment/Wallets.antt =====
-- apps/payment/src/wallets/wallets.service.ts and address.service.ts: finding wallets and
-- addresses, and the two balance changes, each under the lock of the wallet's row.
use fiam_retail_apis.Common.{
  ℕ, ◌+◌, ◌-◌, String, ◌&&◌, Option, none, some, ltb, find?, ◌==◌, text_eq, ◌++◌, ◌∷◌, [],
  if◌then◌else◌, any,
}
use fiam_retail_apis.Payment.Entities.{
  CurrencyCode, currency_eq, PaymentProviderKey, provider_eq, Wallet, Address,
}
use fiam_retail_apis.Payment.Store.{
  M, ◌>>=◌, ◌>>◌, pure, gets, or_raise, raise_if, wallet_not_found, insufficient_balance,
  find_wallet, set_balance, modify, ok, err, unique_violation, catch,
}

unfoldable pub find_by_user_and_currency : ℕ → CurrencyCode → M (Option Wallet)
find_by_user_and_currency user currency =
    gets (λ db. find? (λ w. w.user_id == user && currency_eq w.currency currency) db.wallets)

unfoldable pub find_active_for_wallet : ℕ → M (Option Address)
find_active_for_wallet wallet =
    gets (λ db. find? (λ a. a.wallet_id == wallet && a.active) db.addresses)

unfoldable pub find_active_by_provider_account_number :
    PaymentProviderKey → String → M (Option Address)
find_active_by_provider_account_number provider number = gets (λ db.
    find?
      (λ a.
        provider_eq a.provider provider && (text_eq a.provider_account_number number && a.active))
      db.addresses)

unfoldable pub credit_for_update : ℕ → ℕ → M Wallet
credit_for_update id amount = do
  wallet ← or_raise (← find_wallet id) wallet_not_found
  set_balance id (wallet.balance + amount)
  pure (record wallet { balance = wallet.balance + amount })

unfoldable pub debit_for_update : ℕ → ℕ → M Wallet
debit_for_update id amount = do
  wallet ← or_raise (← find_wallet id) wallet_not_found
  raise_if (ltb wallet.balance amount) insufficient_balance
  set_balance id (wallet.balance - amount)
  pure (record wallet { balance = wallet.balance - amount })

-- A concurrent request may insert its row between the read and the insert.
abbrev pub commit_wallet : Option Wallet → M (Unit {0})
commit_wallet none = pure tt
commit_wallet (some w) = modify (λ db. record db { wallets = db.wallets ++ (w ∷ []) })

-- The insert, which the unique index on (userId, currency) refuses where the row is there.
abbrev pub insert_wallet : ℕ → CurrencyCode → M Wallet
insert_wallet user currency db =
    if any (λ (w : Wallet). w.user_id == user && currency_eq w.currency currency) db.wallets
    then (err unique_violation, db)
    else let w : Wallet = record {
      id = db.next_id;
      user_id = user;
      currency = currency;
      balance = 0;
    } in
      (ok w, record db { wallets = db.wallets ++ (w ∷ []); next_id = db.next_id + 1 })

-- The loser of a race reads what the winner wrote; `race` is the winner's row, if there is one.
abbrev pub get_wallet : ℕ → CurrencyCode → M Wallet
get_wallet user currency = do or_raise (← find_by_user_and_currency user currency) wallet_not_found

abbrev pub or_create : ℕ → CurrencyCode → Option Wallet → Option Wallet → M Wallet
or_create user currency race (some wallet) = pure wallet
or_create user currency race none = do
  commit_wallet race
  catch (insert_wallet user currency) (λ _. get_wallet user currency)

unfoldable pub get_or_create_wallet : ℕ → CurrencyCode → Option Wallet → M Wallet
unfolding find_by_user_and_currency
get_or_create_wallet user currency race = do
  existing ← find_by_user_and_currency user currency
  or_create user currency race existing
