-- ===== src/Payment/Addresses.antt =====
-- `provisionAddress`, `switchProvider` and `insertActiveAddress` of
-- apps/payment/src/wallets/address.service.ts. The account that the provider creates, or its error,
-- is a parameter, and so are the rows that concurrent requests insert first.
pub mod Switched
use fiam_retail_apis.Payment.Store.{
  raise, Error, M, ◌>>=◌, ◌>>◌, pure, or_raise, modify, ok, err, unique_violation, catch, lift,
  transaction, Result, Db, no_active_account,
}
use fiam_retail_apis.Common.{
  ℕ, ◌+◌, String, Bool, true, false, ◌&&◌, ◌||◌, Option, none, some, ◌==◌, text_eq, ◌++◌, ◌∷◌, [],
  if◌then◌else◌, any, update_where,
}
use fiam_retail_apis.Payment.Entities.{
  CurrencyCode, PaymentProviderKey, provider_eq, Wallet, Address,
}
use fiam_retail_apis.Payment.Wallets.{get_or_create_wallet, find_active_for_wallet}

-- The name, the tier and the raw answer are not kept.
pub record ProviderAccount : Type 0 where
  pub provider : PaymentProviderKey
  pub account_number : String

abbrev pub is_active_of : ℕ → Address → Bool
is_active_of wallet a = a.wallet_id == wallet && a.active

abbrev pub is_account : PaymentProviderKey → String → Address → Bool
is_account provider number a =
    provider_eq a.provider provider && text_eq a.provider_account_number number

abbrev pub new_address : ℕ → ProviderAccount → ℕ → Address
new_address wallet account id = record {
  id = id;
  wallet_id = wallet;
  provider = account.provider;
  provider_account_number = account.account_number;
  active = true;
}

-- The unique indexes: on (provider, providerAccountNumber), and on the wallet of an ACTIVE address.
abbrev pub is_refused : Address → Db → Bool
is_refused a db =
    any (is_account a.provider a.provider_account_number) db.addresses
    || any (is_active_of a.wallet_id) db.addresses

abbrev pub append_address : Address → Db → Db
append_address a db = record db { addresses = db.addresses ++ (a ∷ []); next_id = db.next_id + 1 }

unfoldable pub insert_address : (ℕ → Address) → M Address
insert_address make db =
    if is_refused (make db.next_id) db
    then (err unique_violation, db)
    else (ok (make db.next_id), append_address (make db.next_id) db)

-- What a concurrent request inserts, under the same indexes.
abbrev pub commit_account : ℕ → Option ProviderAccount → M (Unit {0})
commit_account wallet none = pure tt
commit_account wallet (some account) = do
  catch (do insert_address (new_address wallet account); pure tt) (λ _. pure tt)

-- The loser of a race reads what the winner wrote. In a transaction, which is the manager, PostgreSQL
-- refuses every statement after the insert that failed, also this read, and the error goes on.
abbrev pub read_winner : Bool → ℕ → Error → M Address
read_winner true wallet e = raise e
read_winner false wallet e = do or_raise (← find_active_for_wallet wallet) no_active_account

abbrev pub insert_active_address : Bool → ℕ → ProviderAccount → M Address
insert_active_address manager wallet account =
    catch (insert_address (new_address wallet account)) (read_winner manager wallet)

abbrev pub provision_found :
    ℕ → Result ProviderAccount → Option ProviderAccount → Option Address → M Address
provision_found wallet created race (some address) = pure address
provision_found wallet created race none = do
  account ← lift created
  commit_account wallet race
  insert_active_address false wallet account

unfoldable pub provision_address :
    ℕ → CurrencyCode → Result ProviderAccount → Option Wallet → Option ProviderAccount → M Address
provision_address user currency created wallet_race race = do
  wallet ← get_or_create_wallet user currency wallet_race
  existing ← find_active_for_wallet wallet.id
  provision_found wallet.id created race existing

abbrev pub deactivate : Address → Address
deactivate a = record a { active = false }

abbrev pub deactivate_of : ℕ → Db → Db
deactivate_of wallet db = record db {
  addresses = update_where (is_active_of wallet) deactivate db.addresses;
}

unfoldable pub switch_provider : ℕ → Result ProviderAccount → M Address
switch_provider wallet created = do
  account ← lift created
  transaction (do modify (deactivate_of wallet); insert_active_address true wallet account)
