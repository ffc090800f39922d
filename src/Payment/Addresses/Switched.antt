-- ===== src/Payment/Addresses/Switched.antt =====
-- A wallet has at most one active address, and a switch that fails leaves the one it has.
use fiam_retail_apis.Payment.Store.{M, modify, Db, ◌>>◌}
use fiam_retail_apis.Payment.Addresses.{
  insert_active_address, ProviderAccount, is_active_of, new_address, deactivate_of,
}
use fiam_retail_apis.Payment.Entities.{Address}
use fiam_retail_apis.Common.{ℕ, ◌≤◌, true, count_where}

abbrev pub IsSingle : Db → Type 0
IsSingle db = (wallet : ℕ) → count_where (is_active_of wallet) db.addresses ≤ 1

-- A switch, by what its insert answers.
module _ (wallet : ℕ) (account : ProviderAccount) (db : Db) where
  abbrev make : ℕ → Address
  make = new_address wallet account

  abbrev switch_body : M Address
  switch_body = do modify (deactivate_of wallet); insert_active_address true wallet account
