-- ===== src/Payment/Beneficiaries.antt =====
-- apps/payment/src/beneficiaries/beneficiaries.service.ts: the recipients that a user has saved.
use fiam_retail_apis.Common.{
  ℕ, ◌+◌, String, Bool, Option, [], ◌∷◌, ◌++◌, ◌&&◌, ◌==◌, if◌then◌else◌, text_eq, find?, any,
  update_where,
}
use fiam_retail_apis.Payment.Entities.{CurrencyCode, PaymentProviderKey, provider_eq, Beneficiary}
use fiam_retail_apis.Payment.Store.{M, ◌>>=◌, ◌>>◌, gets, modify, or_raise, beneficiary_not_found}

unfoldable pub find_owned_by_id : ℕ → ℕ → M Beneficiary
find_owned_by_id user id = do
  found ← gets (λ db. find? (λ b. b.id == id && b.user_id == user) db.beneficiaries)
  or_raise found beneficiary_not_found

pub record UpsertInput : Type 0 where
  pub user_id : ℕ
  pub currency : CurrencyCode
  pub provider : PaymentProviderKey
  pub bank_code : String
  pub bank_name : Option String
  pub account_number : String
  pub account_name : Option String

-- The unique key (userId, provider, bankCode, accountNumber).
unfoldable pub same_recipient : UpsertInput → Beneficiary → Bool
same_recipient i b =
    b.user_id == i.user_id
    && (provider_eq b.provider i.provider
        && (text_eq b.bank_code i.bank_code && text_eq b.account_number i.account_number))

-- `INSERT … ON CONFLICT DO UPDATE`, and the row that is read back.
unfoldable pub upsert : UpsertInput → M Beneficiary
unfolding same_recipient
upsert i = do
  modify (λ db.
      if any (same_recipient i) db.beneficiaries
      then record db {
        beneficiaries =
            update_where (same_recipient i)
              (λ b. record b {
                bank_name = i.bank_name;
                account_name = i.account_name;
                updated_at = db.now;
              })
              db.beneficiaries;
      }
      else record db {
        beneficiaries =
            db.beneficiaries
            ++ (record {
              id = db.next_id;
              user_id = i.user_id;
              currency = i.currency;
              provider = i.provider;
              bank_code = i.bank_code;
              bank_name = i.bank_name;
              account_number = i.account_number;
              account_name = i.account_name;
              updated_at = db.now;
            }
                ∷ []);
        next_id = db.next_id + 1;
      })
  found ← gets (λ db. find? (same_recipient i) db.beneficiaries)
  or_raise found beneficiary_not_found
