-- ===== src/Payment/Bills/Recipients.antt =====
-- apps/payment/src/bills/bill-beneficiaries.service.ts: the numbers and meters that a user has paid
-- for. The list, a read-only query, is not modelled.
use fiam_retail_apis.Common.{
  trim, truthy, ℕ, ◌+◌, String, Bool, true, false, none, some, [], ◌∷◌, ◌++◌, ◌&&◌, not, ◌==◌,
  if◌then◌else◌, text_eq, find?, any, update_where,
}
use fiam_retail_apis.Common.Table.{update}
use fiam_retail_apis.Payment.Entities.{BillDetails, BillBeneficiary}
use fiam_retail_apis.Payment.Store.{
  M, ◌>>=◌, ◌>>◌, pure, gets, modify, or_raise, beneficiary_not_found,
}
use fiam_retail_apis.Payment.Bills.Catalogue.{bill_type_from_category}

-- The unique key (userId, billerId, division, productId, customerId).
abbrev pub is_recipient : ℕ → BillDetails → BillBeneficiary → Bool
is_recipient user bill b =
    b.user_id == user
    && (text_eq b.biller_id bill.biller_id
        && (text_eq b.division bill.division
            && (text_eq b.product_id bill.product_id && text_eq b.customer_id bill.customer_id)))

abbrev pub paid_again : BillDetails → ℕ → ℕ → BillBeneficiary → BillBeneficiary
paid_again bill amount now b = record b {
  biller_name = bill.biller_name;
  bill_type = bill_type_from_category bill.category;
  last_payment_item = bill.payment_item;
  last_payment_item_name = bill.payment_item_name;
  last_amount = amount;
  pay_count = b.pay_count + 1;
  last_paid_at = now;
  updated_at = now;
}

abbrev pub first_paid : ℕ → BillDetails → ℕ → ℕ → ℕ → BillBeneficiary
first_paid user bill amount now id = record {
  id = id;
  user_id = user;
  bill_type = bill_type_from_category bill.category;
  biller_id = bill.biller_id;
  biller_name = bill.biller_name;
  division = bill.division;
  product_id = bill.product_id;
  customer_id = bill.customer_id;
  nickname = none;
  last_payment_item = bill.payment_item;
  last_payment_item_name = bill.payment_item_name;
  last_amount = amount;
  pay_count = 1;
  last_paid_at = now;
  dismissed = false;
  updated_at = now;
}

-- `INSERT … ON CONFLICT DO UPDATE`
unfoldable pub record_success : ℕ → BillDetails → ℕ → M (Unit {0})
record_success user bill amount = modify (λ db.
    if any (is_recipient user bill) db.bill_beneficiaries
    then record db {
      bill_beneficiaries =
          update_where (is_recipient user bill) (paid_again bill amount db.now)
            db.bill_beneficiaries;
    }
    else record db {
      bill_beneficiaries =
          db.bill_beneficiaries ++ (first_paid user bill amount db.now db.next_id ∷ []);
      next_id = db.next_id + 1;
    })

abbrev pub recipient_key : BillBeneficiary → ℕ
recipient_key b = b.id

unfoldable pub find_owned : ℕ → ℕ → M BillBeneficiary
find_owned user id = do
  found ← gets (λ db.
      find? (λ (b : BillBeneficiary). b.id == id && (b.user_id == user && not b.dismissed))
        db.bill_beneficiaries)
  or_raise found beneficiary_not_found

abbrev pub update_recipient : ℕ → (BillBeneficiary → BillBeneficiary) → M (Unit {0})
update_recipient id f =
    modify
      (λ db. record db { bill_beneficiaries = update recipient_key id f db.bill_beneficiaries })

-- A blank nickname clears it.
unfoldable pub rename : ℕ → ℕ → String → M BillBeneficiary
rename user id nickname = do
  found ← find_owned user id
  let named = record found { nickname = truthy (some (trim nickname)) }
  update_recipient id (λ _. named)
  pure named

unfoldable pub dismiss : ℕ → ℕ → M (Unit {0})
dismiss user id = do
  found ← find_owned user id
  update_recipient found.id (λ b. record b { dismissed = true; nickname = none })
