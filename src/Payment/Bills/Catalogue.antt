-- ===== src/Payment/Bills/Catalogue.antt =====
-- apps/payment/src/providers/bills-provider.interface.ts, bills/bill-fee.ts, bills/biller-rules.ts
-- and bills/customer-phone.ts, and the catalogue and the price of bills/bills.service.ts. The
-- catalogue's prices and fees are decimals at the scale of the amounts.
use fiam_retail_apis.Payment.Store.{
  below_minimum, amount_not_positive, phone_required, amount_required, customer_not_verified,
  item_price, ◌>>◌, unknown_biller, M, Result, ok, ◌>>=◌, pure, raise_if, or_raise, lift,
}
use fiam_retail_apis.Common.{
  ltb, ends_word, is_some, ◌∷◌, trim, ◌==◌, anything, option_map, find?, text_eq, lower_is, get_or,
  has_words, option_bind, truthy, has_word, ℕ, ◌+◌, String, Bool, true, false, ◌&&◌, ◌||◌, not,
  Option, none, some, List, if◌then◌else◌,
}
use fiam_retail_apis.Common.Int.{negsuc, pos, ℤ, positive}
use fiam_retail_apis.Payment.Entities.{BillType, Labelled, naira}

pub record BillerKey : Type 0 where
  pub id : String
  pub division : String
  pub product : String

pub record ProviderBiller : Type 0 where
  pub id : String
  pub name : String
  pub division : String
  pub product : String
  pub category : String
  pub convenience_fee : Option ℕ

pub record ProviderBillItem : Type 0 where
  pub payment_code : String
  pub name : String
  pub amount : Option ℤ
  pub is_amount_fixed : Bool
  pub product_id : Option String
  pub division : Option String

pub record ProviderCustomerValidation : Type 0 where
  pub valid : Bool
  pub name : Option String
  pub address : Option String
  pub details : List Labelled

pub record ProviderBillPayInput : Type 0 where
  pub customer_id : String
  pub amount : ℕ
  pub biller : BillerKey
  pub payment_item : String
  pub reference : String
  pub phone_number : Option String

pub data BillOutcome : Type 0 where
  bill_successful bill_failed bill_requery : BillOutcome

-- A list of details that is missing is an empty one.
pub record ProviderBillResult : Type 0 where
  pub outcome : BillOutcome
  pub provider_status_code : Option String
  pub token : Option String
  pub extra_tokens : List Labelled
  pub details : List Labelled
  pub raw_payload : Option String

-- A call that throws is an `err`.
pub record BillsProvider : Type 0 where
  pub list_billers : Option String → Result (List ProviderBiller)
  pub list_bill_items : BillerKey → Result (List ProviderBillItem)
  pub validate_bill_customer : String → BillerKey → String → Result ProviderCustomerValidation
  pub pay_bill : ProviderBillPayInput → Result ProviderBillResult
  pub query_bill_status : String → Result ProviderBillResult

-- `billTypeFromCategory`
unfoldable pub bill_type_from_category : String → BillType
bill_type_from_category category =
    let is = lower_is (trim category) in
    if is "airtime"
    then BillType.airtime
    else if is "data"
    then BillType.mobile_data
    else if is "cable tv"
    then BillType.cable_tv
    else if is "utility"
    then BillType.utility
    else if is "internet subscription"
    then BillType.internet
    else if is "betting" || is "gaming"
    then BillType.betting
    else BillType.other

-- FEE_FREE_TYPES
abbrev pub is_fee_free : BillType → Bool
is_fee_free BillType.airtime = true
is_fee_free BillType.mobile_data = true
is_fee_free _ = false

pub record BillFees : Type 0 where
  pub convenience_fee : ℕ
  pub service_fee : ℕ
  pub total : ℕ

unfoldable pub calculate_bill_fees : ProviderBiller → ℕ → BillFees
calculate_bill_fees biller configured =
    let convenience = get_or biller.convenience_fee 0 in
    let service = if is_fee_free (bill_type_from_category biller.category) then 0 else configured in
    record { convenience_fee = convenience; service_fee = service; total = convenience + service }

-- `matches`, for a single word and for a word before another.
abbrev pub matches_word : String → ProviderBiller → Bool
matches_word word biller = has_word word biller.id || has_word word biller.name

abbrev pub matches_electric : String → ProviderBiller → Bool
matches_electric place biller =
    has_words place "electric" anything biller.id || has_words place "electric" anything biller.name

-- `x?.trim()` when it is not ""
abbrev pub trimmed : Option String → Option String
trimmed o = truthy (option_map trim o)

unfoldable pub assert_biller_rules :
    ProviderBiller → ProviderBillItem → ℕ → Option String → M (Unit {0})
assert_biller_rules biller item amount phone = do
  raise_if
      ((matches_word "ikedc" biller || matches_electric "ikeja" biller)
        && not (is_some (trimmed phone)))
      phone_required
  raise_if
      ((matches_word "ibedc" biller || matches_electric "ibadan" biller)
        && (has_words "band" "a" ends_word item.name && ltb amount (naira 5000)))
      below_minimum

-- `cached`: what Redis holds, if it is a list with entries, and otherwise a new load.
abbrev pub cached : {A : Type 0} → Option (List A) → Result (List A) → Result (List A)
cached (some (x ∷ xs)) load = ok (x ∷ xs)
cached _ load = load

abbrev pub is_item : String → ProviderBillItem → Bool
is_item code item = text_eq item.payment_code code

abbrev pub is_biller : BillerKey → ProviderBiller → Bool
is_biller key b =
    text_eq b.id key.id && (text_eq b.division key.division && text_eq b.product key.product)

-- `listBillers()` without a category, and `resolveBiller`.
unfoldable pub resolve_biller :
    Option (List ProviderBiller) → BillsProvider → BillerKey → M ProviderBiller
resolve_biller cache bills key = do
  billers ← lift (cached cache (bills.list_billers none))
  or_raise (find? (is_biller key) billers) unknown_biller

-- The price of a fixed-price item, if the item has one.
abbrev pub price_of : ProviderBillItem → Option ℕ
price_of item = if item.is_amount_fixed then option_bind positive item.amount else none

abbrev pub differs : Option ℤ → ℕ → Bool
differs none price = false
differs (some (pos n)) price = not (n == price)
differs (some (negsuc n)) price = true

-- What is paid: the price of the item, or the customer's own figure.
abbrev pub amount_for : Option ℕ → Option ℤ → M ℕ
amount_for (some price) asked = do raise_if (differs asked price) item_price; pure price
amount_for none asked = do
  figure ← or_raise asked amount_required
  or_raise (positive figure) amount_not_positive

unfoldable pub amount_of : ProviderBillItem → Option ℤ → M ℕ
amount_of item asked = amount_for (price_of item) asked

-- VALIDATION_REQUIRED_CATEGORIES
unfoldable pub needs_validation : ProviderBiller → Bool
needs_validation biller =
    lower_is biller.category "utility"
    || (lower_is biller.category "cable tv"
        || (lower_is biller.category "betting" || lower_is biller.category "gaming"))

-- The holder's name and address, where the category asks for them.
unfoldable pub validate_holder :
    BillsProvider → ProviderBiller → String → BillerKey → String → M (Option String × Option String)
validate_holder bills biller customer key item =
    if needs_validation biller
    then (do
      found ← lift (bills.validate_bill_customer customer key item)
      raise_if (not found.valid) customer_not_verified
      pure (found.name, found.address))
    else pure (none, none)

pub record ValidatedCustomer : Type 0 where
  pub customer_id : String
  pub customer_name : Option String
  pub customer_address : Option String
  pub customer_details : List Labelled

unfoldable pub validate_customer :
    Option (List ProviderBiller) → BillsProvider → String → BillerKey → String → M ValidatedCustomer
validate_customer cache bills customer key item = do
  resolve_biller cache bills key
  found ← lift (bills.validate_bill_customer customer key item)
  raise_if (not found.valid) customer_not_verified
  pure (record {
    customer_id = customer;
    customer_name = found.name;
    customer_address = found.address;
    customer_details = found.details;
  })
