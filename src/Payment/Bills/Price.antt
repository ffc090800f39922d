-- ===== src/Payment/Bills/Price.antt =====
-- What is bought comes from the provider's catalogue, and nothing is written before the money is
-- taken.
use fiam_retail_apis.Common.{
  ◌∙◌, ap, pad_start, join, String, find?, none, option_bind, false, List, some, Option, ℕ, ◌≡◌,
  refl,
}
use fiam_retail_apis.Payment.Ledger.{Ends, Keeps, Triple}
use fiam_retail_apis.Payment.Store.{
  Error, raise, unknown_biller, pure, amount_not_positive, or_raise, ok, ◌>>=◌, M, Db,
}
use fiam_retail_apis.Payment.Ledger.Rules.{
  Triple-weaken, fact-bind, Triple-bind, lift-bind, or_raise-bind, raise_if-bind,
}
use fiam_retail_apis.Payment.Ledger.Keeping.{
  Keeps-or_raise, Keeps-gets, keeps_rules, Keeps-lift, after,
}
use fiam_retail_apis.Payment.Payouts.InitiateBooks.{generate_from-Keeps}
use fiam_retail_apis.Payment.Bills.Catalogue.{
  BillsProvider, assert_biller_rules, amount_of, validate_holder, calculate_bill_fees, price_of,
  is_item, ProviderBillItem, is_biller, cached, ProviderBiller, differs, BillerKey, amount_for,
  resolve_biller,
}
use fiam_retail_apis.Payment.Bills.Pay.{
  generate_bill_reference, key_of, Purchase, prepare, PayBillDto, BillsOutside,
}
use fiam_retail_apis.Common.Int.{positive, ℤ}
use fiam_retail_apis.Payment.Wallets.{find_active_for_wallet, find_by_user_and_currency}

-- The amount is the item's own price, and the customer named no other one; without a price of its
-- own it is what the customer asked for.
abbrev pub IsAmountOf : Option ℕ → Option ℤ → ℕ → Type 0
IsAmountOf (some price) asked amount = (amount ≡ price) × (differs asked price ≡ false)
IsAmountOf none asked amount = option_bind positive asked ≡ some amount

-- A purchase as the catalogue and the request have it.
pub record IsPriced (o : BillsOutside) (dto : PayBillDto) (p : Purchase) : Type 0 where
  pub billers : List ProviderBiller
  pub listed : cached o.cached_billers (o.bills.list_billers none) ≡ ok billers
  pub biller : find? (is_biller (key_of dto)) billers ≡ some p.biller
  pub items : List ProviderBillItem
  pub sold : o.bills.list_bill_items (key_of dto) ≡ ok items
  pub item : find? (is_item dto.payment_item) items ≡ some p.item
  pub amount : IsAmountOf (price_of p.item) dto.amount p.amount
  pub fee : p.fee ≡ (calculate_bill_fees p.biller o.service_fee).total

-- These only read.
module _ {P : Db → Type 0} where
  biller_rules-Keeps :
      (biller : ProviderBiller) (item : ProviderBillItem) (amount : ℕ) (phone : Option String)
      → Keeps P (assert_biller_rules biller item amount phone)
  unfolding assert_biller_rules
  biller_rules-Keeps biller item amount phone = search keeps_rules

  validate_holder-Keeps :
      (bills : BillsProvider) (biller : ProviderBiller) (customer : String) (key : BillerKey)
      (item : String)
      → Keeps P (validate_holder bills biller customer key item)
  unfolding validate_holder
  validate_holder-Keeps bills biller customer key item = search keeps_rules

  generate_bill_reference-Keeps : (o : BillsOutside) → Keeps P (generate_bill_reference o)
  unfolding generate_bill_reference
  generate_bill_reference-Keeps o =
      generate_from-Keeps
        (λ attempt. join o.wallet_name (join "-B" (pad_start 9 (o.random_int attempt))))
        o.provider_key 10 0

-- A block that only reads: it leaves the state as it was, and its value has a property.
abbrev pub Reads : {A : Type 0} → Db → (A → Type 0) → M A → Type 0
Reads db F m = Triple (λ d. d ≡ db) m (λ a d. (d ≡ db) × F a) (λ d. d ≡ db)

module _ (db : Db) where
  or_raise-Reads :
      {A : Type 0} (o : Option A) (e : Error) → Reads db (λ a. o ≡ some a) (or_raise o e)
  unfolding or_raise pure raise
  or_raise-Reads none e = record { at = λ d q. q }
  or_raise-Reads (some a) e = record { at = λ d q. (q, refl) }

  amount_for-Reads :
      (price : Option ℕ) (asked : Option ℤ)
      → Reads db (IsAmountOf price asked) (amount_for price asked)
  unfolding pure
  amount_for-Reads (some price) asked =
      raise_if-bind _ _ _ (λ d q. q) λ agrees. record { at = λ d q. (q, (refl, agrees)) }
  amount_for-Reads none asked =
      or_raise-bind _ _ (λ d q. q)
        λ figure e.
          Triple-weaken (λ d. d ≡ db) (λ a d. (d ≡ db) × (positive figure ≡ some a)) (λ d. d ≡ db)
            (or_raise-Reads (positive figure) amount_not_positive) (λ d q. q)
            (λ a d q. (q.0, ap (option_bind positive) e ∙ q.1)) (λ d q. q)

  -- A step whose value is of no further interest.
  step :
      {A B : Type 0} {F : B → Type 0} {m : M A} (f : A → M B)
      → Keeps (λ d. d ≡ db) m
      → ((a : A) → Reads db F (f a))
      → Reads db F (m >>= f)
  step f h k = after f (λ d q. q) h k

  abbrev IsListed : BillsOutside → BillerKey → ProviderBiller → Type 0
  IsListed o key b =
      (billers : List ProviderBiller) × ((cached o.cached_billers (o.bills.list_billers none)
          ≡ ok billers)
        × (find? (is_biller key) billers ≡ some b))

  resolve_biller-Reads :
      (o : BillsOutside) (key : BillerKey)
      → Reads db (IsListed o key) (resolve_biller o.cached_billers o.bills key)
  unfolding resolve_biller
  resolve_biller-Reads o key =
      lift-bind _ (λ d q. q)
        λ billers listed.
          Triple-weaken (λ d. d ≡ db) (λ b d. (d ≡ db) × (find? (is_biller key) billers ≡ some b))
            (λ d. d ≡ db) (or_raise-Reads (find? (is_biller key) billers) unknown_biller) (λ d q. q)
            (λ b d q. (q.0, (billers, (listed, q.1)))) (λ d q. q)

  pub prepare-Reads :
      (o : BillsOutside) (user : ℕ) (dto : PayBillDto)
      → Reads db (λ p. IsPriced o dto p.0) (prepare o user dto)
  unfolding prepare find_by_user_and_currency find_active_for_wallet amount_of pure
  prepare-Reads o user dto = step _ (Keeps-lift _) λ grant.
      Triple-bind _ (resolve_biller-Reads o (key_of dto)) λ biller. fact-bind λ listed.
        lift-bind _ (λ d q. q)
          λ items sold.
            or_raise-bind _ _ (λ d q. q)
              λ item named. Triple-bind _ (amount_for-Reads (price_of item) dto.amount) λ amount.
                fact-bind λ priced. step _ (biller_rules-Keeps biller item amount _) λ _.
                  step _ (validate_holder-Keeps _ _ _ _ _) λ holder. step _ (Keeps-gets _) λ found_.
                    step _ (Keeps-or_raise _ _) λ wallet. step _ (Keeps-gets _) λ active.
                      step _ (Keeps-or_raise _ _) λ account.
                        step _ (generate_bill_reference-Keeps o) λ reference. record {
                          at = λ d q. (
                            q,
                            record {
                              billers = listed.0;
                              listed = listed.1.0;
                              biller = listed.1.1;
                              items = items;
                              sold = sold;
                              item = named;
                              amount = priced;
                              fee = refl;
                            },
                          );
                        }

-- What a bill payment asks for before the money is taken changes nothing, whether it throws or
-- not; if it does not, the biller and the item are those of the provider's lists under the ids of
-- the request, the amount is the item's fixed price, with which the customer's figure agrees if
-- there is one, or a positive figure of the customer's for an item without one, and the fee is the
-- biller's.
pub prepare-IsPriced :
    (o : BillsOutside) (user : ℕ) (dto : PayBillDto) (db : Db)
    → Ends (λ p d. (d ≡ db) × IsPriced o dto p.0) (λ d. d ≡ db) (prepare o user dto db)
prepare-IsPriced o user dto db = (prepare-Reads db o user dto).at db refl
