-- ===== src/Payment/TransferCodes/Refunds.antt =====
-- When the outcome of a code lets money go back to the customer.
use fiam_retail_apis.Payment.TransferCodes.{
  look_up, unknown_transaction_status, unknown_transfer_response, transaction_status_codes,
  classify, category_failed, requery, no_reversal, transfer_response_codes,
  classify_vfd_transaction_status, Codes, VfdCodeClassification, VfdReversalInstruction,
  VfdOutcomeCategory, classify_vfd_transfer_response, resolve_vfd_outcome,
}
use fiam_retail_apis.Common.{
  text_eq, refl, truthy, none, some, [], ◌∷◌, arith, ◌&&◌, false, not, true, Bool, ◌≡◌, Option,
  String, if◌then◌else◌,
}
use mathlib.Core.Path.{ap}
use fiam_retail_apis.Payment.Payouts.Requery.{is_failure}

abbrev pub is_failed_category : VfdOutcomeCategory → Bool
is_failed_category category_failed = true
is_failed_category _ = false

abbrev pub is_no_reversal : VfdReversalInstruction → Bool
is_no_reversal no_reversal = true
is_no_reversal _ = false

-- The outcome of a classification is FAILED exactly where its category is FAILED, its instruction
-- is not NO_REVERSAL and it needs no status query.
pub resolve_vfd_outcome-failed :
    (c : VfdCodeClassification)
    → is_failure (resolve_vfd_outcome c)
      ≡ (not c.tsq_required && (is_failed_category c.category && not (is_no_reversal c.reversal)))
unfolding resolve_vfd_outcome
resolve_vfd_outcome-failed c = ground arith

abbrev has_code : String → Codes → Bool
has_code code [] = false
has_code code ((k, c) ∷ rest) = if text_eq k code then true else has_code code rest

classify-unknown :
    (codes : Codes) (unknown : VfdCodeClassification) (code : String)
    → has_code code codes ≡ false
    → classify codes unknown code ≡ unknown
classify-unknown [] unknown code h = refl
classify-unknown ((k, c) ∷ rest) unknown code h = ground (arith, classify-unknown rest unknown code)

abbrev pub is_known : Codes → Option String → Bool
is_known codes none = false
is_known codes (some code) = has_code code codes

look_up-unknown :
    (codes : Codes) (unknown : VfdCodeClassification) (code : Option String)
    → is_known codes code ≡ false
    → look_up codes unknown code ≡ unknown
look_up-unknown codes unknown none h = refl
look_up-unknown codes unknown (some code) h = classify-unknown codes unknown code h

-- A response of /transfer, and a status of the TSQ, that is missing, empty or not in its table is
-- queried again: it is neither a success nor a failure that is refunded.
pub unknown-requery :
    (response status : Option String)
    → is_known transfer_response_codes (truthy response) ≡ false
    → is_known transaction_status_codes (truthy status) ≡ false
    → (resolve_vfd_outcome (classify_vfd_transfer_response response) ≡ requery)
      × (resolve_vfd_outcome (classify_vfd_transaction_status status) ≡ requery)
unfolding classify_vfd_transfer_response classify_vfd_transaction_status resolve_vfd_outcome
unknown-requery response status h k = (
  ap resolve_vfd_outcome
      (look_up-unknown transfer_response_codes unknown_transfer_response (truthy response) h),
  ap resolve_vfd_outcome
      (look_up-unknown transaction_status_codes unknown_transaction_status (truthy status) k),
)

-- A code of the provider is a definite failure, which is refunded, exactly where its category is
-- FAILED, its instruction is not NO_REVERSAL and it needs no status query; a response of /transfer
-- and a status of the TSQ that are missing, empty or not in their table are queried again: they are
-- neither a success nor a failure.
pub resolve_vfd_outcome-refunds :
    (c : VfdCodeClassification) (response status : Option String)
    → is_known transfer_response_codes (truthy response) ≡ false
    → is_known transaction_status_codes (truthy status) ≡ false
    → (is_failure (resolve_vfd_outcome c) ≡ (
        not c.tsq_required && (is_failed_category c.category && not (is_no_reversal c.reversal))))
      × ((resolve_vfd_outcome (classify_vfd_transfer_response response) ≡ requery)
          × (resolve_vfd_outcome (classify_vfd_transaction_status status) ≡ requery))
resolve_vfd_outcome-refunds c response status h k =
    (resolve_vfd_outcome-failed c, unknown-requery response status h k)
