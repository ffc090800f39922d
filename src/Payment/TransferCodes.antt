-- ===== src/Payment/TransferCodes.antt =====
-- apps/payment/src/providers/vfd/vfd-transfer-codes.ts: how an answer of the VFD bank is read.
-- The descriptions of the codes are not modelled.
pub mod Refunds
use fiam_retail_apis.Common.{
  none, some, [], ◌∷◌, text_eq, [], ◌∷◌, Bool, false, if◌then◌else◌, List, true, String, Option,
  truthy,
}
use fiam_retail_apis.Payment.Provider.{TransferOutcome, successful, failed, hold, requery}

pub data VfdOutcomeCategory : Type 0 where
  category_successful category_failed category_pending : VfdOutcomeCategory

pub data VfdReversalInstruction : Type 0 where
  reverse no_debit no_reversal none_yet : VfdReversalInstruction

pub record VfdCodeClassification : Type 0 where
  pub category : VfdOutcomeCategory
  pub tsq_required : Bool
  pub reversal : VfdReversalInstruction

abbrev pub entry : VfdOutcomeCategory → VfdReversalInstruction → Bool → VfdCodeClassification
entry category reversal tsq_required = record {
  category = category;
  tsq_required = tsq_required;
  reversal = reversal;
}

abbrev pub Codes : Type 0
Codes = List (String × VfdCodeClassification)

abbrev pub transfer_response_codes : Codes
transfer_response_codes =
    ("00", entry category_successful none_yet false)
    ∷ ("99", entry category_failed no_debit false)
    ∷ ("02", entry category_failed no_debit false)
    ∷ ("98", entry category_failed no_debit true)
    ∷ ("500", entry category_pending none_yet true)
    ∷ []

abbrev pub unknown_transfer_response : VfdCodeClassification
unknown_transfer_response = entry category_pending none_yet true

-- `TABLE[code] ?? unknown`
abbrev pub classify : Codes → VfdCodeClassification → String → VfdCodeClassification
classify [] unknown code = unknown
classify ((k, c) ∷ rest) unknown code = if text_eq k code then c else classify rest unknown code

-- `if (!code) return unknown`, and the empty string is falsy.
abbrev pub look_up : Codes → VfdCodeClassification → Option String → VfdCodeClassification
look_up codes unknown none = unknown
look_up codes unknown (some code) = classify codes unknown code

unfoldable pub classify_vfd_transfer_response : Option String → VfdCodeClassification
classify_vfd_transfer_response status =
    look_up transfer_response_codes unknown_transfer_response (truthy status)

abbrev pub transaction_status_codes : Codes
transaction_status_codes =
    ("00", entry category_successful none_yet false)
    ∷ ("01", entry category_pending none_yet true)
    ∷ ("02", entry category_pending none_yet true)
    ∷ ("03", entry category_failed reverse false)
    ∷ ("05", entry category_failed reverse false)
    ∷ ("06", entry category_failed reverse false)
    ∷ ("07", entry category_failed reverse false)
    ∷ ("08", entry category_failed reverse false)
    ∷ ("09", entry category_pending none_yet true)
    ∷ ("12", entry category_failed reverse false)
    ∷ ("13", entry category_failed reverse false)
    ∷ ("14", entry category_failed reverse false)
    ∷ ("15", entry category_failed reverse false)
    ∷ ("16", entry category_failed reverse false)
    ∷ ("17", entry category_failed reverse false)
    ∷ ("18", entry category_failed reverse false)
    ∷ ("21", entry category_failed reverse false)
    ∷ ("25", entry category_pending none_yet true)
    ∷ ("26", entry category_successful none_yet false)
    ∷ ("30", entry category_failed reverse false)
    ∷ ("34", entry category_failed no_reversal false)
    ∷ ("35", entry category_failed no_reversal false)
    ∷ ("51", entry category_failed no_debit false)
    ∷ ("57", entry category_failed reverse false)
    ∷ ("58", entry category_failed reverse false)
    ∷ ("61", entry category_failed reverse false)
    ∷ ("63", entry category_failed no_reversal false)
    ∷ ("65", entry category_failed reverse false)
    ∷ ("68", entry category_failed reverse false)
    ∷ ("69", entry category_failed reverse false)
    ∷ ("70", entry category_failed reverse false)
    ∷ ("71", entry category_failed reverse false)
    ∷ ("81", entry category_failed reverse false)
    ∷ ("91", entry category_failed reverse true)
    ∷ ("92", entry category_failed reverse false)
    ∷ ("94", entry category_pending none_yet true)
    ∷ ("96", entry category_pending none_yet true)
    ∷ ("97", entry category_failed reverse false)
    ∷ ("98", entry category_failed no_debit true)
    ∷ ("99", entry category_failed no_debit false)
    ∷ ("500", entry category_pending none_yet true)
    ∷ []

abbrev pub unknown_transaction_status : VfdCodeClassification
unknown_transaction_status = entry category_failed reverse true

unfoldable pub classify_vfd_transaction_status : Option String → VfdCodeClassification
classify_vfd_transaction_status code =
    look_up transaction_status_codes unknown_transaction_status (truthy code)

-- A TSQ that is required always wins; then the category; a failure that must not be reversed is
-- held.
unfoldable pub resolve_vfd_outcome : VfdCodeClassification → TransferOutcome
resolve_vfd_outcome c = if c.tsq_required then requery else elim c.category [
  | category_successful ↦ successful
  | category_failed ↦ elim c.reversal [ no_reversal ↦ hold | _ ↦ failed ]
  | category_pending ↦ requery
]
