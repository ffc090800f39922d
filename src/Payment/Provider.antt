-- ===== src/Payment/Provider.antt =====
-- apps/payment/src/providers/payment-provider.interface.ts: the payment provider as the services
-- see it. Its answers come from outside, so every function that calls it takes it as an argument.
use fiam_retail_apis.Common.{ℕ, String, Option}
use fiam_retail_apis.Payment.Entities.{PaymentProviderKey}
use fiam_retail_apis.Payment.Store.{Result}

pub data TransferOutcome : Type 0 where
  successful failed hold requery : TransferOutcome

pub record AccountDetails : Type 0 where
  pub account_number : String
  pub client_id : String
  pub client_name : String
  pub account_id : String
  pub balance : Option String

pub record TransferRecipient : Type 0 where
  pub account_number : String
  pub name : Option String
  pub bank_name : Option String

pub record TransferResult : Type 0 where
  pub outcome : TransferOutcome
  pub external_id : Option String
  pub provider_status_code : Option String
  pub raw_payload : Option String

pub record TransferInput : Type 0 where
  pub from : AccountDetails
  pub sender_account_id : Option String
  pub to : TransferRecipient
  pub bank_code : String
  pub transfer_type : String
  pub amount : ℕ
  pub reference : String
  pub narration : String

pub record Provider : Type 0 where
  pub key : PaymentProviderKey
  pub resolve_transfer_type : String → String
  pub get_account_details : Option String → Result AccountDetails
  pub lookup_transfer_recipient : String → String → String → Result TransferRecipient
  pub initiate_transfer : TransferInput → Result TransferResult
  pub query_transfer_status : String → Result TransferResult

-- What auth grants with a correct PIN (apps/payment/src/payouts/pin-verifier.service.ts).
pub record TransferLimit : Type 0 where
  pub amount : ℕ
  pub since : ℕ
  pub until : ℕ

pub record TransferCaps : Type 0 where
  pub per_transfer : Option ℕ
  pub daily : Option ℕ

pub record PinGrant : Type 0 where
  pub transfer_limit : Option TransferLimit
  pub caps : Option TransferCaps
