-- ===== src/Payment/Webhooks/Confirmed.antt =====
-- A webhook alone credits nobody.
use fiam_retail_apis.Payment.Ledger.Endings.{ends_in}
use fiam_retail_apis.Payment.Ledger.{Triple, Keeps}
use fiam_retail_apis.Payment.Ledger.Rules.{fact-bind, Triple-bind, or_raise-bind}
use fiam_retail_apis.Payment.Ledger.Keeping.{
  Keeps-pure, Keeps-gets, Keeps-bind, modify-Triple, keeps_rules,
}
use fiam_retail_apis.Payment.Store.{pure, ok, lift, err, Result, ◌>>=◌, Db}
use fiam_retail_apis.Payment.Provider.{
  successful, failed, hold, requery, TransferResult, TransferOutcome,
}
use fiam_retail_apis.Common.{
  ◌∙◌, sym, ap, truthy, option_bind, ◌&&◌, String, ◌==◌, Bool, Option, ℕ, ◌≡◌, refl, true, false,
  none, some,
}
use fiam_retail_apis.Payment.Entities.{WebhookEvent}
use fiam_retail_apis.Payment.Webhooks.{
  conclude, tsq_amount, accounts_agree, save_event, check_tsq, update_event,
  handle_vfd_inward_credit, TsqData, handle_outcome, VfdInwardCreditWebhookDto, WebhookOutside,
}

abbrev pub is_success : TransferOutcome → Bool
is_success successful = true
is_success _ = false

abbrev same_amount : Option ℕ → Option ℕ → Bool
same_amount none n = false
same_amount (some m) none = false
same_amount (some m) (some n) = m == n

-- The provider's record has the amount and the destination of the webhook, and no other origin.
abbrev record_confirms : WebhookOutside → VfdInwardCreditWebhookDto → Option TsqData → Bool
record_confirms o dto none = false
record_confirms o dto (some t) =
    same_amount (option_bind o.parse_amount (truthy t.amount)) (o.parse_amount dto.amount)
    && accounts_agree dto t

abbrev answer_confirms : WebhookOutside → VfdInwardCreditWebhookDto → Result TransferResult → Bool
answer_confirms o dto (err e) = false
answer_confirms o dto (ok r) =
    is_success r.outcome && record_confirms o dto (option_bind o.data_of r.raw_payload)

-- The provider's answer for the reference of the webhook confirms it.
abbrev pub confirms : WebhookOutside → VfdInwardCreditWebhookDto → Bool
confirms o dto = answer_confirms o dto (o.query_transfer_status dto.reference)

-- What a webhook must leave alone: the transactions, the wallets and the jobs.
abbrev pub HasLedger : Db → Db → Type 0
HasLedger db d = (d.transactions ≡ db.transactions) × (d.wallets ≡ db.wallets) × (d.jobs ≡ db.jobs)

module _ (o : WebhookOutside) (dto : VfdInwardCreditWebhookDto) (db : Db) where
  update_event-Keeps :
      (id : ℕ) (f : WebhookEvent → WebhookEvent) → Keeps (HasLedger db) (update_event id f)
  unfolding update_event
  update_event-Keeps id f = modify-Triple (HasLedger db) _ λ d p. p

  save_event-Keeps : Keeps (HasLedger db) (save_event o dto)
  unfolding save_event
  save_event-Keeps =
      Keeps-bind _ _ (Keeps-gets _)
        λ id. Keeps-bind _ _ (modify-Triple (HasLedger db) _ λ d p. p) λ _. Keeps-pure id

  conclude-Keeps :
      (id : ℕ) (payload : Option String) (t : TsqData) (claimed : ℕ) (found : Option ℕ)
      → same_amount found (some claimed) && accounts_agree dto t ≡ false
      → Keeps (HasLedger db) (conclude o dto id payload t claimed found)
  conclude-Keeps id payload t claimed none h = update_event-Keeps id _
  conclude-Keeps id payload t claimed (some n) h = rw h (update_event-Keeps id _)

  -- The amount that was read is the one of the TSQ.
  tsq_amount-Triple :
      (text : Option String)
      → Triple
          (HasLedger db)
          (tsq_amount o text)
          (λ n d. HasLedger db d × (option_bind o.parse_amount text ≡ n))
          (HasLedger db)
  unfolding pure
  tsq_amount-Triple none = record { at = λ d p. (p, refl) }
  tsq_amount-Triple (some text) = or_raise-bind _ _ (λ d p. p) λ n e. record { at = λ d p. (p, e) }

  amount-Keeps :
      (id : ℕ) (payload : Option String) (t : TsqData) (claimed : ℕ) (text : Option String)
      → same_amount (option_bind o.parse_amount text) (some claimed) && accounts_agree dto t ≡ false
      → Keeps
          (HasLedger db)
          (tsq_amount o text >>= λ found. conclude o dto id payload t claimed found)
  amount-Keeps id payload t claimed text h = Triple-bind _ (tsq_amount-Triple text) λ n.
      fact-bind λ e.
        conclude-Keeps id payload t claimed n
          (ap (λ m. same_amount m (some claimed) && accounts_agree dto t) (sym e) ∙ h)

  check_tsq-Keeps :
      (id : ℕ) (payload : Option String) (t : Option TsqData)
      → record_confirms o dto t ≡ false
      → Keeps (HasLedger db) (check_tsq o dto id payload t)
  unfolding check_tsq
  check_tsq-Keeps id payload none h = search (keeps_rules, update_event-Keeps)
  check_tsq-Keeps id payload (some t) h =
      or_raise-bind _ _ (λ d p. p)
        λ claimed e. amount-Keeps id payload t claimed (truthy t.amount) (
          ap
            (λ m.
              same_amount (option_bind o.parse_amount (truthy t.amount)) m && accounts_agree dto t)
            (sym e)
          ∙ h)

  outcome-Keeps :
      (id : ℕ) (r : TransferResult) (outcome : TransferOutcome)
      → is_success outcome && record_confirms o dto (option_bind o.data_of r.raw_payload) ≡ false
      → Keeps (HasLedger db) (handle_outcome o dto id r outcome)
  unfolding handle_outcome
  outcome-Keeps id r requery h = search (keeps_rules, update_event-Keeps)
  outcome-Keeps id r failed h = update_event-Keeps id _
  outcome-Keeps id r hold h = update_event-Keeps id _
  outcome-Keeps id r successful h =
      check_tsq-Keeps id r.raw_payload (option_bind o.data_of r.raw_payload) h

  answer-Keeps :
      (id : ℕ) (answer : Result TransferResult)
      → answer_confirms o dto answer ≡ false
      → Keeps (HasLedger db) (lift answer >>= λ r. handle_outcome o dto id r r.outcome)
  unfolding ◌>>=◌
  answer-Keeps id (err e) h = record { at = λ d p. p }
  answer-Keeps id (ok r) h = record { at = (outcome-Keeps id r r.outcome h).at }

  pub handle-Keeps : confirms o dto ≡ false → Keeps (HasLedger db) (handle_vfd_inward_credit o dto)
  unfolding handle_vfd_inward_credit
  handle-Keeps h =
      Keeps-bind _ _ save_event-Keeps
        λ id. answer-Keeps id (o.query_transfer_status dto.reference) h

abbrev pub after_webhook : WebhookOutside → VfdInwardCreditWebhookDto → Db → Db
after_webhook o dto db = (handle_vfd_inward_credit o dto db).1

-- A webhook that the provider's answer for its reference does not confirm (the answer is missing, is
-- no success, or has another amount, destination or origin) leaves the transactions, the wallets
-- and the jobs as they were, whatever it claims.
pub handle-unconfirmed :
    (o : WebhookOutside) (dto : VfdInwardCreditWebhookDto) (db : Db)
    → confirms o dto ≡ false
    → HasLedger db (after_webhook o dto db)
handle-unconfirmed o dto db h =
    ends_in (handle_vfd_inward_credit o dto) db (handle-Keeps o dto db h) (refl, refl, refl)
