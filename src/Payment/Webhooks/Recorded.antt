-- ===== src/Payment/Webhooks/Recorded.antt =====
-- A webhook that the provider confirms is recorded as a deposit.
use fiam_retail_apis.Common.{
  [], ◌∷◌, ◌++◌, none, String, Option, ==_refl, option_bind, ◌+◌, true, truthy, some, ℕ, ◌≡◌, refl,
  ◌∙◌, ap,
}
use fiam_retail_apis.Payment.Webhooks.{
  new_event, event_key, parse, mark_verified, payin, update_event, record_payin, tsq_amount, accept,
  handle_outcome, check_tsq, save_event, accounts_agree, TsqData, VfdInwardCreditWebhookDto,
  WebhookOutside, handle_vfd_inward_credit,
}
use fiam_retail_apis.Common.Table.{update-append, find}
use fiam_retail_apis.Payment.Store.{or_raise, lift, ◌>>=◌, pure, M, Db, Result, ok, err}
use fiam_retail_apis.Payment.Provider.{successful, TransferResult}

-- The value of a last step is dropped.
dropped :
    {A : Type 0} (r : Result A × Db)
    → (elim r.0 as (λ _. Result (Unit {0}) × Db) [ ok a ↦ (ok tt, r.1) | err e ↦ (err e, r.1) ]).1
      ≡ r.1
dropped (ok a, d) = refl
dropped (err e, d) = refl

-- A first step that is known.
next :
    {A B : Type 0} (m : M A) (f : A → M B) (a : A) (d e : Db)
    → m d ≡ (ok a, e)
    → (m >>= f) d ≡ f a e
unfolding ◌>>=◌
next {A} {B} m f a d e h =
    ap
      (λ (x : Result A × Db). elim x.0 as (λ _. Result B × Db) [
        | ok b ↦ f b x.1
        | err c ↦ (err c, x.1)
      ])
      h

amount_read :
    (o : WebhookOutside) (text : Option String) (n : ℕ) (d : Db)
    → option_bind o.parse_amount text ≡ some n
    → tsq_amount o text d ≡ (ok (some n), d)
unfolding ◌>>=◌
amount_read o none n d e = cc
amount_read o (some text) n d e = rw e refl

module _ (o : WebhookOutside) (dto : VfdInwardCreditWebhookDto) (r : TransferResult) (t : TsqData)
    (amount : ℕ) (answered_ : o.query_transfer_status dto.reference ≡ ok r)
    (success : r.outcome ≡ successful) (shown : option_bind o.data_of r.raw_payload ≡ some t)
    (claimed : o.parse_amount dto.amount ≡ some amount)
    (found : option_bind o.parse_amount (truthy t.amount) ≡ some amount)
    (same : accounts_agree dto t ≡ true) where
  accepted :
      (id : ℕ) (d : Db)
      → (accept o dto id r.raw_payload t amount d).1
        ≡ (record_payin
            (payin o dto t amount)
            (update_event id (mark_verified d.now r.raw_payload) d).1).1
  unfolding accept ◌>>=◌ pure
  accepted id d = dropped _

  checked_tsq :
      (id : ℕ) (d : Db)
      → check_tsq o dto id r.raw_payload (some t) d ≡ accept o dto id r.raw_payload t amount d
  unfolding check_tsq or_raise pure
  checked_tsq id d =
      next (parse o dto.amount) _ amount d d (rw claimed refl)
      ∙ next (tsq_amount o (truthy t.amount)) _ (some amount) d d
          (amount_read o (truthy t.amount) amount d found)
      ∙ rw (==_refl amount, same) refl

  outcome_recorded :
      (id : ℕ) (d : Db)
      → handle_outcome o dto id r successful d ≡ accept o dto id r.raw_payload t amount d
  unfolding handle_outcome
  outcome_recorded id d = rw shown (checked_tsq id d)

  -- The log of a database with the delivery at its end, as it was verified.
  abbrev logged : Db → Db
  logged db = record db {
    webhook_events =
        db.webhook_events ++ (mark_verified db.now r.raw_payload (new_event o dto db.next_id) ∷ []);
    next_id = db.next_id + 1;
  }

  marked :
      (db : Db)
      → find event_key db.next_id db.webhook_events ≡ none
      → (update_event db.next_id (mark_verified db.now r.raw_payload) (save_event o dto db).1).1
        ≡ logged db
  unfolding save_event update_event ◌>>=◌ pure
  marked db unused =
      rw
        (update-append event_key db.next_id (mark_verified db.now r.raw_payload)
          (new_event o dto db.next_id) db.webhook_events unused refl)
        refl

  -- A webhook for which the provider's answer is a success, with an amount that equals the
  -- webhook's and with accounts that agree, ends as the deposit of that amount does, on the database
  -- whose log has the delivery at its end, verified at that time and with the provider's answer,
  -- where the log has no event of the key that is drawn.
  pub handle-recorded :
      (db : Db)
      → find event_key db.next_id db.webhook_events ≡ none
      → (handle_vfd_inward_credit o dto db).1 ≡ (record_payin (payin o dto t amount) (logged db)).1
  unfolding handle_vfd_inward_credit lift ◌>>=◌ save_event
  handle-recorded db unused =
      let saved = (save_event o dto db).1 in
      ap (λ x. x.1)
        (next (lift (o.query_transfer_status dto.reference))
            (λ a. handle_outcome o dto db.next_id a a.outcome) r saved saved
            (ap (λ x. (x, saved)) answered_)
          ∙ ap (λ x. handle_outcome o dto db.next_id r x saved) success
          ∙ outcome_recorded db.next_id saved)
      ∙ accepted db.next_id saved
      ∙ ap (λ d. (record_payin (payin o dto t amount) d).1) (marked db unused)
