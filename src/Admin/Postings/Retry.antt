-- ===== src/Admin/Postings/Retry.antt =====
-- An approval whose answer was lost is safe to repeat.
use fiam_retail_apis.Admin.Postings.{
  serve_source, go_on, Delivery, not_confirmed, refused, mark_posted, answer_lost, answered, settle,
  call_payment, apply_posting, confirmed, begin_approval, serve, approve, System,
}
use fiam_retail_apis.Admin.Desk.{
  posting_approved, record_audit, claim, update_posting, decide, is_pending, Ctx, Posting,
  PostingStatus, posting_key,
}
use fiam_retail_apis.Admin.Postings.Again.{serve_twice}
use fiam_retail_apis.Common.Table.{find-update_self, find}
use fiam_retail_apis.Common.{
  ap, ◌∙◌, ==_refl, Option, ◌==◌, ◌≡◌, String, ℕ, true, false, some, none, refl,
}
use fiam_retail_apis.Payment.Store.{Db}

approve_goes :
    (uuid_text : ℕ → String) (ctx : Ctx) (delivery : Delivery) (comment : Option String)
    (p : Posting) (s : System)
    → find posting_key p.id s.desk.postings ≡ some p
    → (p.requested_by_id == ctx.actor.id) ≡ false
    → approve uuid_text delivery p.id ctx comment none s
      ≡ go_on uuid_text delivery ctx p s (begin_approval ctx comment p s.desk)
unfolding approve
approve_goes uuid_text ctx delivery comment p s found other = rw (found, other) refl

module _ (uuid_text : ℕ → String) (ctx : Ctx) (p : Posting) (s : System)
    (found : find posting_key p.id s.desk.postings ≡ some p) (waits : is_pending p.status ≡ true)
    (other : (p.requested_by_id == ctx.actor.id) ≡ false) (transaction : ℕ) (balance : Option ℕ)
    (after : Db)
    (paid : serve uuid_text ctx p s.payment ≡ (confirmed transaction balance, after)) where
  abbrev taken : Option String → Posting
  taken comment = decide PostingStatus.processing ctx comment s.desk.now p

  -- The console when the answer to the first call is lost.
  abbrev held : Option String → System
  held comment = record {
    desk = update_posting p.id (decide PostingStatus.processing ctx comment s.desk.now) s.desk;
    payment = after;
  }

  begin_first :
      (comment : Option String) → begin_approval ctx comment p s.desk ≡ (none, (held comment).desk)
  unfolding begin_approval claim
  begin_first comment = rw (found, waits) refl

  call_first :
      (comment : Option String)
      → apply_posting uuid_text answer_lost ctx p (record s { desk = (held comment).desk })
        ≡ (refused not_confirmed, held comment)
  unfolding apply_posting call_payment settle
  call_first comment = rw paid refl

  lost_first :
      (comment : Option String)
      → approve uuid_text answer_lost p.id ctx comment none s
        ≡ (refused not_confirmed, held comment)
  lost_first comment =
      approve_goes uuid_text ctx answer_lost comment p s found other
      ∙ ap (go_on uuid_text answer_lost ctx p s) (begin_first comment)
      ∙ call_first comment

  taken_found :
      (comment : Option String)
      → find posting_key p.id (held comment).desk.postings ≡ some (taken comment)
  taken_found comment =
      find-update_self posting_key p.id (decide PostingStatus.processing ctx comment s.desk.now) p
        s.desk.postings found refl

  serve_again :
      (comment : Option String)
      → serve uuid_text ctx (taken comment) after ≡ (confirmed transaction balance, after)
  unfolding serve serve_source
  serve_again comment = serve_twice uuid_text ctx p transaction balance s.payment after paid

  begin_again :
      (first second : Option String)
      → begin_approval ctx second (taken first) (held first).desk ≡ (none, (held first).desk)
  unfolding begin_approval
  begin_again first second = rw (==_refl ctx.actor.id) refl

  -- The console when the retry is answered.
  abbrev settled : Option String → System
  settled first = record (held first) {
    desk =
        record_audit ctx posting_approved p.id
          (update_posting p.id (mark_posted transaction balance) (held first).desk);
  }

  call_again :
      (first : Option String)
      → (apply_posting uuid_text answered ctx (taken first) (held first)).1 ≡ settled first
  unfolding apply_posting call_payment settle
  call_again first = rw (serve_again first) refl

  answered_again :
      (first second : Option String)
      → (approve uuid_text answered p.id ctx second none (held first)).1 ≡ settled first
  answered_again first second =
      ap {B = System} (λ r. r.1)
        (approve_goes uuid_text ctx answered second (taken first) (held first) (taken_found first)
            other
          ∙ ap (go_on uuid_text answered ctx (taken first) (held first)) (begin_again first second))
      ∙ call_again first

  posted_row :
      (first : Option String)
      → find posting_key p.id (settled first).desk.postings
        ≡ some (mark_posted transaction balance (taken first))
  posted_row first =
      find-update_self posting_key p.id (mark_posted transaction balance) (taken first)
        (held first).desk.postings (taken_found first) refl

  -- The payment service confirmed the call of an approval of a pending posting that somebody else
  -- asked for, and only its answer was lost: if the same approver retries next, with no request in
  -- between, and is answered, the retry finds the call done, whether it makes a posting or assigns
  -- an unmatched deposit, marks the posting POSTED with the same transaction, and moves no money.
  pub approve_retried :
      (first second : Option String)
      → let lost = approve uuid_text answer_lost p.id ctx first none s in
        let again = approve uuid_text answered p.id ctx second none lost.1 in
        (lost.1.payment ≡ after)
        × ((again.1.payment ≡ after)
            × (find posting_key p.id again.1.desk.postings
                ≡ some (mark_posted transaction balance (taken first))))
  approve_retried first second =
      rw (lost_first first, answered_again first second) (refl, (refl, posted_row first))
