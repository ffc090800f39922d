-- ===== src/Admin/Postings/Guarantee.antt =====
-- What an approval does to the tables, from the state that its claim meets.
use fiam_retail_apis.Admin.Postings.{
  settle, call_payment, go_on, apply_posting, begin_approval, Refusal, System, Delivery, raced,
}
use fiam_retail_apis.Common.Table.{find-update, find}
use fiam_retail_apis.Admin.Desk.{
  is_pending, is_pending_row, decide, update_posting, is_processing, Ctx, claim, Desk, Posting,
  PostingStatus, posting_key,
}
use fiam_retail_apis.Common.{
  holds_id, inr, inl, ◌&&◌, Bool-cases, ==_refl, Bool, arith, option_map, sym, ◌∙◌, ◌==◌, ◌≡◌,
  String, every, Option, ℕ, true, false, some, none, refl,
}
use fiam_retail_apis.Admin.Postings.FourEyes.{
  settle-Advances, claim-Advances, Advances_trans, is_sound, Advances,
}
use fiam_retail_apis.Admin.Postings.Lifecycle.{evolves, IsLater-refl, row_evolves}
use mathlib.Core.Path.{subst}

-- What a concurrent request may have committed since posting `id` was read: it advances the tables,
-- and does not settle that posting, which is for the approver who is processing it.
pub record IsFair (id : ℕ) (before after : Desk) : Type 0 where
  pub advances : Advances before after
  pub held :
      (p : Posting)
      → find posting_key id before.postings ≡ some p
      → is_processing p.status ≡ true
      → find posting_key id after.postings ≡ some p

IsFair-refl : (id : ℕ) (desk : Desk) → every is_sound desk.postings ≡ true → IsFair id desk desk
IsFair-refl id desk sound = record {
  advances = (IsLater-refl desk.postings, sound);
  held = λ p found open_. found;
}

pub raced-IsFair :
    (id : ℕ) (desk : Desk) (race : Option Desk)
    → every is_sound desk.postings ≡ true
    → ((other : Desk) → race ≡ some other → IsFair id desk other)
    → IsFair id desk (raced race desk)
raced-IsFair id desk none sound fair = IsFair-refl id desk sound
raced-IsFair id desk (some other) sound fair = fair other refl

requested_same :
    (p q : Posting) → evolves p q ≡ true → (p.requested_by_id == q.requested_by_id) ≡ true
requested_same p q h = ground arith

-- A row that was asked for by another is allowed to the one who decides.
pub still_other :
    (ctx : Ctx) (p q : Posting)
    → evolves p q ≡ true
    → (p.requested_by_id == ctx.actor.id) ≡ false
    → (q.requested_by_id == ctx.actor.id) ≡ false
still_other ctx p q h other = ground (arith, requested_same p q h)

pub still_own :
    (ctx : Ctx) (p q : Posting)
    → evolves p q ≡ true
    → (p.requested_by_id == ctx.actor.id) ≡ true
    → (q.requested_by_id == ctx.actor.id) ≡ true
still_own ctx p q h own = ground (arith, requested_same p q h)

-- After a claim, the row is being processed.
decided_status :
    (ctx : Ctx) (comment : Option String) (now : ℕ) (o : Option Posting) (q : Posting)
    → option_map (decide PostingStatus.processing ctx comment now) o ≡ some q
    → is_processing q.status ≡ true
decided_status ctx comment now none q e = cc
decided_status ctx comment now (some p) q e = subst (λ o. row_processing o ≡ true) e refl
  where
    row_processing : Option Posting → Bool
    row_processing none = false
    row_processing (some r) = is_processing r.status

claimed_held :
    (id : ℕ) (ctx : Ctx) (comment : Option String) (desk : Desk) (q : Posting)
    → find posting_key id
        (update_posting id (decide PostingStatus.processing ctx comment desk.now) desk).postings
      ≡ some q
    → is_processing q.status ≡ true
claimed_held id ctx comment desk q found =
    decided_status ctx comment desk.now (find posting_key id desk.postings) q (
      sym (
        find-update posting_key id id (decide PostingStatus.processing ctx comment desk.now)
          desk.postings (λ p. refl)
        ∙ rw (==_refl id) refl)
      ∙ found)

both-left : (a b : Bool) → (a && b) ≡ true → a ≡ true
both-left a b h = ground arith

retried :
    (p q : Posting)
    → is_processing p.status ≡ true
    → some p ≡ some q
    → is_processing q.status ≡ true
retried p q open_ e = ground arith

claim_changes :
    (id : ℕ) (to : PostingStatus) (ctx : Ctx) (comment : Option String) (desk : Desk)
    → (claim id to ctx comment desk).0 ≡ true
    → (claim id to ctx comment desk).1 ≡ update_posting id (decide to ctx comment desk.now) desk
unfolding claim
claim_changes id to ctx comment desk claimed =
    elim (Bool-cases (is_pending_row (find posting_key id desk.postings))) [
      | inl open_ ↦ rw open_ refl
      | inr shut ↦ cc (claimed, shut)
    ]

module _ (uuid_text : ℕ → String) (delivery : Delivery) (ctx : Ctx) (comment : Option String) where
  -- The approval of a posting that was asked for by another, from the state that its claim meets.
  module _ (p : Posting) (s : System) (desk : Desk) (fair : IsFair p.id s.desk desk)
      (found : find posting_key p.id s.desk.postings ≡ some p)
      (other : (p.requested_by_id == ctx.actor.id) ≡ false) where
    abbrev EndsIn : Option Refusal × Desk → Type 0
    EndsIn begun = Advances s.desk (go_on uuid_text delivery ctx p s begun).1.desk

    apply-Advances :
        (claimed : Desk)
        → Advances s.desk claimed
        → ((q : Posting)
            → find posting_key p.id claimed.postings ≡ some q
            → is_processing q.status ≡ true)
        → EndsIn (none, claimed)
    unfolding apply_posting
    apply-Advances claimed h held =
        Advances_trans s.desk claimed
          (settle p.id ctx (call_payment uuid_text delivery ctx p s.payment).0 claimed).1 h
          (settle-Advances p.id claimed h.1 ctx (call_payment uuid_text delivery ctx p s.payment).0
            held)

    meets_row : (q : Posting) → find posting_key p.id desk.postings ≡ some q → evolves p q ≡ true
    meets_row q e =
        subst (λ o. row_evolves (some p) o ≡ true) e
          (subst (λ o. row_evolves o (find posting_key p.id desk.postings) ≡ true) found
            (fair.advances.0 p.id))

    claim_step : Advances s.desk (claim p.id PostingStatus.processing ctx comment desk).1
    claim_step =
        Advances_trans s.desk desk (claim p.id PostingStatus.processing ctx comment desk).1
          fair.advances
          (claim-Advances p.id desk fair.advances.1 PostingStatus.processing ctx comment
            λ q e _. rw (still_other ctx p q (meets_row q e) other) refl)

    pub begin-Advances : EndsIn (begin_approval ctx comment p desk)
    unfolding begin_approval
    begin-Advances = elim (Bool-cases (is_pending p.status)) [
      | inl waits ↦ elim (Bool-cases (claim p.id PostingStatus.processing ctx comment desk).0) [
        | inl claimed ↦
            rw (waits, claimed)
              (apply-Advances (claim p.id PostingStatus.processing ctx comment desk).1 claim_step
                λ q e. claimed_held p.id ctx comment desk q (
                  subst (λ d. find posting_key p.id d.postings ≡ some q)
                    (claim_changes p.id PostingStatus.processing ctx comment desk claimed) e))
        | inr lost ↦ rw (waits, lost) fair.advances
      ]
      | inr decided ↦
          elim (Bool-cases (is_processing p.status && holds_id p.decided_by_id ctx.actor.id)) [
            | inl retry ↦
                rw (decided, retry)
                  (apply-Advances desk fair.advances λ q e.
                    retried p q (both-left _ _ retry)
                      (sym (fair.held p found (both-left _ _ retry)) ∙ e))
            | inr settled ↦ rw (decided, settled) fair.advances
          ]
    ]
