-- ===== src/Admin/Postings/FourEyes.antt =====
-- Nobody decides a posting that they asked for: every operation keeps that, whatever another
-- request commits between its read and its claim.
use fiam_retail_apis.Common.{
  inr, inl, Bool-cases, sym, ap, ◌∙◌, refl, same_id_refl, ==_refl, arith, ◌==◌, ◌&&◌, holds_id, not,
  is_some, String, every, ◌≡◌, Bool, Option, ℕ, true, false, some,
}
use fiam_retail_apis.Admin.Desk.{
  is_pending_row, claim, decide, update_posting, is_pending, is_processing, Ctx, Desk, Posting,
  PostingStatus, posting_key,
}
use fiam_retail_apis.Admin.Postings.{
  unknown, denied, confirmed, Answer, settle, mark_failed, mark_posted,
}
use fiam_retail_apis.Admin.Postings.Lifecycle.{
  IsLater-refl, update-IsLater, evolves, IsLater, IsLater-trans,
}
use fiam_retail_apis.Common.Table.{every-update, find-every, find}
use fiam_retail_apis.Payment.Store.{Error}

-- Decided by someone, who is not the one who asked.
abbrev pub has_four_eyes : Posting → Bool
has_four_eyes p = is_some p.decided_by_id && not (holds_id p.decided_by_id p.requested_by_id)

abbrev pub sound_at : PostingStatus → Posting → Bool
sound_at PostingStatus.pending p = not (is_some p.decided_by_id)
sound_at PostingStatus.cancelled p = holds_id p.decided_by_id p.requested_by_id
sound_at PostingStatus.posted p = has_four_eyes p && is_some p.transaction_id
sound_at _ p = has_four_eyes p

abbrev pub is_sound : Posting → Bool
is_sound p = sound_at p.status p

-- A later state of the tables in which every posting is sound.
abbrev pub Advances : Desk → Desk → Type 0
Advances before after =
    IsLater before.postings after.postings × (every is_sound after.postings ≡ true)

pub Advances_trans : (a b c : Desk) → Advances a b → Advances b c → Advances a c
Advances_trans a b c h k = (IsLater-trans a.postings b.postings c.postings h.0 k.0, k.1)

pub update-Advances :
    (id : ℕ) (f : Posting → Posting) (desk : Desk)
    → ((p : Posting) → posting_key (f p) ≡ posting_key p)
    → ((p : Posting)
        → find posting_key id desk.postings ≡ some p
        → is_sound p ≡ true
        → (evolves p (f p) ≡ true) × (is_sound (f p) ≡ true))
    → every is_sound desk.postings ≡ true
    → Advances desk (update_posting id f desk)
update-Advances id f desk same step sound = (
  update-IsLater id f desk.postings same (λ p found.
      (step p found (find-every posting_key is_sound id p desk.postings found sound)).0),
  every-update posting_key is_sound id f desk.postings (λ p found h. (step p found h).1) sound,
)

-- The answer to an approval, for a posting that is being processed.
mark_posted-step :
    (transaction : ℕ) (balance : Option ℕ) (p : Posting)
    → is_processing p.status ≡ true
    → is_sound p ≡ true
    → (evolves p (mark_posted transaction balance p) ≡ true)
      × (is_sound (mark_posted transaction balance p) ≡ true)
mark_posted-step transaction balance p open_ h =
    ground (arith, ==_refl p.requested_by_id, same_id_refl p.decided_by_id)

mark_failed-step :
    (e : Error) (p : Posting)
    → is_processing p.status ≡ true
    → is_sound p ≡ true
    → (evolves p (mark_failed e p) ≡ true) × (is_sound (mark_failed e p) ≡ true)
mark_failed-step e p open_ h =
    ground (arith, ==_refl p.requested_by_id, same_id_refl p.decided_by_id)

-- Who may take a posting to which status.
abbrev pub is_allowed : PostingStatus → Ctx → Posting → Bool
is_allowed PostingStatus.processing ctx p = not (p.requested_by_id == ctx.actor.id)
is_allowed PostingStatus.rejected ctx p = not (p.requested_by_id == ctx.actor.id)
is_allowed PostingStatus.cancelled ctx p = p.requested_by_id == ctx.actor.id
is_allowed _ ctx p = false

decide-step :
    (to : PostingStatus) (ctx : Ctx) (comment : Option String) (now : ℕ) (p : Posting)
    → is_pending p.status ≡ true
    → is_allowed to ctx p ≡ true
    → (evolves p (decide to ctx comment now p) ≡ true)
      × (is_sound (decide to ctx comment now p) ≡ true)
decide-step PostingStatus.processing ctx comment now p open_ allowed = ground arith
decide-step PostingStatus.rejected ctx comment now p open_ allowed = ground arith
decide-step PostingStatus.cancelled ctx comment now p open_ allowed = ground arith
decide-step PostingStatus.pending ctx comment now p open_ allowed = cc
decide-step PostingStatus.posted ctx comment now p open_ allowed = cc
decide-step PostingStatus.failed ctx comment now p open_ allowed = cc

-- The row that a claim finds.
module _ (id : ℕ) (desk : Desk) (sound : every is_sound desk.postings ≡ true) where
  pub claim-Advances :
      (to : PostingStatus) (ctx : Ctx) (comment : Option String)
      → ((p : Posting)
          → find posting_key id desk.postings ≡ some p
          → is_pending p.status ≡ true
          → is_allowed to ctx p ≡ true)
      → Advances desk (claim id to ctx comment desk).1
  unfolding claim
  claim-Advances to ctx comment allowed =
      elim (Bool-cases (is_pending_row (find posting_key id desk.postings))) [
        | inl open_ ↦ rw open_ (
            update-Advances id (decide to ctx comment desk.now) desk (λ p. refl)
              (λ p found h.
                let waits = pending_found p found open_ in
                decide-step to ctx comment desk.now p waits (allowed p found waits))
              sound)
        | inr shut ↦ rw shut (IsLater-refl desk.postings, sound)
      ]
    where
      pending_found :
          (p : Posting)
          → find posting_key id desk.postings ≡ some p
          → is_pending_row (find posting_key id desk.postings) ≡ true
          → is_pending p.status ≡ true
      pending_found p found open_ = sym (ap is_pending_row found) ∙ open_

  pub settle-Advances :
      (ctx : Ctx) (answer : Answer)
      → ((p : Posting) → find posting_key id desk.postings ≡ some p → is_processing p.status ≡ true)
      → Advances desk (settle id ctx answer desk).1
  unfolding settle
  settle-Advances ctx (confirmed transaction balance) held =
      update-Advances id (mark_posted transaction balance) desk (λ p. refl)
        (λ p found h. mark_posted-step transaction balance p (held p found) h) sound
  settle-Advances ctx (denied e) held =
      update-Advances id (mark_failed e) desk (λ p. refl)
        (λ p found h. mark_failed-step e p (held p found) h) sound
  settle-Advances ctx unknown held = (IsLater-refl desk.postings, sound)
