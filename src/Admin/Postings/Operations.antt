-- ===== src/Admin/Postings/Operations.antt =====
-- Every operation on the postings advances the tables, whatever another request commits between its
-- read and its claim, as long as that too advances them.
use fiam_retail_apis.Common.{
  [], ◌∷◌, ◌++◌, false, ltb, ◌&&◌, ◌==◌, Bool-cases, ◌≡◌, ◌⊎◌, every, Option, String, ℕ, true, some,
  none, refl, sym, inl, inr,
}
use fiam_retail_apis.Admin.Postings.{
  done, refused, Reply, close, cancel, reject, reject_found, approve_found, cancel_found, Delivery,
  raced, approve, Refusal, System,
}
use fiam_retail_apis.Admin.Postings.FourEyes.{
  claim-Advances, Advances_trans, is_allowed, Advances, is_sound,
}
use fiam_retail_apis.Admin.Postings.Guarantee.{
  begin-Advances, still_other, still_own, raced-IsFair, IsFair,
}
use fiam_retail_apis.Common.Table.{key-find, every-append, find}
use fiam_retail_apis.Payment.Entities.{is_debit, TransactionType, Wallet}
use fiam_retail_apis.Admin.Desk.{claim, Ctx, Desk, Posting, PostingStatus, posting_key, AuditAction}
use fiam_retail_apis.Admin.Postings.Request.{
  wallet_for, worth, request_worth, request_wallet, insert_posting, new_posting, request,
  CreatePostingDto, Customer,
}
use fiam_retail_apis.Admin.Postings.Lifecycle.{insert-IsLater, IsLater-refl, row_evolves, evolves}
use mathlib.Core.Path.{subst}

-- The closing of a pending posting, which meets a state of the tables.
module _ (ctx : Ctx) (id : ℕ) (p : Posting) (before desk : Desk) (fair : IsFair id before desk)
    (found : find posting_key id before.postings ≡ some p) where
  meets : (q : Posting) → find posting_key id desk.postings ≡ some q → evolves p q ≡ true
  meets q e =
      subst (λ o. row_evolves (some p) o ≡ true) e
        (subst (λ o. row_evolves o (find posting_key id desk.postings) ≡ true) found
          (fair.advances.0 id))

  close-Advances :
      (to : PostingStatus) (action : AuditAction) (comment : Option String)
      → ((q : Posting) → evolves p q ≡ true → is_allowed to ctx q ≡ true)
      → Advances before (close id to action ctx comment desk).1
  close-Advances to action comment allowed = elim (Bool-cases (claim id to ctx comment desk).0) [
    | inl claimed ↦ rw claimed (
        Advances_trans before desk (claim id to ctx comment desk).1 fair.advances
          (claim-Advances id desk fair.advances.1 to ctx comment λ q e _. allowed q (meets q e)))
    | inr lost ↦ rw lost fair.advances
  ]

module _ (id : ℕ) (ctx : Ctx) (s : System) (race : Option Desk)
    (sound : every is_sound s.desk.postings ≡ true)
    (fair : (other : Desk) → race ≡ some other → IsFair id s.desk other) where
  kept : Advances s.desk s.desk
  kept = (IsLater-refl s.desk.postings, sound)

  met : IsFair id s.desk (raced race s.desk)
  met = raced-IsFair id s.desk race sound fair

  approve_row :
      (uuid_text : ℕ → String) (delivery : Delivery) (comment : Option String) (o : Option Posting)
      → find posting_key id s.desk.postings ≡ o
      → Advances s.desk (approve_found uuid_text delivery ctx comment race o s).1.desk
  approve_row uuid_text delivery comment none e = kept
  approve_row uuid_text delivery comment (some p) e =
      elim (Bool-cases (p.requested_by_id == ctx.actor.id)) [
        | inl own ↦ rw own kept
        | inr other ↦
            let k = key-find posting_key id p s.desk.postings e in
            rw other (
              begin-Advances uuid_text delivery ctx comment p s (raced race s.desk)
                (subst (λ j. IsFair j s.desk (raced race s.desk)) (sym k) met)
                (subst (λ j. find posting_key j s.desk.postings ≡ some p) (sym k) e) other)
      ]

  reject_row :
      (comment : String) (o : Option Posting)
      → find posting_key id s.desk.postings ≡ o
      → Advances s.desk (reject_found id ctx comment race o s.desk).1
  reject_row comment none e = kept
  reject_row comment (some p) e = elim (Bool-cases (p.requested_by_id == ctx.actor.id)) [
    | inl own ↦ rw own kept
    | inr other ↦ rw other (
        close-Advances ctx id p s.desk (raced race s.desk) met e PostingStatus.rejected
          AuditAction.posting_rejected (some comment) λ q h. rw (still_other ctx p q h other) refl)
  ]

  cancel_row :
      (o : Option Posting)
      → find posting_key id s.desk.postings ≡ o
      → Advances s.desk (cancel_found id ctx race o s.desk).1
  cancel_row none e = kept
  cancel_row (some p) e = elim (Bool-cases (p.requested_by_id == ctx.actor.id)) [
    | inl own ↦ rw own (
        close-Advances ctx id p s.desk (raced race s.desk) met e PostingStatus.cancelled
          AuditAction.posting_cancelled none λ q h. still_own ctx p q h own)
    | inr other ↦ rw other kept
  ]

  -- An approval, a rejection and a cancellation advance the tables: who asked for a posting stays,
  -- its status moves along the diagram, who decided it stays, and nobody but another decides it,
  -- however the call to the payment service ends and whatever is committed before the claim, if
  -- that advances the tables and leaves a posting that is being processed to its approver.
  pub decisions-Advances :
      (uuid_text : ℕ → String) (delivery : Delivery) (comment : Option String) (reason : String)
      → Advances s.desk (approve uuid_text delivery id ctx comment race s).1.desk
        × Advances s.desk (reject id ctx reason race s.desk).1
        × Advances s.desk (cancel id ctx race s.desk).1
  unfolding approve reject cancel
  decisions-Advances uuid_text delivery comment reason = (
    approve_row uuid_text delivery comment (find posting_key id s.desk.postings) refl,
    reject_row reason (find posting_key id s.desk.postings) refl,
    cancel_row (find posting_key id s.desk.postings) refl,
  )

-- What a request does to the postings: none where it is refused; where it is answered with one, that
-- one is added at the end, of a positive amount, pending, asked for by its author, and undecided.
abbrev pub IsAsked : Ctx → Desk → Reply × Desk → Type 0
IsAsked ctx desk (refused r, after) = after ≡ desk
IsAsked ctx desk (done p, after) =
    (after.postings ≡ desk.postings ++ (p ∷ []))
    × ((p.amount == 0) ≡ false)
    × (p.status ≡ PostingStatus.pending)
    × (p.requested_by_id ≡ ctx.actor.id)
    × (p.decided_by_id ≡ none)
    × (p.transaction_id ≡ none)

-- A request, step by step.
module _ (dto : CreatePostingDto) (ctx : Ctx) where
  inserted :
      (desk : Desk) (wallet : Wallet) (type : TransactionType) (amount : ℕ)
      → (amount == 0) ≡ false
      → IsAsked ctx desk (insert_posting (new_posting dto ctx wallet type amount desk.now) ctx desk)
  unfolding new_posting
  inserted desk wallet type amount positive = (refl, positive, refl, refl, refl, refl)

  worth-IsAsked :
      (desk : Desk) (wallet : Wallet) (r : Refusal ⊎ (TransactionType × ℕ))
      → IsAsked ctx desk (request_worth dto ctx wallet r desk)
  worth-IsAsked desk wallet (inl r) = refl
  worth-IsAsked desk wallet (inr (type, amount)) = elim (Bool-cases (amount == 0)) [
    | inl nothing ↦ rw nothing refl
    | inr positive ↦ elim (Bool-cases (is_debit type && ltb wallet.balance amount)) [
      | inl short ↦ rw (positive, short) refl
      | inr enough ↦ rw (positive, enough) (inserted desk wallet type amount positive)
    ]
  ]

  wallet-IsAsked :
      (wallet : Option Wallet) (s : System) → IsAsked ctx s.desk (request_wallet dto ctx wallet s)
  wallet-IsAsked none s = refl
  wallet-IsAsked (some wallet) s = worth-IsAsked s.desk wallet (worth dto wallet s)

  -- A request that is refused changes nothing on the console. One that is answered with a posting
  -- adds that posting and changes no other: its amount is positive, it is pending, who asked is its
  -- requester, nobody has decided it, and it has no transaction.
  pub request-IsAsked :
      (customer : Option Customer) (s : System) → IsAsked ctx s.desk (request dto customer ctx s)
  unfolding request
  request-IsAsked none s = refl
  request-IsAsked (some customer) s = elim (Bool-cases customer.closed) [
    | inl closed ↦ rw closed refl
    | inr open_ ↦ rw open_ (wallet-IsAsked (wallet_for dto.customer_id s.payment) s)
  ]

  answer-Advances :
      (desk : Desk) (r : Reply × Desk)
      → every is_sound desk.postings ≡ true
      → IsAsked ctx desk r
      → Advances desk r.1
  answer-Advances desk (refused r, after) sound asked =
      subst (Advances desk) (sym asked) (IsLater-refl desk.postings, sound)
  answer-Advances desk (done p, after) sound (added, _, pending, _, undecided, unpaid) = rw added (
    insert-IsLater p desk.postings,
    every-append posting_key is_sound desk.postings p sound (rw (pending, undecided) refl),
  )

  -- So a request advances the tables, as the decisions do.
  pub request-Advances :
      (customer : Option Customer) (s : System)
      → every is_sound s.desk.postings ≡ true
      → Advances s.desk (request dto customer ctx s).1
  request-Advances customer s sound =
      answer-Advances s.desk (request dto customer ctx s) sound (request-IsAsked customer s)
