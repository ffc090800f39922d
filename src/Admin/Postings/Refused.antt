-- ===== src/Admin/Postings/Refused.antt =====
-- A posting that is marked FAILED has moved no money.
use fiam_retail_apis.Admin.Postings.{
  raced, begin_approval, own_request, unknown, mark_posted, go_on, approve_found, answer_lost,
  Refusal, confirmed, System, request_lost, reply_with, settle, answered, apply_posting, Delivery,
  serve_source, call_payment, assign_body, serve, could_not_post, refused, Answer, Reply,
  posting_body, denied, answer_of_post, answer_of_assign, approve,
}
use fiam_retail_apis.Admin.Desk.{update_posting, posting_key, Desk, Posting, Ctx}
use fiam_retail_apis.Common.{
  ◌==◌, Option, false, Bool, true, String, inr, inl, Bool-cases, ◌≡◌, ℕ, refl, some, none,
  if◌then◌else◌,
}
use fiam_retail_apis.Common.Table.{find}
use fiam_retail_apis.Payment.Ledger.{Ends, Triple}
use fiam_retail_apis.Payment.Internal.{
  CreatePostingDto as PaymentPosting, announce_assignment, AssignUnmatchedDto, post, assign,
  PostingView, AssignResult,
}
use fiam_retail_apis.Payment.Internal.Twice.{IsRecorded, post_alone}
use fiam_retail_apis.Payment.Ledger.Rules.{
  Triple-weaken, Triple-any, Triple-transaction, Triple-bind,
}
use fiam_retail_apis.Payment.Store.{notify, pure, Db, Result, ok, err}

-- An assignment that throws changes nothing.
module _ (id : ℕ) (dto : AssignUnmatchedDto) (db : Db) where
  announced :
      (r : AssignResult) → Triple (λ _. Unit {0}) (announce_assignment r) (λ _ _. Unit {0}) (λ _. ⊥)
  unfolding announce_assignment pure notify
  announced r = record {
    at = λ d _. elim (Bool-cases r.replayed) [ inl again ↦ rw again tt | inr new ↦ rw new tt ];
  }

  assign_refused : Triple (λ d. d ≡ db) (assign id dto) (λ _ _. Unit {0}) (λ d. d ≡ db)
  unfolding assign pure
  assign_refused =
      Triple-bind (λ _ _. Unit {0}) (Triple-transaction (λ _ p. p) (Triple-any _))
        λ r.
          Triple-weaken (λ _. Unit {0}) (λ _ _. Unit {0}) (λ _. ⊥)
            (Triple-bind (λ _ _. Unit {0}) (announced r) λ _. record { at = λ d p. tt }) (λ _ p. p)
            (λ _ _ q. q) (λ d never. absurd never)

abbrev is_denied : Answer → Bool
is_denied (denied e) = true
is_denied _ = false

post_denied :
    (dto : PaymentPosting) (db : Db) (r : Result PostingView × Db)
    → Ends (IsRecorded dto db) (λ d. d ≡ db) r
    → is_denied (answer_of_post r.0) ≡ true
    → r.1 ≡ db
post_denied dto db (ok v, d) h denied_ = cc
post_denied dto db (err e, d) h denied_ = h

assign_denied :
    (db : Db) (r : Result AssignResult × Db)
    → Ends (λ _ _. Unit {0}) (λ d. d ≡ db) r
    → is_denied (answer_of_assign r.0) ≡ true
    → r.1 ≡ db
assign_denied db (ok v, d) h denied_ = cc
assign_denied db (err e, d) h denied_ = h

module _ (uuid_text : ℕ → String) (ctx : Ctx) (p : Posting) (db : Db) where
  serve_denied :
      (source : Option ℕ)
      → is_denied (serve_source uuid_text ctx p source db).0 ≡ true
      → (serve_source uuid_text ctx p source db).1 ≡ db
  unfolding serve_source
  serve_denied none h =
      post_denied (posting_body uuid_text ctx p) db (post (posting_body uuid_text ctx p) none db)
        (post_alone (posting_body uuid_text ctx p) db) h
  serve_denied (some id) h =
      assign_denied db (assign id (assign_body uuid_text ctx p) db)
        ((assign_refused id (assign_body uuid_text ctx p) db).at db refl) h

  call_denied :
      (delivery : Delivery)
      → is_denied (call_payment uuid_text delivery ctx p db).0 ≡ true
      → (call_payment uuid_text delivery ctx p db).1 ≡ db
  unfolding call_payment serve
  call_denied answered h = serve_denied p.source_transaction_id h
  call_denied request_lost h = refl
  call_denied answer_lost h = cc

abbrev pub is_definite : Reply → Bool
is_definite (refused (could_not_post e)) = true
is_definite _ = false

module _ (uuid_text : ℕ → String) (delivery : Delivery) (ctx : Ctx) where
  not_definite : (o : Option Posting) → is_definite (reply_with o) ≡ false
  not_definite none = refl
  not_definite (some p) = refl

  settled_definite :
      (id : ℕ) (answer : Answer) (desk : Desk)
      → is_definite (settle id ctx answer desk).0 ≡ true
      → is_denied answer ≡ true
  unfolding settle
  settled_definite id (confirmed transaction balance) desk h = cc (
    h,
    not_definite
        (find posting_key id (update_posting id (mark_posted transaction balance) desk).postings),
  )
  settled_definite id (denied e) desk h = refl
  settled_definite id unknown desk h = cc

  go_on_definite :
      (p : Posting) (s : System) (begun : Option Refusal × Desk)
      → is_definite (go_on uuid_text delivery ctx p s begun).0 ≡ true
      → (go_on uuid_text delivery ctx p s begun).1.payment ≡ s.payment
  unfolding apply_posting
  go_on_definite p s (some r, desk) h = refl
  go_on_definite p s (none, desk) h =
      call_denied uuid_text ctx p s.payment delivery
        (settled_definite p.id (call_payment uuid_text delivery ctx p s.payment).0 desk h)

  either_definite :
      (b : Bool) (x y : Reply × System) (db : Db)
      → (is_definite x.0 ≡ true → x.1.payment ≡ db)
      → (is_definite y.0 ≡ true → y.1.payment ≡ db)
      → is_definite (if b then x else y).0 ≡ true
      → (if b then x else y).1.payment ≡ db
  either_definite true x y db h k = h
  either_definite false x y db h k = k

  found_definite :
      (comment : Option String) (race : Option Desk) (o : Option Posting) (s : System)
      → is_definite (approve_found uuid_text delivery ctx comment race o s).0 ≡ true
      → (approve_found uuid_text delivery ctx comment race o s).1.payment ≡ s.payment
  found_definite comment race none s h = refl
  found_definite comment race (some p) s h =
      either_definite (p.requested_by_id == ctx.actor.id) (refused own_request, s)
        (go_on uuid_text delivery ctx p s (begin_approval ctx comment p (raced race s.desk)))
        s.payment (λ _. refl)
        (go_on_definite p s (begin_approval ctx comment p (raced race s.desk))) h

  -- An approval that reports a definite refusal of the payment service has moved no money: the
  -- payment service's database is as it was.
  pub approve_refused :
      (id : ℕ) (comment : Option String) (race : Option Desk) (s : System)
      → is_definite (approve uuid_text delivery id ctx comment race s).0 ≡ true
      → (approve uuid_text delivery id ctx comment race s).1.payment ≡ s.payment
  unfolding approve
  approve_refused id comment race s h =
      found_definite comment race (find posting_key id s.desk.postings) s h
