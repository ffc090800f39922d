-- ===== src/Admin/Postings/Again.antt =====
-- The payment service answers a call that is repeated as it answered the first.
use fiam_retail_apis.Common.{
  ap, refl, inr, inl, Bool-cases, false, none, some, true, ◌≡◌, String, Option, ℕ,
}
use fiam_retail_apis.Admin.Postings.{
  unknown, answer_of_post, answer_of_assign, denied, assign_body, posting_body, is_client_error,
  serve, serve_source, confirmed, deny,
}
use fiam_retail_apis.Payment.Internal.{assign, PostingView, post, AssignResult}
use fiam_retail_apis.Admin.Desk.{Posting, Ctx}
use fiam_retail_apis.Payment.Store.{Error, Db, Result, ok, err}
use mathlib.Core.Path.{subst}
use fiam_retail_apis.Payment.Internal.Twice.{post_twice}
use fiam_retail_apis.Payment.Internal.Reassign.{assign_twice}

denial : (e : Error) (id : ℕ) (balance : Option ℕ) → deny e ≡ confirmed id balance → ⊥
denial e id balance h = elim (Bool-cases (is_client_error e)) [
  | inl client ↦ cc (h, client_denial client)
  | inr server ↦ cc (h, server_denial server)
]
  where
    client_denial : is_client_error e ≡ true → deny e ≡ denied e
    client_denial client = rw client refl

    server_denial : is_client_error e ≡ false → deny e ≡ unknown
    server_denial server = rw server refl

module _ (uuid_text : ℕ → String) (ctx : Ctx) (p : Posting) (id : ℕ) (balance : Option ℕ)
    (db after : Db) where
  post-again :
      (r : Result PostingView × Db)
      → post (posting_body uuid_text ctx p) none db ≡ r
      → answer_of_post r.0 ≡ confirmed id balance
      → r.1 ≡ after
      → serve_source uuid_text ctx p none after ≡ (confirmed id balance, after)
  unfolding serve_source
  post-again (err e, d) made answer same = absurd (denial e id balance answer)
  post-again (ok v, d) made answer same =
      subst (λ x. serve_source uuid_text ctx p none x ≡ (confirmed id balance, x)) same
        (rw (post_twice (posting_body uuid_text ctx p) db v d none made) (ap (λ a. (a, d)) answer))

  assign-again :
      (source : ℕ) (r : Result AssignResult × Db)
      → assign source (assign_body uuid_text ctx p) db ≡ r
      → answer_of_assign r.0 ≡ confirmed id balance
      → r.1 ≡ after
      → serve_source uuid_text ctx p (some source) after ≡ (confirmed id balance, after)
  unfolding serve_source
  assign-again source (err e, d) made answer same = absurd (denial e id balance answer)
  assign-again source (ok v, d) made answer same =
      subst (λ x. serve_source uuid_text ctx p (some source) x ≡ (confirmed id balance, x)) same
        (rw (assign_twice source (assign_body uuid_text ctx p) v db d made)
          (ap (λ a. (a, d)) answer))

  source-again :
      (source : Option ℕ)
      → serve_source uuid_text ctx p source db ≡ (confirmed id balance, after)
      → serve_source uuid_text ctx p source after ≡ (confirmed id balance, after)
  unfolding serve_source
  source-again none h =
      post-again (post (posting_body uuid_text ctx p) none db) refl (ap (λ x. x.0) h)
        (ap (λ x. x.1) h)
  source-again (some source) h =
      assign-again source (assign source (assign_body uuid_text ctx p) db) refl (ap (λ x. x.0) h)
        (ap (λ x. x.1) h)

  -- A call that the payment service has confirmed is confirmed again with the same transaction and
  -- balance, and changes nothing.
  pub serve_twice :
      serve uuid_text ctx p db ≡ (confirmed id balance, after)
      → serve uuid_text ctx p after ≡ (confirmed id balance, after)
  unfolding serve
  serve_twice h = source-again p.source_transaction_id h
