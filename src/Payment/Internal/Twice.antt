-- ===== src/Payment/Internal/Twice.antt =====
-- A posting that is asked for again, with the same reference, after its answer was lost.
use fiam_retail_apis.Common.{
  Option, ◌==◌, sym, ap, Option-cases, inr, text_eq_refl, inl, ℕ, arith, Bool-cases, String, any,
  List, find?, ◌≡◌, Bool, refl, ◌∙◌, ◌∷◌, none, some, true, false, [], ◌++◌,
}
use fiam_retail_apis.Payment.Store.{
  amount_not_positive, Result, err, ok, pure, notify, Error, insert_transaction, Db, ◌>>=◌,
}
use fiam_retail_apis.Payment.Internal.{
  account_or_manual, move, is_unique_violation, view, post_new, replay_or_raise, find_existing,
  post_in_transaction, posting_row, PostingView, announce_posting, CreatePostingDto, post,
}
use fiam_retail_apis.Payment.Internal.Once.{post-replayed, is_posted}
use mathlib.Core.Path.{subst}
use fiam_retail_apis.Payment.Ledger.Rules.{
  gets-bind, assuming, Triple-transaction, Triple-any, Triple-catch, Triple-bind,
}
use fiam_retail_apis.Payment.Entities.{CurrencyCode, Transaction}
use fiam_retail_apis.Payment.Ledger.{Triple, Ends}
use fiam_retail_apis.Payment.Wallets.{find_active_for_wallet}

find?-append_new :
    (p : Transaction → Bool) (t : Transaction) (txs : List Transaction)
    → any p txs ≡ false
    → p t ≡ true
    → find? p (txs ++ (t ∷ [])) ≡ some t
find?-append_new p t [] h e = ground arith
find?-append_new p t (x ∷ xs) h e = ground (arith, find?-append_new p t xs)

module _ (dto : CreatePostingDto) (db : Db) where
  -- The row that the answer is about stands in the table under the reference.
  abbrev pub Found : Transaction → Db → Type 0
  Found t d = find? (is_posted dto.reference) d.transactions ≡ some t

  abbrev pub IsRecorded : PostingView → Db → Type 0
  IsRecorded v d = (t : Transaction) × (Found t d × (record v { replayed = true } ≡ view t true))

  abbrev pub Unchanged : Db → Type 0
  Unchanged d = d ≡ db

  row_posted :
      (currency : CurrencyCode) (account : String) (balance now id : ℕ)
      → is_posted dto.reference (posting_row dto currency account balance now id) ≡ true
  unfolding posting_row
  row_posted currency account balance now id = text_eq_refl dto.reference

  insert-Found :
      (currency : CurrencyCode) (account : String) (balance now : ℕ)
      → Triple
          (λ _. Unit {0})
          (insert_transaction (posting_row dto currency account balance now))
          Found
          (λ _. Unit)
  unfolding insert_transaction posting_row
  insert-Found currency account balance now = record {
    at = λ d _. elim (Bool-cases (any (is_posted dto.reference) d.transactions)) [
      | inl clash ↦ rw clash tt
      | inr new ↦ rw new (
          find?-append_new (is_posted dto.reference)
            (posting_row dto currency account balance now d.next_id) d.transactions new
            (row_posted currency account balance now d.next_id))
    ];
  }

  post-Found : Triple (λ _. Unit {0}) (post_in_transaction dto) Found (λ _. Unit)
  unfolding post_in_transaction find_active_for_wallet
  post-Found = Triple-bind _ (Triple-any (move dto)) λ wallet. gets-bind _ λ account.
      gets-bind _ λ now. insert-Found wallet.currency (account_or_manual account) wallet.balance now

  replay-Found :
      (e : Error) → Triple Unchanged (replay_or_raise dto.reference e) (λ r. Found r.0) Unchanged
  unfolding replay_or_raise find_existing ◌>>=◌
  replay-Found e = record {
    at = λ d p. elim (Bool-cases (is_unique_violation e)) [
      | inl clash ↦ elim (Option-cases (find? (is_posted dto.reference) d.transactions)) [
        | inl absent ↦ rw (clash, absent) p
        | inr (t, found) ↦ rw (clash, found) found
      ]
      | inr other ↦ rw other p
    ];
  }

  announce-IsRecorded :
      (t : Transaction) (replayed : Bool)
      → Triple (Found t) (announce_posting dto.type (t, replayed)) IsRecorded Unchanged
  unfolding announce_posting ◌>>=◌ notify
  announce-IsRecorded t true = record { at = λ d p. (t, (p, refl)) }
  announce-IsRecorded t false = record { at = λ d p. (t, (p, refl)) }

  post_new-IsRecorded : Triple Unchanged (post_new dto) IsRecorded Unchanged
  unfolding post_new pure
  post_new-IsRecorded =
      Triple-bind (λ r. Found r.0)
        (Triple-catch Unchanged
          (Triple-bind Found
            (Triple-transaction (λ _ p. p) (assuming (λ _. Unit {0}) (λ _ _. tt) post-Found))
            λ t. record { at = λ d p. p })
          replay-Found)
        λ r. announce-IsRecorded r.0 r.1

  positive_amount :
      (v : PostingView) (d : Db) → post dto none db ≡ (ok v, d) → (dto.amount == 0) ≡ false
  unfolding post ◌>>=◌
  positive_amount v d e = elim (Bool-cases (dto.amount == 0)) [
    | inl nothing ↦ cc (e, rejected nothing)
    | inr positive ↦ positive
  ]
    where
      rejected : (dto.amount == 0) ≡ true → post dto none db ≡ (err amount_not_positive, db)
      rejected nothing = rw nothing refl

  -- A posting with no race ends with a row under its reference, which its answer is about, or it
  -- throws and changes nothing.
  pub post_alone : Ends IsRecorded Unchanged (post dto none db)
  unfolding post find_existing ◌>>=◌
  post_alone = elim (Bool-cases (dto.amount == 0)) [
    | inl nothing ↦ rw nothing refl
    | inr positive ↦ elim (Option-cases (find? (is_posted dto.reference) db.transactions)) [
      | inl absent ↦ rw (positive, absent) (post_new-IsRecorded.at db refl)
      | inr (t, found) ↦ rw (positive, found) (t, (found, refl))
    ]
  ]

  -- A posting that was made and is asked for again, with the same reference, answers the same, as a
  -- replay, and changes nothing: no money moves a second time, and no row is added.
  pub post_twice :
      (v : PostingView) (d : Db) (race : Option Db)
      → post dto none db ≡ (ok v, d)
      → post dto race d ≡ (ok (record v { replayed = true }), d)
  post_twice v d race e =
      let (t, (found, same)) = subst (Ends IsRecorded Unchanged) e post_alone in
      post-replayed dto t (positive_amount v d e) race d found
      ∙ ap {B = Result PostingView × Db} (λ x. (ok x, d)) (sym same)
