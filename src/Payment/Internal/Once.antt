-- ===== src/Payment/Internal/Once.antt =====
-- A posting is made once for a reference, whoever wins a race.
use mathlib.Core.Path.{subst, sym}
use fiam_retail_apis.Common.{
  inr, inl, Bool-cases, [], arith, none, ◌∷◌, Option, ℕ, some, find?, true, false, ◌≡◌, List, any,
  ◌==◌, Bool, String, refl,
}
use fiam_retail_apis.Payment.Internal.{
  is_unique_violation, post_new, transaction, announce_posting, replay_or_raise, view,
  account_or_manual, find_existing, posting_row, post_in_transaction, move, CreatePostingDto, post,
}
use fiam_retail_apis.Payment.Ledger.Rules.{
  Triple-catch, assuming, Triple-transaction, Triple-bind, gets-bind,
}
use fiam_retail_apis.Payment.Ledger.Keeping.{keeps_rules, after}
use fiam_retail_apis.Payment.Store.{
  Error, ok, set_balance, find_wallet, same_reference, Db, insert_transaction, ◌>>=◌,
}
use fiam_retail_apis.Payment.Ledger.{Ends, Keeps, Triple}
use fiam_retail_apis.Payment.Wallets.{debit_for_update, credit_for_update, find_active_for_wallet}
use fiam_retail_apis.Payment.Entities.{PaymentProviderKey, CurrencyCode, Transaction}

find?-any :
    (p : Transaction → Bool) (t : Transaction) (txs : List Transaction)
    → find? p txs ≡ some t
    → any p txs ≡ true
find?-any p t [] h = cc
find?-any p t (x ∷ xs) h = ground (arith, find?-any p t xs)

abbrev pub is_posted : String → Transaction → Bool
is_posted reference t = same_reference PaymentProviderKey.manual reference t

module _ (dto : CreatePostingDto) (t : Transaction) (amount : (dto.amount == 0) ≡ false) where
  -- A posting of a positive amount whose reference stands in the table already answers with the row
  -- that is there and changes nothing.
  pub post-replayed :
      (race : Option Db) (db : Db)
      → find? (is_posted dto.reference) db.transactions ≡ some t
      → post dto race db ≡ (ok (view t true), db)
  unfolding post find_existing ◌>>=◌
  post-replayed race db seen = rw (amount, seen) refl

module _ (dto : CreatePostingDto) where
  abbrev Posted : Db → Type 0
  Posted d = any (is_posted dto.reference) d.transactions ≡ true

  find-Posted : (id : ℕ) → Keeps Posted (find_wallet id)
  unfolding find_wallet
  find-Posted id = record { at = λ db p. p }

  set-Posted : (id balance : ℕ) → Keeps Posted (set_balance id balance)
  unfolding set_balance
  set-Posted id balance = record { at = λ db p. p }

  move-Posted : Keeps Posted (move dto)
  unfolding move credit_for_update debit_for_update
  move-Posted = search (keeps_rules, find-Posted, set-Posted) depth 12

  insert-refused :
      (currency : CurrencyCode) (account : String) (balance now : ℕ)
      → Triple Posted
          (insert_transaction (posting_row dto currency account balance now))
          (λ _ _. ⊥)
          (λ _. Unit)
  unfolding insert_transaction posting_row
  insert-refused currency account balance now = record { at = λ db p. rw p tt }

  post-refused : Triple Posted (post_in_transaction dto) (λ _ _. ⊥) (λ _. Unit)
  unfolding post_in_transaction find_active_for_wallet
  post-refused =
      after _ (λ _ _. tt) move-Posted
        λ wallet. gets-bind _ λ account.
          gets-bind _
            λ now. insert-refused wallet.currency (account_or_manual account) wallet.balance now

module _ (dto : CreatePostingDto) (t : Transaction) (winner : Db)
    (seen : find? (is_posted dto.reference) winner.transactions ≡ some t) where
  abbrev Won : Db → Type 0
  Won d = d ≡ winner

  lost : Triple Won (transaction (post_in_transaction dto)) (λ _ _. ⊥) Won
  lost =
      Triple-transaction (λ _ p. p)
        (assuming (Posted dto)
          (λ d p.
            subst (λ x. Posted dto x) (sym p)
              (find?-any (is_posted dto.reference) t winner.transactions seen))
          (post-refused dto))

  replay-Triple :
      (e : Error)
      → Triple Won (replay_or_raise dto.reference e) (λ r d. (r ≡ (t, true)) × Won d) Won
  unfolding replay_or_raise find_existing ◌>>=◌
  replay-Triple e = record {
    at = λ d p. elim (Bool-cases (is_unique_violation e)) [
      | inl clash ↦ rw (clash, p, seen) (refl, refl)
      | inr other ↦ rw other p
    ];
  }

  announce-Triple :
      (r : Transaction × Bool)
      → Triple
          (λ d. (r ≡ (t, true)) × Won d)
          (announce_posting dto.type r)
          (λ v d. (v ≡ view t true) × Won d)
          Won
  unfolding announce_posting ◌>>=◌
  announce-Triple r = record { at = λ d p. rw p.0 (refl, p.1) }

  post_new-Triple : Triple Won (post_new dto) (λ v d. (v ≡ view t true) × Won d) Won
  unfolding post_new
  post_new-Triple =
      Triple-bind _
        (Triple-catch Won (Triple-bind _ lost λ _. record { at = λ d never. elim never [ ] })
          replay-Triple)
        announce-Triple

  -- A posting of a positive amount that finds no row of its reference, and loses the race with a
  -- call that commits one, answers with the winner's row or with an error, and leaves the winner's
  -- state as it is.
  pub post_lost :
      (db : Db)
      → (dto.amount == 0) ≡ false
      → find? (is_posted dto.reference) db.transactions ≡ none
      → Ends (λ v d. (v ≡ view t true) × (d ≡ winner)) (λ d. d ≡ winner) (post dto (some winner) db)
  unfolding post find_existing ◌>>=◌
  post_lost db amount new = rw (amount, new) (post_new-Triple.at winner refl)
