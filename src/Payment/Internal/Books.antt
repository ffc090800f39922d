-- ===== src/Payment/Internal/Books.antt =====
-- The books of every wallet stay balanced under staff postings and assigned deposits.
use fiam_retail_apis.Payment.Ledger.Rules.{
  fact-bind, Triple-and, relax, Triple-transaction, assuming, gets-bind, raise_if-bind, Triple-bind,
}
use fiam_retail_apis.Payment.Ledger.Keeping.{
  Keeps-raise, modify-Triple, Keeps-pure, Keeps-gets, Keeps-raise_if, Keeps-catch, Keeps-bind,
  keeps_rules,
}
use fiam_retail_apis.Payment.Ledger.Triples.{
  Holds-self, update-Triple, credit-Triple, debit-Triple, share, insert-Triple, Holds,
}
use fiam_retail_apis.Payment.Ledger.Reads.{lookup-bind, IsOff→IsBalanced, notify-Keeps}
use fiam_retail_apis.Payment.Internal.{
  announce_assignment, is_replay, assign, AssignResult, transaction_not_found,
  assign_in_transaction, account_or_manual, commit_race, view, pure, mark_assigned,
  is_unique_violation, PostingView, awaits_assignment, find_existing, announce_posting, assign_row,
  post, posting_row, post_in_transaction, post_new, replay_or_raise, move, AssignUnmatchedDto,
  CreatePostingDto,
}
use fiam_retail_apis.Payment.Ledger.{IsBalanced, IsOff, received_of, Triple, Keeps, spent_of}
use fiam_retail_apis.Payment.Store.{
  or_raise, ◌>>◌, Error, Db, find_wallet, set_balance, ◌>>=◌, find_transaction,
}
use fiam_retail_apis.Common.{
  Option-cases, not, if◌then◌else◌, none, refl, inr, false, inl, arith, true, some, ◌+◌, String,
  Bool-cases, ◌≡◌, Bool, Option, ℕ,
}
use fiam_retail_apis.Payment.Wallets.{credit_for_update, find_active_for_wallet}
use fiam_retail_apis.Payment.Ledger.Moves.{wallet_key}
use fiam_retail_apis.Common.Table.{key-find, find}
use fiam_retail_apis.Payment.Entities.{is_debit, Wallet, CurrencyCode, Transaction}

module _ (w : ℕ) (dto : CreatePostingDto) where
  -- What a posting takes and gives, as wallet `w` sees it.
  abbrev taken : ℕ
  taken = if is_debit dto.type then share w dto.wallet_id dto.amount else 0

  abbrev given : ℕ
  given = if is_debit dto.type then 0 else share w dto.wallet_id dto.amount

  posting_row_share :
      (currency : CurrencyCode) (account : String) (balance now id : ℕ)
      → (spent_of w (posting_row dto currency account balance now id) ≡ taken)
        × (received_of w (posting_row dto currency account balance now id) ≡ given)
  unfolding posting_row spent_of received_of
  posting_row_share currency account balance now id = ground arith

  move-Triple :
      Triple
        (λ db. IsOff w 0 0 db × Unit {0})
        (move dto)
        (λ _ db. IsOff w (0 + taken) (0 + given) db × Unit {0})
        (λ _. Unit)
  unfolding move
  move-Triple = elim (Bool-cases (is_debit dto.type)) [
    | inl out ↦
        rw out (relax (debit-Triple w (λ _. Unit) (λ _ _ u. u) 0 0 dto.wallet_id dto.amount))
    | inr in_ ↦
        rw in_ (relax (credit-Triple w (λ _. Unit) (λ _ _ u. u) 0 0 dto.wallet_id dto.amount))
  ]

  post_in_transaction-Triple :
      Triple
        (λ db. IsOff w 0 0 db × Unit {0})
        (post_in_transaction dto)
        (λ _. IsOff w 0 0)
        (λ _. Unit)
  unfolding post_in_transaction find_active_for_wallet
  post_in_transaction-Triple = Triple-bind _ move-Triple λ wallet. gets-bind _ λ account.
      gets-bind _ λ now.
        assuming (IsOff w (0 + taken) (0 + given)) (λ db p. p.0)
          (insert-Triple w 0 0 taken given _
            (posting_row_share wallet.currency (account_or_manual account) wallet.balance now))

  replay_or_raise-Keeps : (e : Error) → Keeps (IsBalanced w) (replay_or_raise dto.reference e)
  unfolding replay_or_raise
  replay_or_raise-Keeps e = elim (Bool-cases (is_unique_violation e)) [
    | inl lost ↦ rw lost search keeps_rules
    | inr other ↦ rw other search keeps_rules
  ]

  announce_posting-Keeps :
      (t : Transaction) (replayed : Bool)
      → Keeps (IsBalanced w) (announce_posting dto.type (t, replayed))
  unfolding announce_posting
  announce_posting-Keeps t true = search keeps_rules
  announce_posting-Keeps t false = search (keeps_rules, notify-Keeps)

  post_new-Keeps : Keeps (IsBalanced w) (post_new dto)
  unfolding post_new
  post_new-Keeps =
      Keeps-bind _ _
        (Keeps-catch _ _
          (Keeps-bind _ _
            (Triple-transaction (λ _ p. p)
              (assuming (λ db. IsBalanced w db × Unit {0}) (λ _ p. (p, tt))
                (IsOff→IsBalanced w (λ _. Unit) post_in_transaction-Triple)))
            λ t. Keeps-pure _)
          replay_or_raise-Keeps)
        λ result. announce_posting-Keeps result.0 result.1

  replay_found-Keeps :
      (race : Option Db) (replay : Option Transaction)
      → ((winner : Db) → race ≡ some winner → IsBalanced w winner)
      → Keeps {A = PostingView}
          (IsBalanced w)
          (elim replay [ some t ↦ pure (view t true) | none ↦ commit_race race >> post_new dto ])
  replay_found-Keeps race (some t) fair = search keeps_rules
  replay_found-Keeps none none fair = Keeps-bind _ _ (Keeps-pure _) λ _. post_new-Keeps
  replay_found-Keeps (some winner) none fair =
      Keeps-bind _ _ (modify-Triple (IsBalanced w) _ λ _ _. fair winner refl) λ _. post_new-Keeps

  -- A posting, whatever a concurrent call with the same reference commits meanwhile.
  pub post-Keeps :
      (race : Option Db)
      → ((winner : Db) → race ≡ some winner → IsBalanced w winner)
      → Keeps (IsBalanced w) (post dto race)
  unfolding post find_existing
  post-Keeps race fair =
      Keeps-bind _ _ (Keeps-raise_if _ _)
        λ _. Keeps-bind _ _ (Keeps-gets _) λ replay. replay_found-Keeps race replay fair

-- The wallet that is credited is the one that was named.
credited-key :
    (id amount : ℕ)
    → Triple (λ _. Unit {0}) (credit_for_update id amount) (λ x _. x.id ≡ id) (λ _. Unit)
unfolding credit_for_update find_wallet set_balance ◌>>=◌
credited-key id amount = record {
  at = λ db _. elim (Option-cases (find wallet_key id db.wallets)) [
    | inl missing ↦ rw missing tt
    | inr (x, found) ↦ rw found (key-find wallet_key id x db.wallets found)
  ];
}

module _ (w : ℕ) (dto : AssignUnmatchedDto) (cur : Transaction) where
  assigned_share :
      (x : Wallet) (now : ℕ)
      → x.id ≡ dto.wallet_id
      → not (awaits_assignment cur) ≡ false
      → (spent_of w (mark_assigned dto x now cur) ≡ spent_of w cur)
        × (received_of w (mark_assigned dto x now cur)
            ≡ share w dto.wallet_id cur.amount + received_of w cur)
  unfolding spent_of received_of
  assigned_share x now e waits = ground arith

  keeps_read :
      Triple {A = AssignResult}
        (IsOff w 0 0)
        (do
          found ← find_transaction cur.id
          done ← or_raise found transaction_not_found
          pure (record { transaction = done; replayed = false }))
        (λ _. IsOff w 0 0)
        (λ _. Unit)
  unfolding find_transaction
  keeps_read = relax {E = IsOff w 0 0} (search keeps_rules)

  assign_row-Triple :
      Triple
        (λ db. IsOff w 0 0 db × Holds cur.id cur db.transactions)
        (assign_row dto cur)
        (λ _. IsOff w 0 0)
        (λ _. Unit)
  unfolding assign_row
  assign_row-Triple =
      raise_if-bind _ _ _ (λ _ _. tt)
        λ waits.
          Triple-bind _
            (relax (
              assuming (λ db. (IsOff w 0 0 db × Holds cur.id cur db.transactions) × Unit {0})
                (λ _ p. (p, tt))
                (Triple-and
                  (credit-Triple w (λ db. Holds cur.id cur db.transactions) (λ _ _ h. h) 0 0
                    dto.wallet_id cur.amount)
                  (credited-key dto.wallet_id cur.amount))))
            λ x. fact-bind λ e.
              raise_if-bind _ _ _ (λ _ _. tt)
                λ _. gets-bind _ λ now.
                  let shares = assigned_share x now e waits in
                  Triple-bind _
                    (relax (
                      update-Triple w cur.id cur (mark_assigned dto x now) 0
                        (0 + share w dto.wallet_id cur.amount) 0 0
                        (omega (arith, shares.0, shares.1))))
                    λ _. keeps_read

module _ (w id : ℕ) (dto : AssignUnmatchedDto) where
  assign_found-Triple :
      (cur : Transaction)
      → Triple
          (λ db. IsOff w 0 0 db × Holds id cur db.transactions)
          (assign_in_transaction dto (some cur))
          (λ _. IsOff w 0 0)
          (λ _. Unit)
  unfolding assign_in_transaction
  assign_found-Triple cur = elim (Bool-cases (is_replay cur dto.wallet_id)) [
    | inl again ↦
        rw again (assuming (IsOff w 0 0) (λ _ p. p.0) (relax (Keeps-pure {P = IsOff w 0 0} _)))
    | inr new ↦ rw new (
        assuming (λ db. IsOff w 0 0 db × Holds cur.id cur db.transactions)
          (λ db p. (p.0, Holds-self id cur db.transactions p.1)) (assign_row-Triple w dto cur))
  ]

  assign_in_transaction-Triple :
      Triple
        (λ db. IsOff w 0 0 db × Unit {0})
        (do t ← find_transaction id; assign_in_transaction dto t)
        (λ _. IsOff w 0 0)
        (λ _. Unit)
  unfolding assign_in_transaction
  assign_in_transaction-Triple =
      assuming (IsOff w 0 0) (λ _ p. p.0)
        (lookup-bind id (assign_in_transaction dto)
          (relax (Keeps-raise {P = IsOff w 0 0} transaction_not_found)) assign_found-Triple)

  announce_assignment-Keeps : (r : AssignResult) → Keeps (IsBalanced w) (announce_assignment r)
  unfolding announce_assignment
  announce_assignment-Keeps r = search (keeps_rules, notify-Keeps)

  pub assign-Keeps : Keeps (IsBalanced w) (assign id dto)
  unfolding assign
  assign-Keeps =
      Keeps-bind _ _
        (Triple-transaction (λ _ p. p)
          (assuming (λ db. IsBalanced w db × Unit {0}) (λ _ p. (p, tt))
            (IsOff→IsBalanced w (λ _. Unit) assign_in_transaction-Triple)))
        λ r. Keeps-bind _ _ (announce_assignment-Keeps r) λ _. Keeps-pure r
