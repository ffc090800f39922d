-- ===== src/Payment/Ledger/Triples.antt =====
-- The triples of the writes: what they do to the books of a wallet `w`, with a predicate `R` on
-- the rest of the state that the write does not touch.
use fiam_retail_apis.Common.{
  ◌∙◌, [], ◌≤◌, ◌∷◌, ◌++◌, none, any, refl, ℕ, ◌+◌, ◌-◌, ◌≡◌, inl, inr, Option, some, List, arith,
  if◌then◌else◌, ◌==◌, Option-cases, Bool-cases, ltb, String,
}
use fiam_retail_apis.Common.Table.{find-append_new, key-find, find, find-update_self}
use mathlib.Core.Path.{subst, sym}
use fiam_retail_apis.Payment.Store.{
  same_reference, external_taken, Db, ◌>>=◌, insert_transaction, update_transaction,
  update_with_external, find_wallet, set_balance, external_clash,
}
use fiam_retail_apis.Payment.Entities.{Wallet, Transaction}
use fiam_retail_apis.Payment.Wallets.{credit_for_update, debit_for_update}
use fiam_retail_apis.Payment.Ledger.{
  IsFresh, IsOff, IsBalanced, Triple, Keeps, spent_of, received_of,
}
use fiam_retail_apis.Payment.Ledger.Moves.{
  wallet_key, transaction_key, balance_of-found, balance_of-update, spent-insert, spent-update,
  received-insert, received-update,
}

-- An amount that goes to wallet `id`, as wallet `w` sees it.
abbrev pub share : ℕ → ℕ → ℕ → ℕ
share w id amount = if id == w then amount else 0

module _ (w : ℕ) (R : Db → Type 0)
    (stable : (db : Db) (ws : List Wallet) → R db → R (record db { wallets = ws })) where
  pub credit-Triple :
      (out put id amount : ℕ)
      → Triple
          (λ db. IsOff w out put db × R db)
          (credit_for_update id amount)
          (λ x db. IsOff w out (put + share w id amount) db × R db)
          (λ db. IsOff w out put db × R db)
  unfolding credit_for_update find_wallet set_balance ◌>>=◌
  credit-Triple out put id amount = record {
    at = λ db p. elim (Option-cases (find wallet_key id db.wallets)) [
      | inl missing ↦ rw missing p
      | inr (x, found) ↦ rw found (
        ground (
          arith,
          balance_of-found id x db.wallets found,
          balance_of-update w id (x.balance + amount) x db.wallets found,
        ),
        stable db _ p.1,
      )
    ];
  }

  pub debit-Triple :
      (out put id amount : ℕ)
      → Triple
          (λ db. IsOff w out put db × R db)
          (debit_for_update id amount)
          (λ x db. IsOff w (out + share w id amount) put db × R db)
          (λ db. IsOff w out put db × R db)
  unfolding debit_for_update find_wallet set_balance ◌>>=◌
  debit-Triple out put id amount = record {
    at = λ db p. elim (Option-cases (find wallet_key id db.wallets)) [
      | inl missing ↦ rw missing p
      | inr (x, found) ↦ elim (Bool-cases (ltb x.balance amount)) [
        | inl short ↦ rw (found, short) p
        | inr enough ↦
            rw (found, enough)
              (
                ground (
                  arith,
                  balance_of-found id x db.wallets found,
                  balance_of-update w id (x.balance - amount) x db.wallets found,
                ),
                stable db _ p.1,
              )
      ]
    ];
  }

module _ (w : ℕ) where
  -- A row that accounts for what was taken or given balances the books again.
  pub insert-Triple :
      (out put s q : ℕ) (make : ℕ → Transaction)
      → ((id : ℕ) → (spent_of w (make id) ≡ s) × (received_of w (make id) ≡ q))
      → Triple
          (IsOff w (out + s) (put + q))
          (insert_transaction make)
          (λ t db. IsOff w out put db)
          (λ _. Unit)
  unfolding insert_transaction
  insert-Triple out put s q make shares = record {
    at = λ db p. ground (
      arith,
      shares db.next_id,
      spent-insert w (make db.next_id) db.transactions,
      received-insert w (make db.next_id) db.transactions,
    );
  }

-- A row with no share leaves the books alone, and so does an insert that throws.
pub insert-Keeps :
    (w : ℕ) (make : ℕ → Transaction)
    → ((id : ℕ) → (spent_of w (make id) ≡ 0) × (received_of w (make id) ≡ 0))
    → Keeps (IsBalanced w) (insert_transaction make)
unfolding insert_transaction
insert-Keeps w make shares = record {
  at = λ db p. ground (
    arith,
    shares db.next_id,
    spent-insert w (make db.next_id) db.transactions,
    received-insert w (make db.next_id) db.transactions,
  );
}

-- The row that an update changes, as it stands in the table.
abbrev pub Holds : ℕ → Transaction → List Transaction → Type 0
Holds id t txs = find transaction_key id txs ≡ some t

pub Holds-self :
    (id : ℕ) (t : Transaction) (txs : List Transaction) → Holds id t txs → Holds t.id t txs
Holds-self id t txs h = subst (λ k. Holds k t txs) (sym (key-find transaction_key id t txs h)) h

Holds-insert :
    (t : Transaction) (txs : List Transaction)
    → find transaction_key t.id txs ≡ none
    → Holds t.id t (txs ++ (t ∷ []))
Holds-insert t txs h = find-append_new transaction_key t.id t txs h ∙ ground arith

IsFresh-insert :
    (id next : ℕ) (t : Transaction) (txs : List Transaction)
    → find transaction_key id txs ≡ none
    → t.id ≡ next
    → next + 1 ≤ id
    → find transaction_key id (txs ++ (t ∷ [])) ≡ none
IsFresh-insert id next t txs h e later = find-append_new transaction_key id t txs h ∙ ground arith

-- A row that is inserted stands in the table, under the key that was fresh.
pub insert-Holds :
    (make : ℕ → Transaction)
    → ((id : ℕ) → (make id).id ≡ id)
    → Triple IsFresh
        (insert_transaction make)
        (λ t db. ((id : ℕ) × (t ≡ make id)) × Holds t.id t db.transactions × IsFresh db)
        IsFresh
unfolding insert_transaction
insert-Holds make keyed = record {
  at = λ db fresh.
      let t = make db.next_id in
      elim (Bool-cases (any (same_reference t.provider t.reference) db.transactions)) [
        | inl clash ↦ rw clash fresh
        | inr new ↦ elim (Bool-cases (external_taken t.external_id db.transactions)) [
          | inl clash ↦ rw (new, clash) fresh
          | inr unused ↦
              rw (new, unused)
                (
                  (db.next_id, refl),
                  Holds-insert t db.transactions (fresh t.id (omega (arith, keyed db.next_id))),
                  λ id later.
                      IsFresh-insert id db.next_id t db.transactions (fresh id (omega arith))
                        (keyed db.next_id) later,
                )
        ]
      ];
}

module _ (w : ℕ) (id : ℕ) (cur : Transaction) (f : Transaction → Transaction) where
  -- An update of a row, by what it changes of the row's own share.
  pub update-Triple :
      (out put out' put' : ℕ)
      → out + spent_of w cur + put' + received_of w (f cur)
        ≡ out' + spent_of w (f cur) + put + received_of w cur
      → Triple
          (λ db. IsOff w out put db × Holds id cur db.transactions)
          (update_transaction id f)
          (λ _ db. IsOff w out' put' db)
          (λ db. IsOff w out put db)
  unfolding update_transaction
  update-Triple out put out' put' same = record {
    at = λ db p. omega (
      arith,
      spent-update w id f cur db.transactions p.1,
      received-update w id f cur db.transactions p.1,
    );
  }

  -- An update that leaves the row's share alone.
  module _ (s : spent_of w (f cur) ≡ spent_of w cur)
      (r : received_of w (f cur) ≡ received_of w cur) where
    pub update-IsBalanced :
        Triple
          (λ db. IsBalanced w db × Holds id cur db.transactions)
          (update_transaction id f)
          (λ _. IsBalanced w)
          (IsBalanced w)
    unfolding update_transaction
    update-IsBalanced = record {
      at = λ db p. omega (
        arith,
        spent-update w id f cur db.transactions p.1,
        received-update w id f cur db.transactions p.1,
      );
    }

    -- The changed row stands in the table.
    pub update-Standing :
        cur.id ≡ (f cur).id
        → Triple
            (λ db. IsBalanced w db × Holds id cur db.transactions)
            (update_transaction id f)
            (λ _ db. IsBalanced w db × Holds id (f cur) db.transactions)
            (IsBalanced w)
    unfolding update_transaction
    update-Standing k = record {
      at = λ db p. (
        omega (
          arith,
          spent-update w id f cur db.transactions p.1,
          received-update w id f cur db.transactions p.1,
        ),
        find-update_self transaction_key id f cur db.transactions p.1 (cc k),
      );
    }

    -- It throws on a clash of external_id.
    pub update_with_external-IsBalanced :
        (external : Option String)
        → cur.id ≡ (f cur).id
        → Triple
            (λ db. IsBalanced w db × Holds id cur db.transactions)
            (update_with_external id external f)
            (λ _ db. IsBalanced w db × Holds id (f cur) db.transactions)
            (IsBalanced w)
    unfolding update_with_external
    update_with_external-IsBalanced external k = record {
      at = λ db p. elim (Bool-cases (external_clash id external db.transactions)) [
        | inl clash ↦ rw clash p.0
        | inr free ↦ rw free (
          omega (
            arith,
            spent-update w id f cur db.transactions p.1,
            received-update w id f cur db.transactions p.1,
          ),
          find-update_self transaction_key id f cur db.transactions p.1 (cc k),
        )
      ];
    }
