-- ===== src/Admin/Postings/Lifecycle.antt =====
-- How a posting may change from one committed state of the tables to a later one.
use fiam_retail_apis.Common.{
  inr, inl, Bool-cases, ==_iff, same_id_refl, option_map, refl, same_id, ◌||◌, ◌&&◌, arith, ◌==◌,
  ◌≡◌, Option, Bool, List, ℕ, true, false, some, none, [], ◌∷◌, ◌++◌, if◌then◌else◌,
}
use fiam_retail_apis.Common.Table.{find-update, find-append, update, find}
use mathlib.Core.Path.{subst}
use fiam_retail_apis.Admin.Desk.{is_pending, Posting, PostingStatus, posting_key}

-- The reachable part of the diagram from each status.
abbrev pub may_become : PostingStatus → PostingStatus → Bool
may_become PostingStatus.pending _ = true
may_become PostingStatus.processing PostingStatus.processing = true
may_become PostingStatus.processing PostingStatus.posted = true
may_become PostingStatus.processing PostingStatus.failed = true
may_become PostingStatus.posted PostingStatus.posted = true
may_become PostingStatus.rejected PostingStatus.rejected = true
may_become PostingStatus.cancelled PostingStatus.cancelled = true
may_become PostingStatus.failed PostingStatus.failed = true
may_become _ _ = false

-- Who asked for a posting never changes, and who decided it does not change again.
abbrev pub evolves : Posting → Posting → Bool
evolves p q =
    p.requested_by_id == q.requested_by_id
    && (may_become p.status q.status
        && (is_pending p.status || same_id p.decided_by_id q.decided_by_id))

abbrev pub row_evolves : Option Posting → Option Posting → Bool
row_evolves none _ = true
row_evolves (some p) none = false
row_evolves (some p) (some q) = evolves p q

-- Every posting of `before` is still there in `after`, and has changed at most as it may.
abbrev pub IsLater : List Posting → List Posting → Type 0
IsLater before after =
    (id : ℕ) → row_evolves (find posting_key id before) (find posting_key id after) ≡ true

may_become_refl : (s : PostingStatus) → may_become s s ≡ true
may_become_refl s = ground arith

evolves_refl : (p : Posting) → evolves p p ≡ true
evolves_refl p = ground (arith, may_become_refl p.status, same_id_refl p.decided_by_id)

may_become_trans :
    (s t u : PostingStatus) → may_become s t ≡ true → may_become t u ≡ true → may_become s u ≡ true
may_become_trans s t u h k = ground arith

row_evolves_trans :
    (o p q : Option Posting)
    → row_evolves o p ≡ true
    → row_evolves p q ≡ true
    → row_evolves o q ≡ true
row_evolves_trans none p q h k = refl
row_evolves_trans (some o) none q h k = cc
row_evolves_trans (some o) (some p) none h k = cc
row_evolves_trans (some o) (some p) (some q) h k =
    ground (arith, may_become_trans o.status p.status q.status)

row_evolves_refl : (o : Option Posting) → row_evolves o o ≡ true
row_evolves_refl none = refl
row_evolves_refl (some p) = evolves_refl p

pub IsLater-refl : (ps : List Posting) → IsLater ps ps
IsLater-refl ps id = row_evolves_refl (find posting_key id ps)

pub IsLater-trans : (a b c : List Posting) → IsLater a b → IsLater b c → IsLater a c
IsLater-trans a b c h k id =
    row_evolves_trans (find posting_key id a) (find posting_key id b) (find posting_key id c) (h id)
      (k id)

changed_row :
    (j id : ℕ) (f : Posting → Posting) (o : Option Posting)
    → ((p : Posting) → o ≡ some p → (j == id) ≡ true → evolves p (f p) ≡ true)
    → row_evolves o (if j == id then option_map f o else o) ≡ true
changed_row j id f none step = refl
changed_row j id f (some p) step = elim (Bool-cases (j == id)) [
  | inl hit ↦ rw hit (step p refl hit)
  | inr miss ↦ rw miss (evolves_refl p)
]

pub update-IsLater :
    (id : ℕ) (f : Posting → Posting) (ps : List Posting)
    → ((p : Posting) → posting_key (f p) ≡ posting_key p)
    → ((p : Posting) → find posting_key id ps ≡ some p → evolves p (f p) ≡ true)
    → IsLater ps (update posting_key id f ps)
update-IsLater id f ps same step j = rw (find-update posting_key j id f ps same) (
    changed_row j id f (find posting_key j ps) λ p found hit.
      step p (subst (λ k. find posting_key k ps ≡ some p) ((==_iff j id).0 hit) found))

appended_row :
    (p : Posting) (ps : List Posting) (id : ℕ) (o : Option Posting)
    → find posting_key id ps ≡ o
    → row_evolves o (find posting_key id (ps ++ (p ∷ []))) ≡ true
appended_row p ps id none e = refl
appended_row p ps id (some q) e = rw (find-append posting_key id q ps (p ∷ []) e) (evolves_refl q)

pub insert-IsLater : (p : Posting) (ps : List Posting) → IsLater ps (ps ++ (p ∷ []))
insert-IsLater p ps id = appended_row p ps id (find posting_key id ps) refl
