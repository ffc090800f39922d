-- ===== src/Payment/Ledger/Endings.antt =====
-- The state in which a call ends, whether it returns or throws.
use fiam_retail_apis.Payment.Ledger.{Ends, Triple}
use fiam_retail_apis.Payment.Store.{Db, M, Result, ok, err}

same_end : {A : Type 0} (P : Db → Type 0) (r : Result A × Db) → Ends (λ _. P) P r → P r.1
same_end P (ok a, db) h = h
same_end P (err e, db) h = h

pub ends_in :
    {A : Type 0} {P Q : Db → Type 0} (m : M A) (db : Db) → Triple P m (λ _. Q) Q → P db → Q (m db).1
ends_in {Q} m db h p = same_end Q (m db) (h.at db p)
