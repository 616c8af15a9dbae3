-- ===== src/Store/Atomic.antt =====
-- `Back.transaction`: all or nothing.
use kaepora.Base.{◌≡◌, refl, arith}
use kaepora.Base.Result.{Result, Error, ok, err}
use kaepora.Store.{World, Action, transaction}

-- After an error the database is what it was, whatever the callback had written.
pub transaction-rollback {ℓ} :
    {F : Type 0} {A : Type ℓ} (callback : Action F A) (w : World F) (e : Error)
    → (transaction callback w).0 ≡ err e
    → (transaction callback w).1.db ≡ w.db
unfolding transaction
transaction-rollback callback w e h = ground arith

module _ {ℓ} {F : Type 0} {A : Type ℓ} (callback : Action F A) (w w' : World F) where
  pub transaction-ok : (a : A) → callback w ≡ (ok a, w') → transaction callback w ≡ (ok a, w')
  unfolding transaction
  transaction-ok a e = ground (arith, e)

  pub transaction-err :
      (x : Error)
      → callback w ≡ (err x, w')
      → transaction callback w ≡ (err x, record w' { db = w.db })
  unfolding transaction
  transaction-err x e = ground (arith, e)

-- Nothing is undone where an error comes before any change.
pub transaction_quiet {ℓ} :
    {F : Type 0} {A : Type ℓ} (callback : Action F A) (w : World F) (r : Result A × World F)
    → callback w ≡ r
    → ((e : Error) → r.0 ≡ err e → r.1 ≡ w)
    → transaction callback w ≡ r
unfolding transaction
transaction_quiet callback w (ok a, w') e quiet = ground (arith, e)
transaction_quiet callback w (err x, w') e quiet = ground (arith, e, quiet x refl)
