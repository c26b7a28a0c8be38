-- ===== src/Action/Returns.antt =====
-- What follows from the result of a call: each of its steps has returned, or the database is the
-- one from before.
use laneq.Common.{◌≡◌, refl, true, Result, ok, err, Error, Result-cases, inl, inr, ◌⊎◌}
use laneq.Database.{Db}
use laneq.Action.{Action, or_rollback, continue, ◌>>=◌}

module _ {A B : Type 0} where
  continue-eq-ok :
      (r : Result A) (f : A → Action B) (db : Db) {b : B}
      → (continue r f db).0 ≡ ok b
      → (a : A) × (r ≡ ok a) × ((f a db).0 ≡ ok b) × ((continue r f db).1 ≡ (f a db).1)
  continue-eq-ok (ok a) f db h = (a, refl, h, refl)
  continue-eq-ok (err e) f db h = cc

  -- A block returns only if its first step does, and the rest of it from there.
  pub >>=-eq-ok :
      (m : Action A) (f : A → Action B) (db : Db) {b : B}
      → ((m >>= f) db).0 ≡ ok b
      → (a : A) × ((m db).0 ≡ ok a)
        × ((f a (m db).1).0 ≡ ok b)
        × (((m >>= f) db).1 ≡ (f a (m db).1).1)
  unfolding ◌>>=◌
  >>=-eq-ok m f db h = continue-eq-ok (m db).0 f (m db).1 h

module _ {A : Type 0} (m : Action A) (db : Db) where
  -- A transaction that raises changes nothing.
  pub or_rollback-err : {e : Error} → (m db).0 ≡ err e → or_rollback true m db ≡ (err e, db)
  unfolding or_rollback
  or_rollback-err h = rw h refl

  pub or_rollback-ok : {a : A} → (m db).0 ≡ ok a → or_rollback true m db ≡ m db
  unfolding or_rollback
  or_rollback-ok h = rw h refl

  pub or_rollback-result : (or_rollback true m db).0 ≡ (m db).0
  unfolding or_rollback
  or_rollback-result = refl

  -- Whatever it does, it has raised and changed nothing, or it has returned.
  pub or_rollback-cases :
      ((e : Error) × (or_rollback true m db ≡ (err e, db)))
      ⊎ ((a : A) × (or_rollback true m db ≡ m db) × ((m db).0 ≡ ok a))
  or_rollback-cases = elim (Result-cases (m db).0) [
    | inl (a, h) ↦ inr (a, or_rollback-ok h, h)
    | inr (e, h) ↦ inl (e, or_rollback-err h)
  ]
