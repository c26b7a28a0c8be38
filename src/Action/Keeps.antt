-- ===== src/Action/Keeps.antt =====
-- Invariants of actions, one rule for each way to build an action.
use laneq.Common.{◌≡◌, refl, Bool, true, false, Result, ok, err, Error}
use laneq.Database.{Db}
use laneq.Action.{Action, pure, lift, gets, raise_if, or_rollback, or_else, continue, ◌>>=◌}

-- The action keeps `P`, whether it returns or raises.
pub record Keeps {A : Type 0} (P : Db → Type 0) (m : Action A) : Type 0 where
  pub at : (db : Db) → P db → P (m db).1

module _ {A : Type 0} {P : Db → Type 0} where
  pub Keeps-pure : (a : A) → Keeps P (pure a)
  unfolding pure
  Keeps-pure a = record { at = λ db h. h }

  pub Keeps-lift : (r : Result A) → Keeps P (lift r)
  unfolding lift
  Keeps-lift r = record { at = λ db h. h }

  pub Keeps-gets : (f : Db → A) → Keeps P (gets f)
  unfolding gets
  Keeps-gets f = record { at = λ db h. h }

  pub Keeps-or_rollback : (b : Bool) (m : Action A) → Keeps P m → Keeps P (or_rollback b m)
  unfolding or_rollback
  Keeps-or_rollback b m k = record { at = λ db h. go b (m db).0 db (m db).1 h (k.at db h) }
    where
      go : (b : Bool) (r : Result A) (d e : Db) → P d → P e → P (or_else b r d e)
      go b (ok a) d e h k = k
      go true (err x) d e h k = h
      go false (err x) d e h k = k

module _ {P : Db → Type 0} where
  pub Keeps-raise_if : (b : Bool) (e : Error) → Keeps P (raise_if b e)
  unfolding raise_if
  Keeps-raise_if b e = record { at = λ db h. h }

module _ {A B : Type 0} {P : Db → Type 0} where
  -- The rest of the block may use that `r` did not raise.
  pub Keeps-continue :
      (r : Result A) (f : A → Action B)
      → ((a : A) → r ≡ ok a → Keeps P (f a))
      → Keeps P (continue r f)
  Keeps-continue (ok a) f k = k a refl
  Keeps-continue (err e) f k = record { at = λ db h. h }

  pub Keeps-bind-lift :
      (r : Result A) (f : A → Action B)
      → ((a : A) → r ≡ ok a → Keeps P (f a))
      → Keeps P (lift r >>= f)
  unfolding ◌>>=◌
  Keeps-bind-lift r f k = record { at = λ db h. (Keeps-continue r f k).at db h }

  pub Keeps-bind :
      (m : Action A) (f : A → Action B) → Keeps P m → ((a : A) → Keeps P (f a)) → Keeps P (m >>= f)
  unfolding ◌>>=◌
  Keeps-bind m f km kf = record {
    at = λ db h. (Keeps-continue (m db).0 f (λ a _. kf a)).at (m db).1 (km.at db h);
  }

pub ruleset keeps_rules =
    (Keeps-pure, Keeps-lift, Keeps-gets, Keeps-raise_if, Keeps-or_rollback, Keeps-bind)
