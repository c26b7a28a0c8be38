-- ===== src/Action.antt =====
-- Calls on the database, as actions: an action returns or raises, and leaves a committed database.
pub mod Keeps
pub mod Returns
use laneq.Common.{
  ℕ, ◌+◌, List, [], ◌∷◌, ◌++◌, Bool, true, false, Result, ok, err, Error, if◌then◌else◌,
}
use laneq.Sql.{update, count}
use laneq.Database.{Directive, Db, connect}

abbrev pub Action : Type 0 → Type 0
Action A = Db → Result A × Db

unfoldable pub pure : {A : Type 0} → A → Action A
pure a db = (ok a, db)

unfoldable pub raise : {A : Type 0} → Error → Action A
raise e db = (err e, db)

-- A step that does not touch the database.
unfoldable pub lift : {A : Type 0} → Result A → Action A
lift r db = (r, db)

unfoldable pub gets : {A : Type 0} → (Db → A) → Action A
gets f db = (ok (f db), db)

unfoldable pub modify : (Db → Db) → Action Unit
modify f db = (ok tt, f db)

unfoldable pub raise_if : Bool → Error → Action Unit
raise_if c e db = (if c then err e else ok tt, db)

-- The connection that an operation opens.
unfoldable pub open_connection : Action Unit
open_connection db = (ok tt, connect db)

-- UPDATE directives SET change WHERE test; the result is the `rowcount`.
unfoldable pub update_where : (Directive → Bool) → (Directive → Directive) → Action ℕ
update_where test change db =
    (ok (count test db.directives), record db { directives = update test change db.directives })

-- INSERT INTO directives; the result is `lastrowid`.
unfoldable pub insert_directive : (ℕ → Directive) → Action ℕ
insert_directive make db = (
  ok db.next_id,
  record db { directives = db.directives ++ make db.next_id ∷ []; next_id = db.next_id + 1 },
)

abbrev pub or_else : {A : Type 0} → Bool → Result A → Db → Db → Db
or_else opened (ok a) before after = after
or_else opened (err e) before after = if opened then before else after

-- A transaction that the caller has opened: an exception leaves it uncommitted.
unfoldable pub or_rollback : {A : Type 0} → Bool → Action A → Action A
or_rollback opened m db = let (r, db') = m db in (r, or_else opened r db db')

abbrev pub continue : {A B : Type 0} → Result A → (A → Action B) → Action B
continue (ok a) f db = f a db
continue (err e) f db = (err e, db)

-- Opening `◌>>=◌` opens the steps above too.
infixl 5 ◌>>=◌ ◌>>◌
unfoldable pub ◌>>=◌ : {A B : Type 0} → Action A → (A → Action B) → Action B
unfolding pure raise lift gets modify raise_if open_connection update_where insert_directive
    or_rollback
◌>>=◌ m f db = let (r, db') = m db in continue r f db'

abbrev pub ◌>>◌ : {A B : Type 0} → Action A → Action B → Action B
m >> k = m >>= λ _. k
