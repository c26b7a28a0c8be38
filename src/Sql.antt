-- ===== src/Sql.antt =====
-- The SQL that the source runs, over a table as the list of its rows: SELECT with a WHERE clause,
-- UPDATE and its `rowcount`, ORDER BY.
pub mod Order
use laneq.Common.{ℕ, suc, List, [], ◌∷◌, Bool, true, false, Option, none, some, if◌then◌else◌}

module _ {ℓ} {A : Type ℓ} where
  -- SELECT … WHERE test
  abbrev pub select : (A → Bool) → List A → List A
  select test [] = []
  select test (r ∷ rs) = if test r then r ∷ select test rs else select test rs

  -- The `fetchone` of such a SELECT.
  abbrev pub first : (A → Bool) → List A → Option A
  first test [] = none
  first test (r ∷ rs) = if test r then some r else first test rs

  -- SELECT 1 … is not None
  abbrev pub exists : (A → Bool) → List A → Bool
  exists test [] = false
  exists test (r ∷ rs) = if test r then true else exists test rs

  -- UPDATE … SET change WHERE test
  abbrev pub update : (A → Bool) → (A → A) → List A → List A
  update test change [] = []
  update test change (r ∷ rs) = (if test r then change r else r) ∷ update test change rs

  -- SELECT COUNT(*) … WHERE test; the `rowcount` of an UPDATE with that WHERE clause.
  abbrev pub count : (A → Bool) → List A → ℕ
  count test [] = 0
  count test (r ∷ rs) = if test r then suc (count test rs) else count test rs

  -- ORDER BY: rows that `before` leaves level stay in the order of the table.
  abbrev pub insert_by : (A → A → Bool) → A → List A → List A
  insert_by before a [] = a ∷ []
  insert_by before a (b ∷ bs) = if before a b then a ∷ b ∷ bs else b ∷ insert_by before a bs

  unfoldable pub order_by : (A → A → Bool) → List A → List A
  order_by before [] = []
  order_by before (r ∷ rs) = insert_by before r (order_by before rs)
