-- ===== src/Database/Rows.antt =====
-- Tables of directives whose ids ascend, as AUTOINCREMENT makes them, and what an UPDATE does to
-- one row.
use laneq.Common.{
  ℕ, suc, ◌+◌, ◌≤◌, ◌<◌, ◌≡◌, refl, ap, Bool, true, false, ◌&&◌, List, [], ◌∷◌, ◌++◌, Option, none,
  some, arith, ◌==◌, if◌then◌else◌,
}
use laneq.Common.Lists.{mem, length}
use laneq.Sql.{select, update, insert_by, order_by}
use laneq.Sql.Order.{Every, Every-map}
use laneq.Database.{Directive, find}

-- The ids ascend, from `lo` on, and stay below `hi`.
abbrev pub Ascends : ℕ → List Directive → ℕ → Type 0
Ascends lo [] hi = lo ≤ hi
Ascends lo (r ∷ rs) hi = (lo ≤ r.id) × Ascends (suc r.id) rs hi

abbrev pub ids : List Directive → List ℕ
ids [] = []
ids (r ∷ rs) = r.id ∷ ids rs

abbrev pub apply_if : (Directive → Bool) → (Directive → Directive) → Directive → Directive
apply_if test change r = if test r then change r else r

abbrev pub KeepsId : (Directive → Directive) → Type 0
KeepsId change = (r : Directive) → (change r).id ≡ r.id

abbrev pub map_option : (Directive → Directive) → Option Directive → Option Directive
map_option f none = none
map_option f (some r) = some (f r)

module _ (test : Directive → Bool) (change : Directive → Directive) where
  pub find-update :
      KeepsId change
      → (i : ℕ) (rows : List Directive)
      → find i (update test change rows) ≡ map_option (apply_if test change) (find i rows)
  find-update keeps i [] = refl
  find-update keeps i (r ∷ rs) = ground (arith, find-update keeps i rs, keeps r)

  pub update-Ascends :
      KeepsId change
      → (lo hi : ℕ) (rows : List Directive) → Ascends lo rows hi
      → Ascends lo (update test change rows) hi
  update-Ascends keeps lo hi [] h = h
  update-Ascends keeps lo hi (r ∷ rs) h =
      ground (arith, keeps r, update-Ascends keeps (suc r.id) hi rs h.1)

  pub length-update : (rows : List Directive) → length (update test change rows) ≡ length rows
  length-update [] = refl
  length-update (r ∷ rs) = omega (arith, length-update rs)

pub Ascends-append :
    (lo hi : ℕ) (rows : List Directive) (r : Directive)
    → Ascends lo rows hi
    → r.id ≡ hi
    → Ascends lo (rows ++ r ∷ []) (hi + 1)
Ascends-append lo hi [] r h e = omega arith
Ascends-append lo hi (x ∷ xs) r h e = (h.0, Ascends-append (suc x.id) hi xs r h.1 e)

-- No row below the first id is found, nor one at or above the next.
pub find_below :
    (lo hi i : ℕ) (rows : List Directive) → Ascends lo rows hi → i < lo → find i rows ≡ none
find_below lo hi i [] h lt = refl
find_below lo hi i (r ∷ rs) h lt = ground (arith, find_below (suc r.id) hi i rs h.1)

pub find_above :
    (lo hi i : ℕ) (rows : List Directive) → Ascends lo rows hi → hi ≤ i → find i rows ≡ none
find_above lo hi i [] h le = refl
find_above lo hi i (r ∷ rs) h le =
    ground (arith, find_above (suc r.id) hi i rs h.1, Ascends-le (suc r.id) hi rs h.1)
  where
    Ascends-le : (lo hi : ℕ) (rows : List Directive) → Ascends lo rows hi → lo ≤ hi
    Ascends-le lo hi [] h = h
    Ascends-le lo hi (x ∷ xs) h = omega (arith, Ascends-le (suc x.id) hi xs h.1)

pub id_of_find : (i : ℕ) (rows : List Directive) {r : Directive} → find i rows ≡ some r → r.id ≡ i
id_of_find i [] e = cc
id_of_find i (x ∷ xs) {r} e = ground (arith, id_of_find i xs {r = r})

pub find-append :
    (i : ℕ) (rows : List Directive) (r : Directive)
    → find i (rows ++ r ∷ [])
      ≡ elim (find i rows) [ some x ↦ some x | none ↦ if r.id == i then some r else none ]
find-append i [] r = ground arith
find-append i (x ∷ xs) r = ground (arith, find-append i xs r)

pub mem_above :
    (test : Directive → Bool) (lo hi i : ℕ) (rows : List Directive)
    → Ascends lo rows hi
    → i < lo
    → mem i (ids (select test rows)) ≡ false
mem_above test lo hi i [] h lt = refl
mem_above test lo hi i (r ∷ rs) h lt = ground (arith, mem_above test (suc r.id) hi i rs h.1)

-- Beside a row with a smaller id nothing changes.
mem-select_tail :
    (test : Directive → Bool) (i : ℕ) (r : Directive) (rs : List Directive)
    → r.id < i
    → mem i (ids (select test (r ∷ rs))) ≡ mem i (ids (select test rs))
mem-select_tail test i r rs lt = ground arith

pub Every-above :
    (lo hi : ℕ) (rows : List Directive) → Ascends lo rows hi → Every (λ r. lo ≤ r.id) rows
Every-above lo hi [] h = tt
Every-above lo hi (r ∷ rs) h =
    (h.0, Every-map (λ s (le : suc r.id ≤ s.id). omega arith) rs (Every-above (suc r.id) hi rs h.1))

-- The update by the ids of the rows that `test` selects is the update by `test`.
module _ (test also : Directive → Bool) (change : Directive → Directive) where
  update-congr :
      (t u : Directive → Bool) (rows : List Directive)
      → Every (λ r. t r ≡ u r) rows
      → update t change rows ≡ update u change rows
  update-congr t u [] h = refl
  update-congr t u (r ∷ rs) h = ground (arith, update-congr t u rs h.1)

  mem-select :
      (lo hi : ℕ) (rows : List Directive)
      → Ascends lo rows hi
      → Every (λ r. mem r.id (ids (select test rows)) ≡ test r) rows
  mem-select lo hi [] h = tt
  mem-select lo hi (r ∷ rs) h = (
    ground (arith, mem_above test (suc r.id) hi r.id rs h.1),
    both rs (mem-select (suc r.id) hi rs h.1) (Every-above (suc r.id) hi rs h.1),
  )
    where
      both :
          (xs : List Directive)
          → Every (λ s. mem s.id (ids (select test rs)) ≡ test s) xs
          → Every (λ s. suc r.id ≤ s.id) xs
          → Every (λ s. mem s.id (ids (select test (r ∷ rs))) ≡ test s) xs
      both [] e a = tt
      both (x ∷ xs) e a = (ground (arith, mem-select_tail test x.id r rs a.0), both xs e.1 a.1)

  pub update_by_ids :
      (lo hi : ℕ) (rows : List Directive)
      → Ascends lo rows hi
      → update (λ r. mem r.id (ids (select test rows)) && also r) change rows
        ≡ update (λ r. test r && also r) change rows
  update_by_ids lo hi rows h =
      update-congr (λ r. mem r.id (ids (select test rows)) && also r) (λ r. test r && also r) rows
        (Every-map (λ r e. ap (λ b. b && also r) e) rows (mem-select lo hi rows h))

-- The order and the nesting of SELECTs do not matter to the ids.
module _ (test : Directive → Bool) (before : Directive → Directive → Bool) where
  mem-select-insert_by :
      (i : ℕ) (a : Directive) (xs : List Directive)
      → mem i (ids (select test (insert_by before a xs))) ≡ mem i (ids (select test (a ∷ xs)))
  mem-select-insert_by i a [] = refl
  mem-select-insert_by i a (x ∷ xs) = ground (arith, mem-select-insert_by i a xs)

  pub mem-select-order_by :
      (i : ℕ) (xs : List Directive)
      → mem i (ids (select test (order_by before xs))) ≡ mem i (ids (select test xs))
  unfolding order_by
  mem-select-order_by i [] = refl
  mem-select-order_by i (x ∷ xs) =
      ground (arith, mem-select-insert_by i x (order_by before xs), mem-select-order_by i xs)

pub select-select :
    (t u : Directive → Bool) (rows : List Directive)
    → select u (select t rows) ≡ select (λ r. t r && u r) rows
select-select t u [] = refl
select-select t u (r ∷ rs) = ground (arith, select-select t u rs)

pub select_all : (rows : List Directive) → select (λ r. true) rows ≡ rows
select_all [] = refl
select_all (r ∷ rs) = ap (◌∷◌ r) (select_all rs)

-- Each row of the table is found under its id.
pub find_each :
    (lo hi : ℕ) (rows : List Directive)
    → Ascends lo rows hi
    → Every (λ r. find r.id rows ≡ some r) rows
find_each lo hi [] h = tt
find_each lo hi (r ∷ rs) h =
    (ground arith, behind rs (find_each (suc r.id) hi rs h.1) (Every-above (suc r.id) hi rs h.1))
  where
    behind :
        (xs : List Directive)
        → Every (λ x. find x.id rs ≡ some x) xs
        → Every (λ x. suc r.id ≤ x.id) xs
        → Every (λ x. find x.id (r ∷ rs) ≡ some x) xs
    behind [] e a = tt
    behind (x ∷ xs) e a = (ground arith, behind xs e.1 a.1)
