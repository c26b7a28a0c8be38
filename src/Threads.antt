-- ===== src/Threads.antt =====
-- The threads of cli.py: `ancestors`, `descendants` and `thread_rows`. A thread is a root with all
-- the directives below it.
pub mod Termination
pub mod Descent
pub mod Within
pub mod Ascent
pub mod Membership
use laneq.Common.{
  ℕ, zero, suc, ◌+◌, List, [], ◌∷◌, ◌++◌, Bool, true, false, ◌||◌, Option, none, some, reverse,
  ◌==◌, if◌then◌else◌,
}
use laneq.Common.Lists.{mem}
use laneq.Sql.{select, order_by}
use laneq.Database.{Directive, Db, find}
use laneq.Database.Rows.{ids}
use laneq.Leases.{queue_before}

-- `row[0]`; a row that is missing ends the walk as one without a parent does.
abbrev pub parent_in : Option Directive → Option ℕ
parent_in none = none
parent_in (some r) = r.parent_id

-- The `while True` loop of `thread_rows`, a step for each unit of fuel.
unfoldable pub root_from : ℕ → List Directive → ℕ → ℕ
root_from zero rows root = root
root_from (suc fuel) rows root = elim (parent_in (find root rows)) [
  | none ↦ root
  | some parent ↦ root_from fuel rows parent
]

-- A parent has a smaller id, so that the id itself is fuel enough.
unfoldable pub thread_root : List Directive → ℕ → ℕ
unfolding root_from
thread_root rows item_id = root_from item_id rows item_id

-- The `while True` loop of `ancestors`, which collects the rows from the nearest on; `none` means
-- that the fuel has run out.
unfoldable pub walk_up : ℕ → List Directive → List ℕ → List Directive → ℕ → Option (List Directive)
walk_up zero rows seen out current = none
walk_up (suc fuel) rows seen out current = elim (parent_in (find current rows)) [
  | none ↦ some (reverse out)
  | some parent ↦ elim (mem parent seen) [
    | true ↦ some (reverse out)
    | false ↦ elim (find parent rows) [
      | none ↦ some (reverse out)
      | some row ↦ walk_up fuel rows (parent ∷ seen) (out ++ row ∷ []) row.id
    ]
  ]
]

abbrev pub or_none : Option (List Directive) → List Directive
or_none none = []
or_none (some rows) = rows

unfoldable pub ancestors : List Directive → ℕ → List Directive
unfolding walk_up
ancestors rows item_id = or_none (walk_up (suc item_id) rows [] [] item_id)

abbrev pub is_parent : ℕ → Option ℕ → Bool
is_parent i none = false
is_parent i (some parent) = parent == i

-- SELECT … WHERE parent_id=? ORDER BY priority ASC, id ASC
unfoldable pub children : List Directive → ℕ → List Directive
unfolding order_by
children rows i = order_by queue_before (select (λ r. is_parent i r.parent_id) rows)

-- The `while stack` loop of `descendants`, the top of the stack first. It returns the rows and what
-- is left on the stack.
unfoldable pub walk_down : ℕ → List Directive → List ℕ → List Directive → List Directive × List ℕ
unfolding children
walk_down zero rows stack out = (out, stack)
walk_down (suc fuel) rows [] out = (out, [])
walk_down (suc fuel) rows (current ∷ stack) out =
    walk_down fuel rows (ids (children rows current) ++ stack) (out ++ children rows current)

abbrev pub sum_over : (Directive → ℕ) → List Directive → ℕ
sum_over f [] = 0
sum_over f (r ∷ rs) = f r + sum_over f rs

-- The rounds of that loop: one for a directive, and those of its children, down to a depth.
unfoldable pub rounds : ℕ → List Directive → ℕ → ℕ
unfolding children
rounds zero rows i = 1
rounds (suc depth) rows i = suc (sum_over (λ c. rounds depth rows c.id) (children rows i))

-- No chain of parents is longer than the ids that have been given out.
unfoldable pub descendants : Db → ℕ → List Directive
unfolding walk_down rounds
descendants db item_id =
    (walk_down (rounds db.next_id db.directives item_id) db.directives (item_id ∷ []) []).0

abbrev pub row_list : Option Directive → List Directive
row_list none = []
row_list (some r) = r ∷ []

unfoldable pub thread_rows : Db → ℕ → List Directive
unfolding thread_root descendants
thread_rows db item_id =
    let root = thread_root db.directives item_id in
    row_list (find root db.directives) ++ descendants db root
