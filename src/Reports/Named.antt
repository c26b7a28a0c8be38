-- ===== src/Reports/Named.antt =====
-- The list comprehensions of the reports return: the priority of each row has a name.
use laneq.Common.{ℕ, zero, suc, ◌<◌, ◌≡◌, refl, ap, List, [], ◌∷◌, arith, Result, ok}
use laneq.Common.Lists.{length}
use laneq.Text.{Text}
use laneq.Sql.Order.{Every}
use laneq.Database.{Directive}
use laneq.Core.Guard.{priority_name}
use laneq.Reports.{cons_ok, for_each, thread_item, thread_item_of, item, item_of, ThreadItem, Item}

pub cons_ok-both {κ} :
    {B : Type κ} {y : Result B} {ys : Result (List B)} {b : B} {bs : List B}
    → y ≡ ok b
    → ys ≡ ok bs
    → cons_ok y ys ≡ ok (b ∷ bs)
cons_ok-both h k = rw (h, k) refl

pub named : (n : ℕ) → n < 3 → (name : Text) × (priority_name n ≡ ok name)
unfolding priority_name
named zero h = (_, refl)
named (suc zero) h = (_, refl)
named (suc (suc zero)) h = (_, refl)
named (suc (suc (suc n))) h = absurd (omega arith)

pub thread_item-returns :
    (r : Directive) → r.priority < 3 → (x : ThreadItem) × (thread_item r ≡ ok x)
unfolding thread_item
thread_item-returns r h =
    let (name, e) = named r.priority h in (thread_item_of r name, rw (thread_item, e) refl)

pub item-returns : (r : Directive) → r.priority < 3 → (x : Item) × (item r ≡ ok x)
unfolding item
item-returns r h = let (name, e) = named r.priority h in (item_of r name, rw (item, e) refl)

-- The comprehension returns a list as long as the rows.
pub for_each-returns :
    {B : Type 0} (f : Directive → Result B)
    → ((r : Directive) → r.priority < 3 → (y : B) × (f r ≡ ok y))
    → (rows : List Directive) → Every (λ r. r.priority < 3) rows
    → (ys : List B) × (for_each f rows ≡ ok ys) × (length ys ≡ length rows)
for_each-returns f each [] h = ([], refl, refl)
for_each-returns f each (r ∷ rs) h =
    let (y, e) = each r h.0 in
    let (ys, es, l) = for_each-returns f each rs h.1 in (y ∷ ys, cons_ok-both e es, ap suc l)
