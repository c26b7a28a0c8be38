-- ===== src/Core/Picking.antt =====
-- Which directive `take` and `peek` choose.
use laneq.Common.{ℕ, ◌≡◌, refl, sym, ◌∙◌, true, false, List, [], ◌∷◌, none, some, arith, ◌↔◌}
use laneq.Common.Lists.{length}
use laneq.Text.{Text}
use laneq.Sql.{select, count, order_by}
use laneq.Sql.Order.{
  Every, Every-order_by, Every-of-order_by, Every-select, Every-of-select, Every-head, head,
  order_by-first, length-ordered_select,
}
use laneq.Database.{Policy, Directive, find}
use laneq.Database.Rows.{Ascends, find_each}
use laneq.Leases.{queue_before}
use laneq.Core.Claim.{is_eligible, next_row}

pub before_total : (a b : Directive) → queue_before a b ≡ false → queue_before b a ≡ true
before_total a b h = ground arith

pub before_trans :
    (a b c : Directive)
    → queue_before a b ≡ true
    → queue_before b c ≡ true
    → queue_before a c ≡ true
before_trans a b c h k = ground arith

pub before_refl : (a : Directive) → queue_before a a ≡ true
before_refl a = ground arith

head-none : (xs : List Directive) → (head xs ≡ none) ↔ (length xs ≡ 0)
head-none [] = (λ e. refl, λ e. refl)
head-none (x ∷ xs) = (λ e. cc, λ e. absurd (omega arith))

-- The chosen row is in the table and eligible, and no eligible row comes before it.
pub record IsNext (lane : Text) (policy : Policy) (rows : List Directive) (r : Directive)
    : Type 0 where
  pub found : find r.id rows ≡ some r
  pub eligible : is_eligible lane policy r ≡ true
  pub first_in_queue : Every (λ x. is_eligible lane policy x ≡ true → queue_before r x ≡ true) rows

module _ (lane : Text) (policy : Policy) (rows : List Directive) where
  pub next_row-IsNext :
      (lo hi : ℕ) {r : Directive}
      → Ascends lo rows hi
      → next_row lane policy rows ≡ some r
      → IsNext lane policy rows r
  unfolding next_row
  next_row-IsNext lo hi {r} up e =
      let chosen = order_by queue_before (select (is_eligible lane policy) rows) in
      let facts =
        Every-head (λ x. (find x.id rows ≡ some x) × (is_eligible lane policy x ≡ true)) chosen e
          (Every-order_by _ queue_before _ (
            Every-select (λ x. find x.id rows ≡ some x) (is_eligible lane policy) rows
              (find_each lo hi rows up))) in
      record {
        found = facts.0;
        eligible = facts.1;
        first_in_queue =
            Every-of-select (λ x. queue_before r x ≡ true) (is_eligible lane policy) rows
              (Every-of-order_by _ queue_before _ (
                order_by-first queue_before before_total before_trans before_refl
                  (select (is_eligible lane policy) rows) e));
      }

  -- Nothing is chosen exactly if no row is eligible.
  pub next_row-eq-none_iff :
      (next_row lane policy rows ≡ none) ↔ (count (is_eligible lane policy) rows ≡ 0)
  unfolding next_row
  next_row-eq-none_iff =
      let chosen = order_by queue_before (select (is_eligible lane policy) rows) in
      let same = length-ordered_select (is_eligible lane policy) queue_before rows in
      (λ e. sym same ∙ (head-none chosen).0 e, λ e. (head-none chosen).1 (same ∙ e))
