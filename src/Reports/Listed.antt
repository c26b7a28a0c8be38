-- ===== src/Reports/Listed.antt =====
-- `listing` shows the queue in the order in which `peek` and `take` choose from it.
use laneq.Common.{
  ℕ, ◌<◌, ◌≡◌, refl, ap, sym, ◌∙◌, fun_ext, List, [], ◌∷◌, Bool, false, ◌&&◌, arith, Bool-cases,
  inl, inr, ok, some, none, Option,
}
use laneq.Text.{Text}
use laneq.Clock.{Env}
use laneq.Sql.{select, first, order_by}
use laneq.Sql.Order.{Every, Every-map, Every-order_by, Every-select, head, select-order_by}
use laneq.Action.{◌>>=◌}
use laneq.Database.{Policy, policy_eq, Directive, Db}
use laneq.Database.Rows.{select-select}
use laneq.Leases.{queue_before, reclaim_expired_leases, reclaim_deferred}
use laneq.Core.Guard.{policy_of, priority_name}
use laneq.Core.Claim.{Peeked, peeked, peek, next_row, is_eligible}
use laneq.Core.Picking.{before_total, before_trans, before_refl}
use laneq.Core.Invariant.{IsSound, IsWell}
use laneq.Reports.{
  refresh, for_each, Item, item, item_of, is_listed, listed_rows, of_queue, as_queue, list_rows,
  listing,
}
use laneq.Reports.Refresh.{refresh-IsWell, refresh-returns}
use laneq.Reports.Named.{named, cons_ok-both}

-- The id and the priority that a call shows first.
abbrev pub of_peek : Option Peeked → Option (ℕ × Text)
of_peek none = none
of_peek (some p) = some (p.id, p.priority)

abbrev pub of_item : Option Item → Option (ℕ × Text)
of_item none = none
of_item (some x) = some (x.id, x.priority)

abbrev has_policy : Policy → Directive → Bool
has_policy policy r = policy_eq r.recovery_policy policy

abbrev pub first_with : Policy → List Item → Option Item
first_with policy = first (λ x. policy_eq x.recovery_policy policy)

-- The items of some rows, and the first of them with a policy.
record ShowsFirst (policy : Policy) (rows : List Directive) (items : List Item) : Type 0 where
  returned : for_each item rows ≡ ok items
  chosen : Option Peeked
  peeks : peeked (head (select (has_policy policy) rows)) ≡ ok chosen
  same : of_peek chosen ≡ of_item (first_with policy items)

named-peeked :
    (r : Directive) (name : Text)
    → priority_name r.priority ≡ ok name
    → peeked (some r)
      ≡ ok (some (record { id = r.id; priority = name; lane = r.lane; body = r.body }))
unfolding peeked
named-peeked r name e = rw (peeked, e) refl

named-item :
    (r : Directive) (name : Text)
    → priority_name r.priority ≡ ok name
    → item r ≡ ok (item_of r name)
unfolding item
named-item r name e = rw (item, e) refl

shows_first :
    (policy : Policy) (rows : List Directive)
    → Every (λ r. r.priority < 3) rows
    → (items : List Item) × ShowsFirst policy rows items
unfolding peeked
shows_first policy [] h = ([], record { returned = refl; chosen = none; peeks = refl; same = refl })
shows_first policy (r ∷ rs) h =
    let (name, e) = named r.priority h.0 in
    let (items, rest) = shows_first policy rs h.1 in
    (
      item_of r name ∷ items,
      elim (Bool-cases (has_policy policy r)) [
        | inl k ↦ record {
          returned = cons_ok-both (named-item r name e) rest.returned;
          chosen = some (record { id = r.id; priority = name; lane = r.lane; body = r.body });
          peeks = rw k (named-peeked r name e);
          same = rw k refl;
        }
        | inr k ↦ record {
          returned = cons_ok-both (named-item r name e) rest.returned;
          chosen = rest.chosen;
          peeks = rw k rest.peeks;
          same = rw k rest.same;
        }
      ],
    )

next_row-eq-listed :
    (lane : Text) (policy : Policy) (rows : List Directive)
    → next_row lane policy rows
      ≡ head (select (has_policy policy) (listed_rows false (some lane) rows))
unfolding next_row listed_rows
next_row-eq-listed lane policy rows =
    let same : is_eligible lane policy
        ≡ (λ r. is_listed false (some lane) r && has_policy policy r) =
      fun_ext (λ r. ground arith) in
    ap (λ test. head (order_by queue_before (select test rows))) same
    ∙ sym (
        ap (λ xs. head (order_by queue_before xs))
          (select-select (is_listed false (some lane)) (has_policy policy) rows))
    ∙ sym (
        ap head (
          select-order_by queue_before before_total before_trans before_refl (has_policy policy)
            (select (is_listed false (some lane)) rows)))

listing-run :
    (lane : Text) (env : Env) (db : Db)
    → (listing false (some lane) none env db).0
      ≡ as_queue (for_each item (listed_rows false (some lane) (refresh env db).1.directives))
unfolding listing list_rows ◌>>=◌
listing-run lane env db = rw (refresh-returns env db) refl

peek-run :
    (lane name : Text) (policy : Policy) (env : Env) (db : Db)
    → policy_of name ≡ ok policy
    → (peek lane name env db).0 ≡ peeked (next_row lane policy (refresh env db).1.directives)
unfolding peek refresh ◌>>=◌ reclaim_expired_leases reclaim_deferred
peek-run lane name policy env db h = rw (peek, h) refl

listed_named :
    (lane : Text) (rows : List Directive)
    → Every IsSound rows
    → Every (λ r. r.priority < 3) (listed_rows false (some lane) rows)
unfolding listed_rows
listed_named lane rows h = Every-order_by _ _ _ (
    Every-map (λ r k. k.0.named_priority) _
      (Every-select IsSound (is_listed false (some lane)) rows h))

-- On tables in order `listing` of a lane returns the pending directives of the lane, and the first
-- of them that has the policy of a `peek` is the one that this `peek` returns; if none of them has,
-- `peek` returns None.
pub listing-peek :
    (lane name : Text) (policy : Policy) (env : Env) (db : Db)
    → IsWell db
    → policy_of name ≡ ok policy
    → (items : List Item) × (chosen : Option Peeked) × ((listing false (some lane) none env db).0
        ≡ ok (of_queue items))
      × ((peek lane name env db).0 ≡ ok chosen)
      × (of_peek chosen ≡ of_item (first_with policy items))
listing-peek lane name policy env db w h =
    let rows = (refresh env db).1.directives in
    let (items, shows) =
      shows_first policy (listed_rows false (some lane) rows)
        (listed_named lane rows ((refresh-IsWell env).at db w).sound) in
    (
      items,
      shows.chosen,
      listing-run lane env db ∙ ap as_queue shows.returned,
      peek-run lane name policy env db h
          ∙ ap peeked (next_row-eq-listed lane policy rows)
          ∙ shows.peeks,
      shows.same,
    )
