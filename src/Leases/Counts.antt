-- ===== src/Leases/Counts.antt =====
-- The number that `reclaim_expired_leases` returns.
use laneq.Common.{
  ℕ, suc, ◌≤◌, ◌<◌, ◌≡◌, refl, ◌∙◌, Bool, false, List, [], ◌∷◌, some, arith, Bool-cases, inl, inr,
  ◌==◌, ok,
}
use laneq.Common.Lists.{mem, length}
use laneq.Text.{Text}
use laneq.Clock.{Env, utc_now}
use laneq.Sql.{select, update, count, order_by, insert_by}
use laneq.Sql.Order.{Every, Every-order_by, length-ordered_select}
use laneq.Database.{Directive, Db}
use laneq.Database.Rows.{Ascends, ids, mem_above, Every-above}
use laneq.Leases.{
  queue_before, releases, release, release_or_hold, is_expired, reclaim_each,
  reclaim_expired_leases,
}
use laneq.Leases.Bulk.{reclaim_expired_leases-eq-update}

-- No id stands twice.
abbrev Distinct : List Directive → Type 0
Distinct [] = Unit
Distinct (r ∷ rs) = (mem r.id (ids rs) ≡ false) × Distinct rs

Distinct-select :
    (test : Directive → Bool) (lo hi : ℕ) (rows : List Directive)
    → Ascends lo rows hi
    → Distinct (select test rows)
Distinct-select test lo hi [] h = tt
Distinct-select test lo hi (r ∷ rs) h = elim (Bool-cases (test r)) [
  | inl e ↦ rw e (
    mem_above test (suc r.id) hi r.id rs h.1 (omega arith),
    Distinct-select test (suc r.id) hi rs h.1,
  )
  | inr e ↦ rw e (Distinct-select test (suc r.id) hi rs h.1)
]

mem-insert_by :
    (i : ℕ) (a : Directive) (xs : List Directive)
    → mem i (ids (insert_by queue_before a xs)) ≡ mem i (ids (a ∷ xs))
mem-insert_by i a [] = refl
mem-insert_by i a (x ∷ xs) = ground (arith, mem-insert_by i a xs)

Distinct-insert_by :
    (a : Directive) (xs : List Directive)
    → mem a.id (ids xs) ≡ false
    → Distinct xs
    → Distinct (insert_by queue_before a xs)
Distinct-insert_by a [] h d = (refl, tt)
Distinct-insert_by a (x ∷ xs) h d = ground (arith, mem-insert_by x.id a xs, Distinct-insert_by a xs)

mem-order_by :
    (i : ℕ) (xs : List Directive) → mem i (ids (order_by queue_before xs)) ≡ mem i (ids xs)
unfolding order_by
mem-order_by i [] = refl
mem-order_by i (x ∷ xs) =
    ground (arith, mem-insert_by i x (order_by queue_before xs), mem-order_by i xs)

Distinct-order_by : (xs : List Directive) → Distinct xs → Distinct (order_by queue_before xs)
unfolding order_by
Distinct-order_by [] d = tt
Distinct-order_by (x ∷ xs) d =
    Distinct-insert_by x (order_by queue_before xs) (mem-order_by x.id xs ∙ d.0)
      (Distinct-order_by xs d.1)

module _ (now : Text) where
  -- Releasing one row leaves the number of rows to release under another id.
  count_other :
      (i j : ℕ) (rows : List Directive)
      → i == j ≡ false
      → count (releases j (some now)) (update (releases i (some now)) release rows)
        ≡ count (releases j (some now)) rows
  count_other i j [] ne = refl
  count_other i j (r ∷ rs) ne = ground (arith, count_other i j rs ne)

  counts_other :
      (c : Directive) (cs : List Directive) (rows : List Directive)
      → mem c.id (ids cs) ≡ false
      → Every (λ d. count (releases d.id (some now)) rows ≡ 1) cs
      → Every
          (λ d.
            count (releases d.id (some now)) (update (releases c.id (some now)) release rows) ≡ 1)
          cs
  counts_other c [] rows ne h = tt
  counts_other c (d ∷ ds) rows ne h =
      (ground (arith, count_other c.id d.id rows), counts_other c ds rows (ground arith) h.1)

  reclaim_each-count :
      (cs rows : List Directive)
      → Distinct cs
      → Every (λ c. count (releases c.id (some now)) rows ≡ 1) cs
      → (reclaim_each now cs rows).1 ≡ length cs
  unfolding reclaim_each release_or_hold
  reclaim_each-count [] rows d h = refl
  reclaim_each-count (c ∷ cs) rows d h =
      let after = update (releases c.id (some now)) release rows in
      ground (arith, reclaim_each-count cs after d.1 (counts_other c cs rows d.0 h.1))

  count_none :
      (lo hi i : ℕ) (rows : List Directive)
      → Ascends lo rows hi
      → i < lo
      → count (releases i (some now)) rows ≡ 0
  count_none lo hi i [] h lt = refl
  count_none lo hi i (r ∷ rs) h lt = ground (arith, count_none (suc r.id) hi i rs h.1)

  -- Each row that was chosen is the one row that its id releases.
  count_one :
      (lo hi : ℕ) (rows : List Directive)
      → Ascends lo rows hi
      → Every (λ c. count (releases c.id (some now)) rows ≡ 1) (select (is_expired now) rows)
  count_one lo hi [] h = tt
  count_one lo hi (r ∷ rs) h =
      let later =
        shift _ (count_one (suc r.id) hi rs h.1)
          (above-select rs (Every-above (suc r.id) hi rs h.1)) in
      elim (Bool-cases (is_expired now r)) [
        | inl e ↦ rw e (ground (arith, count_none (suc r.id) hi r.id rs h.1), later)
        | inr e ↦ rw e later
      ]
    where
      shift :
          (xs : List Directive)
          → Every (λ c. count (releases c.id (some now)) rs ≡ 1) xs
          → Every (λ c. suc r.id ≤ c.id) xs
          → Every (λ c. count (releases c.id (some now)) (r ∷ rs) ≡ 1) xs
      shift [] h a = tt
      shift (x ∷ xs) h a = (ground arith, shift xs h.1 a.1)

      above-select :
          (xs : List Directive)
          → Every (λ c. suc r.id ≤ c.id) xs
          → Every (λ c. suc r.id ≤ c.id) (select (is_expired now) xs)
      above-select [] a = tt
      above-select (x ∷ xs) a = elim (Bool-cases (is_expired now x)) [
        | inl e ↦ rw e (a.0, above-select xs a.1)
        | inr e ↦ rw e (above-select xs a.1)
      ]

-- `reclaim_expired_leases` returns how many taken rows had a lease that has passed, and releases
-- exactly those.
pub reclaim_expired_leases_lem :
    (env : Env) (i lo hi : ℕ) (db : Db)
    → Ascends lo db.directives hi
    → reclaim_expired_leases env i db ≡ (
      ok (count (is_expired (utc_now env i)) db.directives),
      record db { directives = update (is_expired (utc_now env i)) release db.directives },
    )
unfolding reclaim_expired_leases
reclaim_expired_leases_lem env i lo hi db up =
    λ k. (ok (number k), reclaim_expired_leases-eq-update env i lo hi db up k)
  where
    now : Text
    now = utc_now env i

    chosen : List Directive
    chosen = select (is_expired now) db.directives

    number :
        (reclaim_each now (order_by queue_before chosen) db.directives).1
        ≡ count (is_expired now) db.directives
    number =
        reclaim_each-count now (order_by queue_before chosen) db.directives
          (Distinct-order_by chosen (Distinct-select (is_expired now) lo hi db.directives up))
          (Every-order_by _ queue_before chosen (count_one now lo hi db.directives up))
        ∙ length-ordered_select (is_expired now) queue_before db.directives
