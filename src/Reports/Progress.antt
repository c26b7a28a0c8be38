-- ===== src/Reports/Progress.antt =====
-- What `thread_status` returns.
use laneq.Common.{
  ℕ, ◌<◌, ◌≡◌, ◌↔◌, refl, ap, sym, subst, List, [], ◌∷◌, Bool, true, false, Bool-cases, inl, inr,
  if◌then◌else◌, ok, some, ℕ_discrete,
}
use laneq.Common.Lists.{length, In}
use laneq.Text.{codes, Text-discrete, text_eq}
use laneq.Clock.{Env}
use laneq.Sql.{select, count}
use laneq.Sql.Order.{length-select, Every, Every-map, Every-select}
use laneq.Action.{◌>>=◌}
use laneq.Database.{Directive, Db, find, is_terminal}
use laneq.Database.Rows.{id_of_find}
use laneq.Core.Invariant.{IsWell}
use laneq.Threads.{thread_rows, thread_root}
use laneq.Threads.Membership.{thread_rows-In, thread_rows-found}
use laneq.Threads.Termination.{found-IsSound}
use laneq.Threads.Within.{Every-In, Every-of-In}
use laneq.Reports.{
  refresh, ThreadStatus, is_empty, is_open, summary_of, summary_from, summarise, thread_status,
  for_each, thread_item,
}
use laneq.Reports.Refresh.{refresh-IsWell, refresh-returns}
use laneq.Reports.Named.{thread_item-returns, for_each-returns}

Every-select_lem :
    (P : Directive → Type 0) (test : Directive → Bool) (rows : List Directive)
    → Every P rows
    → Every P (select test rows)
Every-select_lem P test rows h =
    Every-map (λ r k. k.0) (select test rows) (Every-select P test rows h)

no_open :
    (rows : List Directive)
    → is_empty (select is_open rows) ≡ true
    → Every (λ r. is_terminal r.status ≡ true) rows
no_open [] h = tt
no_open (r ∷ rs) h = elim (Bool-cases (is_terminal r.status)) [
  | inl e ↦ (e, no_open rs (rw e at h))
  | inr e ↦ let bad : false ≡ true = rw e at h in cc (bad)
]

all_terminal :
    (rows : List Directive)
    → Every (λ r. is_terminal r.status ≡ true) rows
    → is_empty (select is_open rows) ≡ true
all_terminal [] h = refl
all_terminal (r ∷ rs) h = rw h.0 (all_terminal rs h.1)

-- The report of the rows of a thread.
pub record IsSummary (rows : List Directive) (report : ThreadStatus) : Type 0 where
  pub total : report.total ≡ length rows
  pub open_count : report.open_count ≡ count is_open rows
  pub open_items : for_each thread_item (select is_open rows) ≡ ok report.open_items
  pub finished : (report.status ≡ codes "done") ↔ Every (λ r. is_terminal r.status ≡ true) rows

done_if : (b : Bool) → ((if b then codes "done" else codes "open") ≡ codes "done") ↔ (b ≡ true)
unfolding Text-discrete ℕ_discrete
done_if true = (λ h. refl, λ h. refl)
done_if false =
    (λ h. let bad : false ≡ true = ap (λ t. text_eq t (codes "done")) h in cc (bad), λ h. cc (h))

summarise-IsSummary :
    (r : Directive) (rs : List Directive)
    → Every (λ x. x.priority < 3) (r ∷ rs)
    → (report : ThreadStatus) × (summarise (r ∷ rs) ≡ ok report) × IsSummary (r ∷ rs) report
unfolding summarise
summarise-IsSummary r rs h =
    let rows = r ∷ rs in
    let (items, e, l) =
      for_each-returns thread_item thread_item-returns (select is_open rows)
        (Every-select_lem (λ x. x.priority < 3) is_open rows h) in
    (
      summary_of r rs items,
      ap (summary_from r rs) e,
      record {
        total = refl;
        open_count = length-select is_open rows;
        open_items = e;
        finished = (
          λ k. no_open rows ((done_if (is_empty (select is_open rows))).0 k),
          λ k. (done_if (is_empty (select is_open rows))).1 (all_terminal rows k),
        );
      },
    )

summarise-run :
    (i : ℕ) (env : Env) (db : Db)
    → thread_status i env db ≡ (summarise (thread_rows (refresh env db).1 i), (refresh env db).1)
unfolding thread_status ◌>>=◌
summarise-run i env db = rw (refresh-returns env db) refl

summarise_some :
    (r : Directive) (rows : List Directive)
    → In r rows
    → Every (λ x. x.priority < 3) rows
    → (report : ThreadStatus) × (summarise rows ≡ ok report) × IsSummary rows report
summarise_some r [] h k = absurd h
summarise_some r (x ∷ xs) h k = summarise-IsSummary x xs k

-- All directives of a thread are done or dropped.
abbrev pub IsFinished : Db → ℕ → Type 0
IsFinished db i =
    (x : Directive)
    → find x.id db.directives ≡ some x
    → thread_root db.directives x.id ≡ thread_root db.directives i
    → is_terminal x.status ≡ true

Every-iff-IsFinished :
    (db : Db) (i : ℕ)
    → IsWell db
    → Every (λ x. is_terminal x.status ≡ true) (thread_rows db i) ↔ IsFinished db i
Every-iff-IsFinished db i w = (
  λ h x e same.
      Every-In (λ x. is_terminal x.status ≡ true) (thread_rows db i) x h
        ((thread_rows-In db w i x e).1 same),
  λ h.
      Every-of-In (λ x. is_terminal x.status ≡ true) (thread_rows db i)
        (λ x k. let e = thread_rows-found db w i x k in h x e ((thread_rows-In db w i x e).0 k)),
)

-- On tables in order `thread_status` of a directive returns, counts the rows of its thread and the
-- open ones among them, lists the open ones, and says "done" if and only if every directive with
-- the same root is done or dropped.
pub thread_status_lem :
    (i : ℕ) (env : Env) (db : Db) (r : Directive)
    → IsWell db
    → find i (thread_status i env db).1.directives ≡ some r
    → (report : ThreadStatus) × ((thread_status i env db).0 ≡ ok report)
      × IsSummary (thread_rows (thread_status i env db).1 i) report
      × ((report.status ≡ codes "done") ↔ IsFinished (thread_status i env db).1 i)
thread_status_lem i env db r w found =
    subst
      (λ out.
        find i out.1.directives ≡ some r
        → (report : ThreadStatus) × (out.0 ≡ ok report)
          × IsSummary (thread_rows out.1 i) report
          × ((report.status ≡ codes "done") ↔ IsFinished out.1 i))
      (sym (summarise-run i env db)) (at_db (refresh env db).1 ((refresh-IsWell env).at db w)) found
  where
    at_db :
        (db : Db)
        → IsWell db
        → find i db.directives ≡ some r
        → (report : ThreadStatus) × (summarise (thread_rows db i) ≡ ok report)
          × IsSummary (thread_rows db i) report
          × ((report.status ≡ codes "done") ↔ IsFinished db i)
    at_db db w e =
        let same = id_of_find i db.directives e in
        let mine = subst (λ j. find j db.directives ≡ some r) (sym same) e in
        let there = (thread_rows-In db w i r mine).1 (ap (thread_root db.directives) same) in
        let (report, returned, is) = summarise_some r (thread_rows db i) there (
          Every-of-In (λ x. x.priority < 3) (thread_rows db i)
            (λ x k.
              (found-IsSound x.id db.directives w.sound
                (thread_rows-found db w i x k)).named_priority)) in
        let every = Every-iff-IsFinished db i w in
        (report, returned, is, (λ k. every.0 (is.finished.0 k), λ k. is.finished.1 (every.1 k)))
