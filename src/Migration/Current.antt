-- ===== src/Migration/Current.antt =====
-- `migrate` either commits a schema that needs nothing more, or leaves the schema alone.
use laneq.Common.{
  ◌≡◌, ◌⊎◌, refl, ap, sym, subst, ◌∙◌, List, [], ◌∷◌, ◌++◌, Bool, true, false, ◌&&◌, Option, none,
  some, Bool-cases, inl, inr, arith, Result, ok, err, Error,
}
use laneq.Common.Lists.{append_assoc, append_nil}
use laneq.Sql.{exists, update}
use laneq.Database.{default_lane}
use laneq.Migration.{
  lane, requeue_count, has_column, Table, Schema, Step, create_directives, normalize_lane,
  normalize_requeue_count, all_columns, add_all, missing, no_lane, no_count, step_if,
  handoff_migration, lane_needs_default, requeue_needs_default, table_plan, migration_plan, execute,
  execute_all, has_no_steps, committed, migrate_locked, migrate,
}
use laneq.Migration.Plan.{all-IsFresh, IsFresh}
use laneq.Migration.Applied.{
  placed, added_to, execute_step, execute-add_all, mended-Good, update-Good, default-good,
  IsCurrent, lane_good, count_good, columns_current,
}

abbrev lanes_mended : Bool → Table → Table
lanes_mended true t = record t {
  rows = update no_lane (λ r. record r { lane = some default_lane }) t.rows;
}
lanes_mended false t = t

abbrev counts_mended : Bool → Table → Table
counts_mended true t = record t {
  rows = update no_count (λ r. record r { requeue_count = some 0 }) t.rows;
}
counts_mended false t = t

execute-lanes :
    (b : Bool) (rest : List Step) (s : Schema) (t : Table)
    → execute_all (step_if b normalize_lane ++ rest) (placed s t)
      ≡ execute_all rest (placed s (lanes_mended b t))
unfolding execute
execute-lanes true rest s t = execute_step normalize_lane rest (placed s t) refl
execute-lanes false rest s t = refl

execute-counts :
    (b : Bool) (rest : List Step) (s : Schema) (t : Table)
    → execute_all (step_if b normalize_requeue_count ++ rest) (placed s t)
      ≡ execute_all rest (placed s (counts_mended b t))
unfolding execute
execute-counts true rest s t = execute_step normalize_requeue_count rest (placed s t) refl
execute-counts false rest s t = refl

mended-IsCurrent :
    (a b : Bool) (t : Table)
    → missing t.columns all_columns ≡ []
    → (a ≡ false → exists no_lane t.rows ≡ false)
    → (b ≡ false → exists no_count t.rows ≡ false)
    → IsCurrent (counts_mended b (lanes_mended a t))
mended-IsCurrent false false t m l c = record { no_column = m; lanes = l refl; counts = c refl }
mended-IsCurrent false true t m l c = record {
  no_column = m;
  lanes =
      update-Good no_lane no_count (λ r. record r { requeue_count = some 0 }) t.rows (λ r h. h)
        (l refl);
  counts = mended-Good no_count (λ r. record r { requeue_count = some 0 }) t.rows (λ r. refl);
}
mended-IsCurrent true false t m l c = record {
  no_column = m;
  lanes =
      mended-Good no_lane (λ r. record r { lane = some default_lane }) t.rows (λ r. default-good);
  counts =
      update-Good no_count no_lane (λ r. record r { lane = some default_lane }) t.rows (λ r h. h)
        (c refl);
}
mended-IsCurrent true true t m l c = record {
  no_column = m;
  lanes =
      update-Good no_lane no_count (λ r. record r { requeue_count = some 0 })
        (lanes_mended true t).rows (λ r h. h)
        (mended-Good no_lane (λ r. record r { lane = some default_lane }) t.rows
          (λ r. default-good));
  counts =
      mended-Good no_count (λ r. record r { requeue_count = some 0 }) (lanes_mended true t).rows
        (λ r. refl);
}

table_executes :
    (t : Table) (rest : List Step) (s : Schema)
    → (t' : Table) × IsCurrent t'
      × (execute_all (table_plan (some t) ++ rest) (placed s t) ≡ execute_all rest (placed s t'))
unfolding table_plan
table_executes t rest s =
    let a = lane_needs_default t in
    let b = requeue_needs_default t in
    let columns = missing t.columns all_columns in
    let t1 : Table = added_to columns t in
    (
      counts_mended b (lanes_mended a t1),
      mended-IsCurrent a b t1 (columns_current t) (lane_good t) (count_good t),
      ap (λ steps. execute_all steps (placed s t))
            (append_assoc (add_all columns)
                (step_if a normalize_lane ++ step_if b normalize_requeue_count) rest
              ∙ ap (λ steps. add_all columns ++ steps)
                  (append_assoc (step_if a normalize_lane) (step_if b normalize_requeue_count)
                    rest))
          ∙ execute-add_all columns t s _
              (subst (IsFresh columns) (append_nil t.columns) (all-IsFresh t.columns))
          ∙ execute-lanes a _ s t1
          ∙ execute-counts b rest s (lanes_mended a t1),
    )

abbrev handed : Option Table → Bool → Bool → Schema
handed d a b = record { directives = d; has_receipts = a; has_admissions = b }

handoff_executes :
    (a b : Bool) (d : Option Table)
    → execute_all (handoff_migration (handed d a b)) (handed d a b) ≡ some (handed d true true)
unfolding handoff_migration execute_all
handoff_executes true true d = refl
handoff_executes true false d = refl
handoff_executes false true d = refl
handoff_executes false false d = refl

none_needed : (x : Bool) → x && false ≡ false
none_needed x = ground arith

plan-IsCurrent : (t : Table) → IsCurrent t → migration_plan (handed (some t) true true) ≡ []
unfolding migration_plan table_plan handoff_migration
plan-IsCurrent t h =
    rw
      (
        h.no_column,
        h.lanes,
        h.counts,
        none_needed (has_column lane t.columns),
        none_needed (has_column requeue_count t.columns),
      )
      refl

-- Every plan can be executed, and no plan is left.
abbrev Settles : Schema → Type 0
Settles s = (s' : Schema) × (execute_all (migration_plan s) s ≡ some s') × (migration_plan s' ≡ [])

abbrev new_table : Table
new_table = record { columns = all_columns; rows = [] }

execute-create :
    (a b : Bool) → execute create_directives (handed none a b) ≡ some (handed (some new_table) a b)
unfolding execute
execute-create a b = refl

plan_executes : (d : Option Table) (a b : Bool) → Settles (handed d a b)
unfolding migration_plan table_plan
plan_executes none a b = (
  handed (some new_table) true true,
  execute_step create_directives (handoff_migration (handed none a b)) (handed none a b)
        (execute-create a b)
      ∙ handoff_executes a b (some new_table),
  plan-IsCurrent new_table (record { no_column = refl; lanes = refl; counts = refl }),
)
plan_executes (some t) a b =
    let (t', current, runs) =
      table_executes t (handoff_migration (handed (some t) a b)) (handed (some t) a b) in
    (handed (some t') true true, runs ∙ handoff_executes a b (some t'), plan-IsCurrent t' current)

committed-settles :
    (s : Schema)
    → ((committed (migration_plan s) s (execute_all (migration_plan s) s)).0
        ≡ ok (migration_plan s))
      × (migration_plan (committed (migration_plan s) s (execute_all (migration_plan s) s)).1 ≡ [])
committed-settles s =
    let done = plan_executes s.directives s.has_receipts s.has_admissions in
    subst
      (λ r.
        ((committed (migration_plan s) s r).0 ≡ ok (migration_plan s))
        × (migration_plan (committed (migration_plan s) s r).1 ≡ []))
      (sym done.1) (refl, done.2)

-- The changes are returned and no change is left, or the backup's error is and nothing changed.
abbrev pub Migrated : Option (Result (Unit {0})) → Schema → Result (List Step) × Schema → Type 0
Migrated backup locked r =
    ((changes : List Step) × (r.0 ≡ ok changes) × (migration_plan r.1 ≡ []))
    ⊎ ((e : Error) × (backup ≡ some (err e)) × (r ≡ (err e, locked)))

nil_of_is_empty : (steps : List Step) → has_no_steps steps ≡ true → steps ≡ []
nil_of_is_empty [] h = refl
nil_of_is_empty (step ∷ steps) h = cc

whole :
    (s : Schema)
    → let r = committed (migration_plan s) s (execute_all (migration_plan s) s) in
      (changes : List Step) × (r.0 ≡ ok changes) × (migration_plan r.1 ≡ [])
whole s = let both = committed-settles s in (migration_plan s, both.0, both.1)

locked-Migrated :
    (backup : Option (Result (Unit {0}))) (locked : Schema)
    → Migrated backup locked (migrate_locked backup locked)
unfolding migrate_locked
locked-Migrated none locked = inl (whole locked)
locked-Migrated (some (ok done)) locked = inl (whole locked)
locked-Migrated (some (err e)) locked = elim (Bool-cases (has_no_steps (migration_plan locked))) [
  | inl h ↦ rw h (inl (whole locked))
  | inr h ↦ rw h (inr (e, refl, refl))
]

-- A migration that is no dry run, whatever version the database is of: it returns its changes and
-- leaves a schema that needs no further migration, or, when the backup fails, it returns the
-- backup's error and leaves the schema that the lock protects. No statement of a plan is refused.
pub migrate-Migrated :
    (backup : Option (Result (Unit {0}))) (before locked : Schema)
    → Migrated backup locked (migrate false backup before locked)
unfolding migrate
migrate-Migrated backup before locked = elim (Bool-cases (has_no_steps (migration_plan before))) [
  | inl h ↦ rw h (inl ([], refl, nil_of_is_empty (migration_plan before) h))
  | inr h ↦ rw h (locked-Migrated backup locked)
]
