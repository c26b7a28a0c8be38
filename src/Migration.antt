-- ===== src/Migration.antt =====
-- The schema migrations of cli.py: `migration_plan`, `handoff_migration` and `migrate`. A database
-- of an older version lacks columns of `directives`, whose rows may lack a lane or a count; the
-- columns that every version has are left out.
pub mod Plan
pub mod Applied
pub mod Current
use laneq.Common.{
  ℕ, List, [], ◌∷◌, ◌++◌, Bool, true, false, not, ◌&&◌, ◌||◌, Option, none, some, Result, ok, err,
  Error, operational_error, if◌then◌else◌,
}
use laneq.Text.{Text, text_eq}
use laneq.Sql.{select, exists, update}
use laneq.Database.{default_lane}

-- The keys of SCHEMA_MIGRATIONS.
pub data Column : Type 0 where
  taken_by claim_token lease_until requeue_count parent_id lane : Column
  not_before blocked_by recovery_policy : Column

abbrev pub column_eq : Column → Column → Bool
column_eq taken_by taken_by = true
column_eq claim_token claim_token = true
column_eq lease_until lease_until = true
column_eq requeue_count requeue_count = true
column_eq parent_id parent_id = true
column_eq lane lane = true
column_eq not_before not_before = true
column_eq blocked_by blocked_by = true
column_eq recovery_policy recovery_policy = true
column_eq _ _ = false

abbrev pub has_column : Column → List Column → Bool
has_column c = exists (column_eq c)

-- A row's `lane` and `requeue_count`, NULL or not.
pub record OldRow : Type 0 where
  pub lane : Option Text
  pub requeue_count : Option ℕ

pub record Table : Type 0 where
  pub columns : List Column
  pub rows : List OldRow

pub record Schema : Type 0 where
  pub directives : Option Table
  pub has_receipts : Bool
  pub has_admissions : Bool

-- The steps of a plan, by their names.
pub data Step : Type 0 where
  create_directives : Step
  add : Column → Step
  normalize_lane normalize_requeue_count : Step
  create_receipts create_admissions : Step

abbrev pub all_columns : List Column
all_columns =
    taken_by ∷ claim_token ∷ lease_until ∷ requeue_count ∷ parent_id ∷ lane ∷ not_before
    ∷ blocked_by ∷ recovery_policy ∷ []

abbrev pub add_all : List Column → List Step
add_all [] = []
add_all (c ∷ cs) = add c ∷ add_all cs

abbrev pub missing : List Column → List Column → List Column
missing columns = select (λ c. not (has_column c columns))

-- `lane IS NULL OR lane=''`
abbrev pub no_lane : OldRow → Bool
no_lane r = elim r.lane [ none ↦ true | some t ↦ text_eq t [] ]

abbrev pub no_count : OldRow → Bool
no_count r = elim r.requeue_count [ none ↦ true | some n ↦ false ]

abbrev pub step_if : Bool → Step → List Step
step_if true step = step ∷ []
step_if false step = []

unfoldable pub handoff_migration : Schema → List Step
handoff_migration s =
    step_if (not s.has_receipts) create_receipts ++ step_if (not s.has_admissions) create_admissions

abbrev pub lane_needs_default : Table → Bool
lane_needs_default t = has_column lane t.columns && exists no_lane t.rows

abbrev pub requeue_needs_default : Table → Bool
requeue_needs_default t = has_column requeue_count t.columns && exists no_count t.rows

unfoldable pub table_plan : Option Table → List Step
table_plan none = create_directives ∷ []
table_plan (some t) =
    add_all (missing t.columns all_columns)
    ++ (step_if (lane_needs_default t) normalize_lane
        ++ step_if (requeue_needs_default t) normalize_requeue_count)

unfoldable pub migration_plan : Schema → List Step
unfolding handoff_migration table_plan
migration_plan s = table_plan s.directives ++ handoff_migration s

-- ALTER TABLE … ADD COLUMN: the new column of a row holds its default.
abbrev pub with_column : Column → OldRow → OldRow
with_column lane r = record r { lane = some default_lane }
with_column requeue_count r = record r { requeue_count = some 0 }
with_column c r = r

abbrev pub add_column : Column → Table → Option Table
add_column c t =
    if has_column c t.columns
    then none
    else some
        (record { columns = t.columns ++ c ∷ []; rows = update (λ r. true) (with_column c) t.rows })

abbrev pub with_table : Schema → Option Table → Option Schema
with_table s none = none
with_table s (some t) = some (record s { directives = some t })

-- What a step makes of the schema; a statement that SQLite refuses is `none`.
unfoldable pub execute : Step → Schema → Option Schema
execute create_directives s = elim s.directives [
  | none ↦ some (record s { directives = some (record { columns = all_columns; rows = [] }) })
  | some t ↦ none
]
execute (add c) s = elim s.directives [ none ↦ none | some t ↦ with_table s (add_column c t) ]
execute normalize_lane s = elim s.directives [
  | none ↦ none
  | some t ↦ with_table s (
      some (record t { rows = update no_lane (λ r. record r { lane = some default_lane }) t.rows }))
]
execute normalize_requeue_count s = elim s.directives [
  | none ↦ none
  | some t ↦
      with_table s (
        some
          (record t { rows = update no_count (λ r. record r { requeue_count = some 0 }) t.rows }))
]
execute create_receipts s = if s.has_receipts then none else some (record s { has_receipts = true })
execute create_admissions s =
    if s.has_admissions then none else some (record s { has_admissions = true })

unfoldable pub execute_all : List Step → Schema → Option Schema
unfolding execute
execute_all [] s = some s
execute_all (step ∷ steps) s = elim (execute step s) [
  | none ↦ none
  | some s' ↦ execute_all steps s'
]

abbrev pub has_no_steps : List Step → Bool
has_no_steps [] = true
has_no_steps (step ∷ steps) = false

abbrev pub committed : List Step → Schema → Option Schema → Result (List Step) × Schema
committed plan before none = (err operational_error, before)
committed plan before (some after) = (ok plan, after)

-- The transaction, on the schema that the write lock protects. `backup` is what the backup of a
-- database that was there before does, or `none` for a new one.
unfoldable pub migrate_locked : Option (Result (Unit {0})) → Schema → Result (List Step) × Schema
unfolding migration_plan execute_all
migrate_locked (some (err e)) locked =
    let plan = migration_plan locked in
    if has_no_steps plan then committed plan locked (execute_all plan locked) else (err e, locked)
migrate_locked backup locked =
    let plan = migration_plan locked in committed plan locked (execute_all plan locked)

-- `migrate`, with the schema as it is first read, and as it is under the lock. The changes are
-- returned; a dry run only plans.
unfoldable pub migrate :
    Bool → Option (Result (Unit {0})) → Schema → Schema → Result (List Step) × Schema
unfolding migrate_locked
migrate true backup before locked = (ok (migration_plan before), before)
migrate false backup before locked =
    if has_no_steps (migration_plan before) then (ok [], before) else migrate_locked backup locked
