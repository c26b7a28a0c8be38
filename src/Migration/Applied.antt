-- ===== src/Migration/Applied.antt =====
-- A plan can be executed, and leaves nothing to plan.
use laneq.Common.{
  ◌≡◌, refl, ap, sym, subst, ◌∙◌, List, [], ◌∷◌, ◌++◌, Bool, true, false, some, Bool-cases, inl,
  inr, ℕ_discrete,
}
use laneq.Common.Lists.{append_assoc, append_nil}
use laneq.Text.{text_eq, Text-discrete}
use laneq.Sql.{exists, update}
use laneq.Database.{default_lane}
use laneq.Migration.{
  Column, column_eq, lane, requeue_count, has_column, OldRow, Table, Schema, Step, add, all_columns,
  add_all, missing, no_lane, no_count, lane_needs_default, requeue_needs_default, with_column,
  execute, execute_all,
}
use laneq.Migration.Plan.{IsFresh, added, none_missing, has-append_false, eq_of_column_eq}

abbrev with_rows : Table → List OldRow → Table
with_rows t rows = record t { rows = rows }

abbrev pub placed : Schema → Table → Schema
placed s t = record s { directives = some t }

-- A table with more columns.
abbrev pub added_to : List Column → Table → Table
added_to [] t = t
added_to (c ∷ cs) t =
    added_to cs
      (record { columns = t.columns ++ c ∷ []; rows = update (λ r. true) (with_column c) t.rows })

columns-added_to : (cs : List Column) (t : Table) → (added_to cs t).columns ≡ t.columns ++ cs
columns-added_to [] t = sym (append_nil t.columns)
columns-added_to (c ∷ cs) t = columns-added_to cs _ ∙ append_assoc t.columns (c ∷ []) cs

pub execute_step :
    (step : Step) (rest : List Step) (s : Schema) {s' : Schema}
    → execute step s ≡ some s'
    → execute_all (step ∷ rest) s ≡ execute_all rest s'
unfolding execute_all
execute_step step rest s e = rw (execute_all, e) refl

execute-add :
    (c : Column) (t : Table) (s : Schema)
    → has_column c t.columns ≡ false
    → execute (add c) (placed s t)
      ≡ some (
          placed s (record {
            columns = t.columns ++ c ∷ [];
            rows = update (λ r. true) (with_column c) t.rows;
          }))
unfolding execute
execute-add c t s h = rw h refl

pub execute-add_all :
    (cs : List Column) (t : Table) (s : Schema) (rest : List Step)
    → IsFresh cs t.columns
    → execute_all (add_all cs ++ rest) (placed s t) ≡ execute_all rest (placed s (added_to cs t))
execute-add_all [] t s rest h = refl
execute-add_all (c ∷ cs) t s rest h =
    execute_step (add c) (add_all cs ++ rest) (placed s t) (execute-add c t s h.0)
    ∙ execute-add_all cs _ s rest h.1

-- What a default mends: a row that is `bad`.
module _ (bad : OldRow → Bool) where
  abbrev Good : List OldRow → Type 0
  Good rows = exists bad rows ≡ false

  pub update-Good :
      (test : OldRow → Bool) (change : OldRow → OldRow) (rows : List OldRow)
      → ((r : OldRow) → bad r ≡ false → bad (change r) ≡ false)
      → Good rows
      → Good (update test change rows)
  update-Good test change [] keep h = refl
  update-Good test change (r ∷ rs) keep h = elim (Bool-cases (bad r)) [
    | inl e ↦ let wrong : true ≡ false = rw e at h in cc (wrong)
    | inr e ↦ elim (Bool-cases (test r)) [
      | inl u ↦ rw (u, keep r e) (update-Good test change rs keep (rw e at h))
      | inr u ↦ rw (u, e) (update-Good test change rs keep (rw e at h))
    ]
  ]

  pub mended-Good :
      (change : OldRow → OldRow) (rows : List OldRow)
      → ((r : OldRow) → bad (change r) ≡ false)
      → Good (update bad change rows)
  mended-Good change [] mend = refl
  mended-Good change (r ∷ rs) mend = elim (Bool-cases (bad r)) [
    | inl e ↦ rw (e, mend r) (mended-Good change rs mend)
    | inr e ↦ rw (e, e) (mended-Good change rs mend)
  ]

  all-Good :
      (change : OldRow → OldRow) (rows : List OldRow)
      → ((r : OldRow) → bad (change r) ≡ false)
      → Good (update (λ r. true) change rows)
  all-Good change [] mend = refl
  all-Good change (r ∷ rs) mend = rw (mend r) (all-Good change rs mend)

  module _ (keep : (c : Column) (r : OldRow) → bad r ≡ false → bad (with_column c r) ≡ false) where
    added_to-Good : (cs : List Column) (t : Table) → Good t.rows → Good (added_to cs t).rows
    added_to-Good [] t h = h
    added_to-Good (c ∷ cs) t h =
        added_to-Good cs _ (update-Good (λ r. true) (with_column c) t.rows (keep c) h)

    new-Good :
        (column : Column) (cs : List Column) (t : Table)
        → ((r : OldRow) → bad (with_column column r) ≡ false)
        → has_column column cs ≡ true
        → Good (added_to cs t).rows
    new-Good column [] t mend h = cc
    new-Good column (c ∷ cs) t mend h = elim (Bool-cases (column_eq column c)) [
      | inl e ↦ added_to-Good cs _ (
          all-Good (with_column c) t.rows (
            subst (λ x. (r : OldRow) → bad (with_column x r) ≡ false) (eq_of_column_eq column c e)
              mend))
      | inr e ↦ new-Good column cs _ mend (rw e at h)
    ]

pub default-good : text_eq default_lane [] ≡ false
unfolding Text-discrete ℕ_discrete
default-good = refl

keep_lane : (c : Column) (r : OldRow) → no_lane r ≡ false → no_lane (with_column c r) ≡ false
keep_lane lane r h = default-good
keep_lane requeue_count r h = h
keep_lane Column.taken_by r h = h
keep_lane Column.claim_token r h = h
keep_lane Column.lease_until r h = h
keep_lane Column.parent_id r h = h
keep_lane Column.not_before r h = h
keep_lane Column.blocked_by r h = h
keep_lane Column.recovery_policy r h = h

keep_count : (c : Column) (r : OldRow) → no_count r ≡ false → no_count (with_column c r) ≡ false
keep_count requeue_count r h = refl
keep_count lane r h = h
keep_count Column.taken_by r h = h
keep_count Column.claim_token r h = h
keep_count Column.lease_until r h = h
keep_count Column.parent_id r h = h
keep_count Column.not_before r h = h
keep_count Column.blocked_by r h = h
keep_count Column.recovery_policy r h = h

-- Nothing of the table is left to plan.
pub record IsCurrent (t : Table) : Type 0 where
  pub no_column : missing t.columns all_columns ≡ []
  pub lanes : exists no_lane t.rows ≡ false
  pub counts : exists no_count t.rows ≡ false

-- After its columns are there, a table is mended by the steps that are planned for its rows.
module _ (t : Table) where
  lane_there : has_column lane (t.columns ++ missing t.columns all_columns) ≡ true
  lane_there = (added all_columns t.columns).1.1.1.1.1.0

  count_there : has_column requeue_count (t.columns ++ missing t.columns all_columns) ≡ true
  count_there = (added all_columns t.columns).1.1.1.0

  pub lane_good :
      lane_needs_default t ≡ false
      → exists no_lane (added_to (missing t.columns all_columns) t).rows ≡ false
  lane_good h = elim (Bool-cases (has_column lane t.columns)) [
    | inl e ↦ added_to-Good no_lane keep_lane (missing t.columns all_columns) t (rw e at h)
    | inr e ↦
        new-Good no_lane keep_lane lane (missing t.columns all_columns) t (λ r. default-good)
          (sym (has-append_false lane t.columns (missing t.columns all_columns) e) ∙ lane_there)
  ]

  pub count_good :
      requeue_needs_default t ≡ false
      → exists no_count (added_to (missing t.columns all_columns) t).rows ≡ false
  count_good h = elim (Bool-cases (has_column requeue_count t.columns)) [
    | inl e ↦ added_to-Good no_count keep_count (missing t.columns all_columns) t (rw e at h)
    | inr e ↦
        new-Good no_count keep_count requeue_count (missing t.columns all_columns) t (λ r. refl)
          (sym (has-append_false requeue_count t.columns (missing t.columns all_columns) e)
            ∙ count_there)
  ]

  pub columns_current :
      missing (added_to (missing t.columns all_columns) t).columns all_columns ≡ []
  columns_current =
      ap (λ columns. missing columns all_columns)
        (columns-added_to (missing t.columns all_columns) t)
      ∙ none_missing all_columns (t.columns ++ missing t.columns all_columns)
          (added all_columns t.columns)
