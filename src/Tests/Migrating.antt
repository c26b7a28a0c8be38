-- ===== src/Tests/Migrating.antt =====
-- A database of an old version is migrated.
use laneq.Common.{◌≡◌, refl, [], ◌∷◌, none, some, true, false, ok, err, Error, ℕ_discrete}
use laneq.Text.{codes, Text-discrete}
use laneq.Migration.{
  taken_by, claim_token, lease_until, requeue_count, parent_id, lane, not_before, blocked_by,
  recovery_policy, Schema, add, normalize_lane, create_admissions, handoff_migration, table_plan,
  migration_plan, execute, execute_all, migrate_locked, migrate,
}
use laneq.Migration.Current.{Migrated, migrate-Migrated}

-- A table with lanes, of which one is NULL.
abbrev old_schema : Schema
old_schema = record {
  directives = some (record {
    columns = taken_by ∷ lane ∷ not_before ∷ [];
    rows =
        record { lane = none; requeue_count = none }
        ∷ record { lane = some (codes "gpu"); requeue_count = none }
        ∷ [];
  });
  has_receipts = true;
  has_admissions = false;
}

migrate-Migrated_example :
    Migrated (some (ok tt)) old_schema (migrate false (some (ok tt)) old_schema old_schema)
migrate-Migrated_example = migrate-Migrated (some (ok tt)) old_schema old_schema

changes :
    (migrate false (some (ok tt)) old_schema old_schema).0
    ≡ ok (
        add claim_token
        ∷ add lease_until
        ∷ add requeue_count
        ∷ add parent_id
        ∷ add blocked_by
        ∷ add recovery_policy
        ∷ normalize_lane
        ∷ create_admissions
        ∷ [])
unfolding migrate migrate_locked migration_plan table_plan handoff_migration execute_all execute
    Text-discrete ℕ_discrete
changes = refl

mended_rows : (migrate false none old_schema old_schema).1 ≡ record {
  directives = some (record {
    columns =
        taken_by ∷ lane ∷ not_before ∷ claim_token ∷ lease_until ∷ requeue_count ∷ parent_id
        ∷ blocked_by ∷ recovery_policy ∷ [];
    rows =
        record { lane = some (codes "default"); requeue_count = some 0 }
        ∷ record { lane = some (codes "gpu"); requeue_count = some 0 }
        ∷ [];
  });
  has_receipts = true;
  has_admissions = true;
}
unfolding migrate migrate_locked migration_plan table_plan handoff_migration execute_all execute
    Text-discrete ℕ_discrete
mended_rows = refl

failed_backup :
    migrate false (some (err Error.operational_error)) old_schema old_schema
    ≡ (err Error.operational_error, old_schema)
unfolding migrate migrate_locked migration_plan table_plan handoff_migration execute_all execute
    Text-discrete ℕ_discrete
failed_backup = refl
