-- ===== src/Backup/Pruned.antt =====
-- A backup that succeeds has a new file, and at most as many backups stay as are to be kept.
use laneq.Common.{ℕ, ◌≡◌, ◌≤◌, List, false, ok, err, Result, Bool}
use laneq.Text.{Text, text_mem}
use laneq.Sql.{count}
use laneq.Backup.{backup_prefix, begins_with}

abbrev is_backup : Text → Text → Bool
is_backup name = begins_with (backup_prefix name)

-- A new path with at most `keep` backups, or SQLite's error with the files as they were.
abbrev pub Stored :
    Text → Result (Unit {0}) → ℕ → List Text → Result (Text × List Text) × List Text → Type 0
Stored name (ok done) keep files r =
    (path : Text) × (pruned : List Text) × (r.0 ≡ ok (path, pruned))
    × (text_mem path files ≡ false)
    × (count (begins_with (backup_prefix name)) r.1 ≤ keep)
Stored name (err e) keep files r = r ≡ (err e, files)
