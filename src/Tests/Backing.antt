-- ===== src/Tests/Backing.antt =====
-- Backups of a database whose directory holds other files.
use laneq.Common.{◌≡◌, refl, List, [], ◌∷◌, ok, err, value_error, ℕ_discrete}
use laneq.Text.{Text, codes, text_leb, Text-discrete}
use laneq.Dependencies.{decimal}
use laneq.Ints.{str_of}
use laneq.Sql.{order_by}
use laneq.Backup.{
  numbered, next_free, make_backup_path, backup_candidates, prune_old_backups, backup_database,
}

abbrev some_files : List Text
some_files = codes "q" ∷ codes "q.backup-s" ∷ codes "q.backup-r" ∷ codes "other" ∷ []

runs : Unit {0}
unfolding numbered next_free make_backup_path backup_candidates prune_old_backups backup_database
    order_by text_leb str_of decimal Text-discrete ℕ_discrete
runs = tt

backed_up : backup_database (codes "q") (ok tt) 2 (codes "s") some_files ≡ (
  ok (codes "q.backup-s-2", codes "q.backup-r" ∷ []),
  codes "q.backup-s-2" ∷ codes "q" ∷ codes "q.backup-s" ∷ codes "other" ∷ [],
)
unfolding runs
backed_up = refl

-- With nothing to be kept the call fails after the new file was made, which stays.
keeps_none :
    backup_database (codes "q") (ok tt) 0 (codes "s") some_files
    ≡ (err value_error, codes "q.backup-s-2" ∷ some_files)
unfolding runs
keeps_none = refl

abbrev ten_in_a_second : List Text
ten_in_a_second =
    codes "q.backup-s"
    ∷ codes "q.backup-s-2"
    ∷ codes "q.backup-s-3"
    ∷ codes "q.backup-s-4"
    ∷ codes "q.backup-s-5"
    ∷ codes "q.backup-s-6"
    ∷ codes "q.backup-s-7"
    ∷ codes "q.backup-s-8"
    ∷ codes "q.backup-s-9"
    ∷ []

-- The tenth name of one second is among the oldest by name, and is removed at once.
newest_removed : backup_database (codes "q") (ok tt) 8 (codes "s") ten_in_a_second ≡ (
  ok (codes "q.backup-s-10", codes "q.backup-s-10" ∷ codes "q.backup-s" ∷ []),
  codes "q.backup-s-2"
      ∷ codes "q.backup-s-3"
      ∷ codes "q.backup-s-4"
      ∷ codes "q.backup-s-5"
      ∷ codes "q.backup-s-6"
      ∷ codes "q.backup-s-7"
      ∷ codes "q.backup-s-8"
      ∷ codes "q.backup-s-9"
      ∷ [],
)
unfolding runs
newest_removed = refl
