-- ===== src/Backup.antt =====
-- The backups of cli.py: `make_backup_path`, `backup_candidates`, `prune_old_backups` and
-- `backup_database`. The state is the names of the files beside the database; `glob` is taken for a
-- path without its special characters.
pub mod Fresh
pub mod Pruned
use laneq.Common.{
  ℕ, suc, zero, List, [], ◌∷◌, ◌++◌, Bool, true, false, not, Result, ok, err, value_error, ltb,
  if◌then◌else◌, ◌==◌, ◌&&◌,
}
use laneq.Common.Lists.{length}
use laneq.Text.{Text, codes, text_eq, text_leb, text_mem}
use laneq.Sql.{select, order_by}
use laneq.Ints.{str_of}

abbrev pub backup_prefix : Text → Text
backup_prefix name = name ++ codes ".backup-"

unfoldable pub numbered : Text → ℕ → Text
numbered base suffix = base ++ (45 ∷ str_of suffix)

-- The loop of `make_backup_path`.
unfoldable pub next_free : ℕ → Text → List Text → ℕ → Text → Text
next_free zero base files suffix candidate = candidate
next_free (suc fuel) base files suffix candidate =
    let rest = next_free fuel base files (suc suffix) (numbered base (suc suffix)) in
    if text_mem candidate files then rest else candidate

-- With the stamp of the time.
unfoldable pub make_backup_path : Text → Text → List Text → Text
unfolding next_free
make_backup_path name stamp files =
    let base = backup_prefix name ++ stamp in next_free (length files) base files 1 base

abbrev pub begins_with : Text → Text → Bool
begins_with [] t = true
begins_with (c ∷ cs) [] = false
begins_with (c ∷ cs) (d ∷ ds) = c == d && begins_with cs ds

-- Sorted by name, the last name first.
unfoldable pub backup_candidates : Text → List Text → List Text
unfolding order_by text_leb
backup_candidates name files =
    order_by (λ a b. text_leb b a) (select (begins_with (backup_prefix name)) files)

abbrev pub unlink : Text → List Text → List Text
unlink path = select (λ f. not (text_eq f path))

abbrev pub unlink_each : List Text → List Text → List Text
unlink_each [] files = files
unlink_each (c ∷ cs) files = unlink_each cs (unlink c files)

-- Python's `items[n:]`.
abbrev pub from_index : ℕ → List Text → List Text
from_index zero items = items
from_index (suc n) [] = []
from_index (suc n) (c ∷ cs) = from_index n cs

unfoldable pub prune_old_backups : Text → ℕ → List Text → Result (List Text) × List Text
unfolding backup_candidates
prune_old_backups name keep files =
    if ltb keep 1
    then (err value_error, files)
    else let pruned = from_index keep (backup_candidates name files) in
      (ok pruned, unlink_each pruned files)

abbrev pub with_path : Text → Result (List Text) × List Text → Result (Text × List Text) × List Text
with_path path (ok pruned, files) = (ok (path, pruned), files)
with_path path (err e, files) = (err e, files)

-- What SQLite's backup into a new file and the check of its integrity do, is the second argument.
unfoldable pub backup_database :
    Text → Result (Unit {0}) → ℕ → Text → List Text → Result (Text × List Text) × List Text
unfolding make_backup_path prune_old_backups
backup_database name (err e) keep stamp files =
    let path = make_backup_path name stamp files in (err e, unlink path (path ∷ files))
backup_database name (ok done) keep stamp files =
    let path = make_backup_path name stamp files in
    with_path path (prune_old_backups name keep (path ∷ files))
