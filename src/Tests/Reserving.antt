-- ===== src/Tests/Reserving.antt =====
-- Runs of `admit` on reservations, and an instance of the theorem about it.
use laneq.Common.{
  ◌||◌, ◌≡◌, refl, [], ◌∷◌, none, some, ok, err, precondition, ℕ_discrete, queue_error,
}
use laneq.Text.{text_eq, Text, codes, Text-discrete, text_leb}
use laneq.Clock.{utc_now, strftime}
use laneq.Database.{pending, Db, connect}
use laneq.Action.{◌>>=◌}
use laneq.Contract.{Value, text, list, nil, cons, dict, field, end}
use laneq.Stage.{successor_value}
use laneq.Reservations.{Reservation, parse_reservation, path_of, split_path}
use laneq.Inspection.{inspect}
use laneq.Inspection.Reading.{admit-inspect}
use laneq.Reservations.Roots.Overlap.{begins, overlaps-begins}
use laneq.Reservations.Roots.{RootReceipt, admit, overlaps}
use laneq.Reservations.Roots.Exclusion.{IsExclusive}
use laneq.Reservations.Roots.Admitting.{admit-IsExclusive}
use laneq.Tests.Handoffs.{hash_env, digest_a, digest_b, stage_db}

abbrev reservation : Text → Text → Text → Value
reservation key work path = dict (
    field (codes "task")
      (successor_value key (codes "build") (codes "dev:implementation") (codes "P1"))
      (field (codes "work_id") (text work) (
        field (codes "namespace") (text (codes "repo")) (
          field (codes "qualification_digest") (text digest_a) (
            field (codes "paths") (list (cons (text path) nil))
              (field (codes "dependencies") (list nil) end))))))

runs : Unit {0}
unfolding admit ◌>>=◌ connect utc_now strftime text_leb Text-discrete ℕ_discrete path_of
runs = tt

abbrev receipt : RootReceipt
receipt = record {
  id = 2;
  work_id = codes "w1";
  reservation_digest = digest_b;
  status = pending;
  delivery_digest = none;
}

abbrev after_root : Db
after_root = (admit (reservation (codes "k1") (codes "w1") (codes "src")) (hash_env 0) stage_db).1

reserves :
    (admit (reservation (codes "k1") (codes "w1") (codes "src")) (hash_env 0) stage_db).0
    ≡ ok receipt
unfolding runs
reserves = refl

-- A file below a reserved directory is not to be had.
overlap_refused :
    (admit (reservation (codes "k2") (codes "w2") (codes "src/a")) (hash_env 9) after_root).0
    ≡ err precondition
unfolding runs
overlap_refused = refl

-- A sibling is, whose name begins alike.
sibling_reserved :
    (admit (reservation (codes "k2") (codes "w2") (codes "src2")) (hash_env 9) after_root).0
    ≡ ok (record receipt { id = 3; work_id = codes "w2" })
unfolding runs
sibling_reserved = refl

parent_refused : path_of (codes "a/../b") ≡ err queue_error
unfolding runs
parent_refused = refl

no_roots-IsExclusive : IsExclusive [] []
no_roots-IsExclusive = record {
  rooted = λ p h. absurd h;
  apart = λ p q r s h. absurd h;
  one_writer = λ r s h. absurd h;
}

after_root-IsExclusive : IsExclusive after_root.roots after_root.paths
after_root-IsExclusive =
    admit-IsExclusive (reservation (codes "k1") (codes "w1") (codes "src")) (hash_env 0) stage_db
      no_roots-IsExclusive

admit-IsExclusive_example :
    IsExclusive
      (admit (reservation (codes "k2") (codes "w2") (codes "src2")) (hash_env 9) after_root).1.roots
      (admit (reservation (codes "k2") (codes "w2") (codes "src2")) (hash_env 9) after_root).1.paths
admit-IsExclusive_example =
    admit-IsExclusive (reservation (codes "k2") (codes "w2") (codes "src2")) (hash_env 9) after_root
      after_root-IsExclusive

overlaps-begins_example : overlaps (codes "src") (codes "src/a") ≡ (
    text_eq (codes "src") (codes ".")
    || text_eq (codes "src/a") (codes ".")
    || begins (split_path (codes "src")) (split_path (codes "src/a"))
    || begins (split_path (codes "src/a")) (split_path (codes "src")))
overlaps-begins_example = overlaps-begins (codes "src") (codes "src/a")

abbrev new : Reservation
new = record {
  task = record {
    admission_key = codes "k1";
    body = codes "build";
    lane = codes "dev:implementation";
    priority = codes "P1";
  };
  work_id = codes "w1";
  namespace = codes "repo";
  qualification_digest = digest_a;
  paths = codes "src" ∷ [];
  dependencies = [];
  digest = digest_b;
}

parsed :
    parse_reservation (hash_env 0).sha256 (reservation (codes "k1") (codes "w1") (codes "src"))
    ≡ ok new
unfolding runs parse_reservation
parsed = refl

admit-inspect_example :
    ((d : Db) → (inspect new d).1 ≡ d) × (inspect new after_root ≡ (ok (some receipt), after_root))
admit-inspect_example =
    admit-inspect (reservation (codes "k1") (codes "w1") (codes "src")) new (hash_env 0) stage_db
      parsed reserves
