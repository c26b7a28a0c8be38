-- ===== src/Inspection/Reading.antt =====
-- What `inspect` reads of an admission.
use laneq.Common.{
  ◌≡◌, refl, ap, sym, subst, ◌∙◌, List, [], ◌∷◌, ◌++◌, Bool, true, false, not, Option, none, some,
  ok, err, Bool-cases, inl, inr, precondition,
}
use laneq.Text.{Text, text_eq}
use laneq.Text.Order.{text_eq_refl, eq_of_text_eq}
use laneq.Sql.{exists}
use laneq.Clock.{Env}
use laneq.Database.{ReservedRoot, Db, find, connect}
use laneq.Action.{pure, raise_if, ◌>>=◌}
use laneq.Action.Keeps.{Keeps, keeps_rules}
use laneq.Action.Returns.{>>=-eq-ok, or_rollback-cases}
use laneq.Contract.{Value}
use laneq.Stage.{admit_in_transaction}
use laneq.Reservations.{Reservation, parse_reservation}
use laneq.Reservations.Roots.{
  root, RootReceipt, receipt, receipt_by, require_row, new_root, store_root, require_dependencies,
  require_resources, insert_root, root_or_insert, admit_root, admit,
}
use laneq.Reservations.Roots.Admitting.{resources_free, admission-SameRoots}
use laneq.Inspection.{inspect, inspect_row}

-- The root of the reservation in the table is this row, with the digest of the reservation.
record IsRootOf (new : Reservation) (row : ReservedRoot) (db : Db) : Type 0 where
  there : root new.task.admission_key db.roots ≡ some row
  same_digest : row.reservation_digest ≡ new.digest

root-append :
    (key : Text) (rows : List ReservedRoot) (x : ReservedRoot)
    → root key rows ≡ none
    → text_eq x.admission_key key ≡ true
    → root key (rows ++ x ∷ []) ≡ some x
root-append key [] x h e = rw e refl
root-append key (r ∷ rs) x h e = elim (Bool-cases (text_eq r.admission_key key)) [
  | inl k ↦ cc (rw k at h)
  | inr k ↦ rw k (root-append key rs x (rw k at h) e)
]

require_row-eq :
    (o : Option ReservedRoot) {row : ReservedRoot} → require_row o ≡ ok row → o ≡ some row
require_row-eq none h = cc
require_row-eq (some r) {row} h = let same : r ≡ row = cc (h) in ap some same

not-eq-false : (b : Bool) → not b ≡ false → b ≡ true
not-eq-false true h = refl
not-eq-false false h = cc

not_raised : (b : Bool) (db : Db) {u : Unit {0}} → (raise_if b precondition db).0 ≡ ok u → b ≡ false
unfolding raise_if
not_raised true db h = cc
not_raised false db h = refl

module _ (env : Env) (new : Reservation) (db : Db) where
  insert_root-IsRootOf :
      {row : ReservedRoot}
      → root new.task.admission_key db.roots ≡ none
      → (insert_root env new db).0 ≡ ok row
      → IsRootOf new row (insert_root env new db).1
  unfolding insert_root require_dependencies store_root ◌>>=◌
  insert_root-IsRootOf {row} fresh h =
      let admitted = exists (λ a. text_eq a.admission_key new.task.admission_key) db.admissions in
      let (u1, e1, h1, s1) = >>=-eq-ok (raise_if admitted precondition) _ db h in
      let (u2, e2, h2, s2) = >>=-eq-ok (require_dependencies new) _ db h1 in
      let (u3, e3, h3, s3) = >>=-eq-ok (require_resources new) _ db h2 in
      let (free, idle, same) = resources_free new db e3 in
      let checked = (require_resources new db).1 in
      let (n, e4, h4, s4) = >>=-eq-ok (admit_in_transaction env 0 new.task none) _ checked h3 in
      let mid = (admit_in_transaction env 0 new.task none checked).1 in
      let kept =
        (admission-SameRoots db.roots db.paths env 0 new.task none).at checked
          (record { same_roots = ap (λ d. d.roots) same; same_rows = ap (λ d. d.paths) same }) in
      let here : root new.task.admission_key (mid.roots ++ new_root new n ∷ []) ≡ some row =
        require_row-eq _ h4 in
      let made : root new.task.admission_key (mid.roots ++ new_root new n ∷ [])
          ≡ some (new_root new n) =
        rw kept.same_roots (
          root-append new.task.admission_key db.roots (new_root new n) fresh
            (text_eq_refl new.task.admission_key)) in
      let same_row : new_root new n ≡ row = cc (here, made) in
      record {
        there =
            subst (λ d. root new.task.admission_key d.roots ≡ some row) (sym (s1 ∙ s2 ∙ s3 ∙ s4))
              here;
        same_digest = ap (λ r. r.reservation_digest) (sym same_row);
      }

  root_or_insert-IsRootOf :
      {row : ReservedRoot} (found : Option ReservedRoot)
      → root new.task.admission_key db.roots ≡ found
      → (root_or_insert env new found db).0 ≡ ok row
      → IsRootOf new row (root_or_insert env new found db).1
  unfolding root_or_insert ◌>>=◌
  root_or_insert-IsRootOf none f h = insert_root-IsRootOf f h
  root_or_insert-IsRootOf {row} (some existing) f h =
      let differs = not (text_eq existing.reservation_digest new.digest) in
      let (u, e, h1, s) = >>=-eq-ok (raise_if differs precondition) (λ u. pure existing) db h in
      let same : existing ≡ row = cc (h1) in
      let equal = not-eq-false _ (not_raised differs db e) in
      record {
        there =
            subst (λ d. root new.task.admission_key d.roots ≡ some row) (sym s) (f ∙ ap some same);
        same_digest =
            ap (λ r. r.reservation_digest) (sym same)
            ∙ eq_of_text_eq existing.reservation_digest new.digest equal;
      }

-- `receipt` reads only.
receipt_same :
    (row : ReservedRoot) (db : Db)
    → receipt row db ≡ (receipt_by row (find row.directive_id db.directives), db)
unfolding receipt ◌>>=◌
receipt_same row db = refl

inspect_found :
    (new : Reservation) (row : ReservedRoot) (db : Db) {r : RootReceipt}
    → IsRootOf new row db
    → (receipt row db).0 ≡ ok r
    → inspect new db ≡ (ok (some r), db)
unfolding inspect ◌>>=◌
inspect_found new row db h e =
    let equal =
      subst (λ x. text_eq row.reservation_digest x ≡ true) h.same_digest
        (text_eq_refl row.reservation_digest) in
    let read = ap (λ x. x.0) (sym (receipt_same row db)) ∙ e in rw (h.there, equal, read) refl

inspect_row-Same :
    (new : Reservation) (db : Db) (o : Option ReservedRoot)
    → Keeps (λ d. d ≡ db) (inspect_row new o)
unfolding inspect_row
inspect_row-Same new db none = search keeps_rules depth 20
inspect_row-Same new db (some row) = search keeps_rules depth 20

inspect-Same : (new : Reservation) (db : Db) → Keeps (λ d. d ≡ db) (inspect new)
unfolding inspect
inspect-Same new db = search (keeps_rules, inspect_row-Same) depth 20

admit_root-inspect :
    (env : Env) (new : Reservation) (db : Db) {r : RootReceipt}
    → (admit_root env new db).0 ≡ ok r
    → inspect new (admit_root env new db).1 ≡ (ok (some r), (admit_root env new db).1)
unfolding admit_root ◌>>=◌
admit_root-inspect env new db {r} h =
    let found = root new.task.admission_key db.roots in
    let (row, e, h1, s) = >>=-eq-ok (root_or_insert env new found) receipt db h in
    let mid = (root_or_insert env new found db).1 in
    let same = s ∙ ap (λ x. x.1) (receipt_same row mid) in
    let is_root = root_or_insert-IsRootOf env new db found refl e in
    subst (λ d. inspect new d ≡ (ok (some r), d)) (sym same) (inspect_found new row mid is_root h1)

-- `inspect` never changes the database, and after an `admit` that has returned a receipt it returns
-- the same receipt for the same reservation.
pub admit-inspect :
    (value : Value) (new : Reservation) (env : Env) (db : Db) {r : RootReceipt}
    → parse_reservation env.sha256 value ≡ ok new
    → (admit value env db).0 ≡ ok r
    → ((d : Db) → (inspect new d).1 ≡ d)
      × (inspect new (admit value env db).1 ≡ (ok (some r), (admit value env db).1))
unfolding admit ◌>>=◌
admit-inspect value new env db {r} p h = (λ d. (inspect-Same new d).at d refl, read_back)
  where
    read_back : inspect new (admit value env db).1 ≡ (ok (some r), (admit value env db).1)
    read_back = elim (or_rollback-cases (admit_root env new) (connect db)) [
      | inl (x, d) ↦ let bad : err x ≡ ok r = ap (λ y. y.0) (sym d) ∙ (rw p at h) in cc (bad)
      | inr (q, d, o) ↦
          let same : ok q ≡ ok r = sym o ∙ ap (λ y. y.0) (sym d) ∙ (rw p at h) in
          rw p (
            subst (λ y. inspect new y.1 ≡ (ok (some r), y.1)) (sym d)
              (admit_root-inspect env new (connect db) (o ∙ same)))
    ]
