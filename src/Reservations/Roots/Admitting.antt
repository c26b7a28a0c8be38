-- ===== src/Reservations/Roots/Admitting.antt =====
-- `admit` of root_reservations.py keeps the reserved roots apart, whatever it is called with.
use laneq.Common.{
  ℕ, ◌≡◌, refl, ap, sym, subst, ◌∙◌, List, [], ◌∷◌, false, not, Option, none, some, ok,
  Result-cases, Bool-cases, inl, inr, ◌++◌, precondition,
}
use laneq.Text.{Text, text_eq}
use laneq.Sql.{exists}
use laneq.Clock.{Env}
use laneq.Database.{Admission, ReservedRoot, Db, connect}
use laneq.Action.{pure, raise_if, ◌>>=◌}
use laneq.Action.Keeps.{Keeps, keeps_rules}
use laneq.Action.Returns.{>>=-eq-ok, or_rollback-cases}
use laneq.Contract.{Value}
use laneq.Contract.Json.{Successor}
use laneq.Stage.{insert_stage, admit_found, admit_in_transaction}
use laneq.Reservations.{Reservation, parse_reservation}
use laneq.Reservations.Roots.{
  root, RootReceipt, any_taken, has_active_work, new_root, path_rows, store_root,
  require_dependencies, require_resources, insert_root, root_or_insert, receipt, admit_root, admit,
}
use laneq.Reservations.Roots.Exclusion.{IsExclusive, stored-IsExclusive}

-- The reserved roots and their paths are these.
pub record SameRoots (roots : List ReservedRoot) (rows : List (Text × Text)) (db : Db)
    : Type 0 where
  pub same_roots : db.roots ≡ roots
  pub same_rows : db.paths ≡ rows

module _ (roots : List ReservedRoot) (rows : List (Text × Text)) (env : Env) (k : ℕ)
    (task : Successor) (parent : Option ℕ) where
  insert_stage-SameRoots :
      (value : ℕ) → Keeps (SameRoots roots rows) (insert_stage env k task value parent)
  unfolding insert_stage ◌>>=◌
  insert_stage-SameRoots value = record {
    at = λ db h. record { same_roots = h.same_roots; same_rows = h.same_rows };
  }

  admit_found-SameRoots :
      (value : ℕ) (o : Option Admission)
      → Keeps (SameRoots roots rows) (admit_found env k task value parent o)
  unfolding admit_found
  admit_found-SameRoots value none = insert_stage-SameRoots value
  admit_found-SameRoots value (some a) = search keeps_rules depth 20

  pub admission-SameRoots : Keeps (SameRoots roots rows) (admit_in_transaction env k task parent)
  unfolding admit_in_transaction
  admission-SameRoots = search (keeps_rules, admit_found-SameRoots) depth 20

abbrev Exclusive : Db → Type 0
Exclusive db = IsExclusive db.roots db.paths

pub resources_free :
    (new : Reservation) (db : Db)
    → (require_resources new db).0 ≡ ok tt
    → (any_taken new.namespace db.roots db.paths new.paths ≡ false)
      × (has_active_work new.work_id db.roots ≡ false)
      × ((require_resources new db).1 ≡ db)
unfolding require_resources ◌>>=◌
resources_free new db h = elim (Bool-cases (any_taken new.namespace db.roots db.paths new.paths)) [
  | inl e ↦ cc (rw e at h)
  | inr e ↦ elim (Bool-cases (has_active_work new.work_id db.roots)) [
    | inl f ↦ cc (rw (e, f) at h)
    | inr f ↦ (e, f, rw e refl)
  ]
]

module _ (env : Env) (new : Reservation) (db : Db) (w : Exclusive db) where
  insert_root-Exclusive :
      {row : ReservedRoot}
      → root new.task.admission_key db.roots ≡ none
      → (insert_root env new db).0 ≡ ok row
      → Exclusive (insert_root env new db).1
  unfolding insert_root require_dependencies store_root ◌>>=◌
  insert_root-Exclusive fresh h =
      let admitted = exists (λ a. text_eq a.admission_key new.task.admission_key) db.admissions in
      let (u1, e1, h1, s1) = >>=-eq-ok (raise_if admitted precondition) _ db h in
      let (u2, e2, h2, s2) = >>=-eq-ok (require_dependencies new) _ db h1 in
      let (u3, e3, h3, s3) = >>=-eq-ok (require_resources new) _ db h2 in
      let (free, idle, same) = resources_free new db e3 in
      let checked = (require_resources new db).1 in
      let (n, e4, h4, s4) = >>=-eq-ok (admit_in_transaction env 0 new.task none) _ checked h3 in
      let mid = (admit_in_transaction env 0 new.task none checked).1 in
      let kept =
        (admission-SameRoots db.roots db.paths env 0 new.task none).at checked
          (record { same_roots = ap (λ d. d.roots) same; same_rows = ap (λ d. d.paths) same }) in
      let stored : IsExclusive (mid.roots ++ new_root new n ∷ [])
          (mid.paths ++ path_rows new.task.admission_key new.paths) =
        rw (kept.same_roots, kept.same_rows)
          (stored-IsExclusive new n db.roots db.paths w fresh free idle) in
      subst Exclusive (sym (s1 ∙ s2 ∙ s3 ∙ s4)) stored

  root_or_insert-Exclusive :
      {row : ReservedRoot} (found : Option ReservedRoot)
      → root new.task.admission_key db.roots ≡ found
      → (root_or_insert env new found db).0 ≡ ok row
      → Exclusive (root_or_insert env new found db).1
  unfolding root_or_insert ◌>>=◌
  root_or_insert-Exclusive none f h = insert_root-Exclusive f h
  root_or_insert-Exclusive (some existing) f h =
      let (u, e, h1, s) =
        >>=-eq-ok (raise_if (not (text_eq existing.reservation_digest new.digest)) precondition)
          (λ u. pure existing) db h in
      subst Exclusive (sym s) w

  admit_root-Exclusive :
      {r : RootReceipt} → (admit_root env new db).0 ≡ ok r → Exclusive (admit_root env new db).1
  unfolding admit_root receipt ◌>>=◌
  admit_root-Exclusive h =
      let found = root new.task.admission_key db.roots in
      let (row, e, h1, s) = >>=-eq-ok (root_or_insert env new found) receipt db h in
      subst Exclusive (sym s) (root_or_insert-Exclusive found refl e)

connect-Exclusive : (db : Db) → Exclusive db → Exclusive (connect db)
unfolding connect
connect-Exclusive db w = w

-- Reserving keeps writers apart: whatever `admit` is called with, and whether it returns or raises,
-- afterwards no two roots that await their delivery in one namespace hold overlapping paths, and no
-- two hold one work, if that was so before.
pub admit-IsExclusive :
    (value : Value) (env : Env) (db : Db)
    → IsExclusive db.roots db.paths
    → IsExclusive (admit value env db).1.roots (admit value env db).1.paths
unfolding admit ◌>>=◌
admit-IsExclusive value env db w = elim (Result-cases (parse_reservation env.sha256 value)) [
  | inr (x, p) ↦ rw p w
  | inl (new, p) ↦ elim (or_rollback-cases (admit_root env new) (connect db)) [
    | inl (x, d) ↦ rw p (subst Exclusive (sym (ap (λ r. r.1) d)) (connect-Exclusive db w))
    | inr (r, d, o) ↦ rw p (
        subst Exclusive (sym (ap (λ r. r.1) d))
          (admit_root-Exclusive env new (connect db) (connect-Exclusive db w) o))
  ]
]
