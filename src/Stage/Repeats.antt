-- ===== src/Stage/Repeats.antt =====
-- `admit`: the same task again is the same directive, another task under the same key is refused.
use laneq.Common.{
  ℕ, ◌≡◌, ◌≢◌, ◌⊎◌, refl, ap, sym, subst, ◌∙◌, arith, Bool-cases, true, false, Option, none, some,
  ok, err, Error, precondition, Result-cases, inl, inr,
}
use laneq.Text.{Text}
use laneq.Clock.{Env}
use laneq.Database.{Directive, Admission, Db, connect, find}
use laneq.Action.{or_rollback, ◌>>=◌}
use laneq.Action.Returns.{or_rollback-err, or_rollback-ok, or_rollback-cases, >>=-eq-ok}
use laneq.Core.Sweep.{normal, find-connect}
use laneq.Contract.{parse_successor}
use laneq.Contract.Json.{Successor}
use laneq.Stage.{
  stage_priority, find_admission, same_fingerprint, admit_in_transaction, Admitted, admitted,
  admitted_of, admit_task, admit, successor_value,
}
use laneq.Stage.Identity.{IsAdmitted, admission_again, admission_conflict, admission-IsAdmitted}

-- The directive is in the table.
abbrev IsStored : ℕ → Db → Type 0
IsStored n db = (r : Directive) × (find n db.directives ≡ some r)

admitted_row :
    (task : Successor) (n : ℕ) (o : Option Directive) {a : Admitted}
    → admitted task n o ≡ ok a
    → (n ≡ a.id) × ((r : Directive) × (o ≡ some r))
admitted_row task n none h = cc
admitted_row task n (some r) h = (cc, (r, refl))

module _ (key body lane priority : Text) (env : Env) (db : Db) where
  admit_lem :
      {task : Successor}
      → parse_successor (successor_value key body lane priority) ≡ ok task
      → admit key body lane priority env db ≡ or_rollback true (admit_task env task) (connect db)
  unfolding admit ◌>>=◌
  admit_lem p = rw p refl

  admit_unparsed :
      {x : Error}
      → parse_successor (successor_value key body lane priority) ≡ err x
      → admit key body lane priority env db ≡ (err x, db)
  unfolding admit ◌>>=◌
  admit_unparsed p = rw p refl

  admit_task_lem :
      (task : Successor) (d : Db) {a : Admitted}
      → (admit_task env task d).0 ≡ ok a
      → IsAdmitted env task a.id (admit_task env task d).1 × IsStored a.id (admit_task env task d).1
  unfolding admit_task ◌>>=◌
  admit_task_lem task d {a} h =
      let (n, e, h1, s) = >>=-eq-ok (admit_in_transaction env 0 task none) _ d h in
      let (equal, row) = admitted_row task n _ h1 in
      rw (s, ← equal) (admission-IsAdmitted env 0 task none d e, row)

  admit_task_again :
      (task : Successor) (d : Db) {n : ℕ}
      → IsAdmitted env task n d
      → IsStored n d
      → (a : Admitted) × (admit_task env task d ≡ (ok a, d)) × (a.id ≡ n)
  unfolding admit_task ◌>>=◌
  admit_task_again task d {n} known (row, f) =
      (admitted_of task n row, rw (admission_again env 0 task none d known) (rw f refl), refl)

  pub admit-ok :
      {a : Admitted}
      → (admit key body lane priority env db).0 ≡ ok a
      → (task : Successor) × (parse_successor (successor_value key body lane priority) ≡ ok task)
        × IsAdmitted env task a.id (admit key body lane priority env db).1
        × IsStored a.id (admit key body lane priority env db).1
  admit-ok {a} h = elim (Result-cases (parse_successor (successor_value key body lane priority))) [
    | inr (x, p) ↦ let bad : err x ≡ ok a = sym (ap (λ r. r.0) (admit_unparsed p)) ∙ h in cc (bad)
    | inl (task, p) ↦ elim (or_rollback-cases (admit_task env task) (connect db)) [
      | inl (x, d) ↦ let bad : err x ≡ ok a = sym (ap (λ r. r.0) (admit_lem p ∙ d)) ∙ h in cc (bad)
      | inr (r, d, o) ↦
          let same = admit_lem p ∙ d in
          let done = admit_task_lem task (connect db) (sym (ap (λ r. r.0) same) ∙ h) in
          (task, p, rw same done.0, rw same done.1)
    ]
  ]

IsStored-connect : (n : ℕ) (db : Db) → IsStored n db → IsStored n (connect db)
IsStored-connect n db (row, f) = (normal row, find-connect n db ∙ rw f refl)

IsAdmitted-connect :
    {env : Env} (env' : Env) {task : Successor} {n : ℕ} {db : Db}
    → env'.sha256 ≡ env.sha256
    → IsAdmitted env task n db
    → IsAdmitted env' task n (connect db)
unfolding connect
IsAdmitted-connect {env} env' {task} same a = record {
  value = a.value;
  priced = a.priced;
  admission = a.admission;
  there = a.there;
  same_id = a.same_id;
  same_task = rw same a.same_task;
}

-- Admission is idempotent: the same task again, at any later time, is the same directive, and
-- nothing changes but what `connect` does.
pub admit-admit :
    (key body lane priority : Text) (env env' : Env) (db : Db) {a : Admitted}
    → env'.sha256 ≡ env.sha256
    → (admit key body lane priority env db).0 ≡ ok a
    → (a' : Admitted) × (admit key body lane priority env' (admit key body lane priority env db).1
        ≡ (ok a', connect (admit key body lane priority env db).1))
      × (a'.id ≡ a.id)
admit-admit key body lane priority env env' db {a} same h =
    let after = (admit key body lane priority env db).1 in
    let (task, p, known, stored) = admit-ok key body lane priority env db h in
    let (a', e, n) =
      admit_task_again key body lane priority env' after task (connect after)
        (IsAdmitted-connect env' same known) (IsStored-connect a.id after stored) in
    (
      a',
      admit_lem key body lane priority env' after p
          ∙ or_rollback-ok (admit_task env' task) (connect after) (ap (λ r. r.0) e)
          ∙ e,
      n,
    )

-- The tasks have another body, by its digest, another lane or another priority.
abbrev IsOtherTask : Env → Successor → Successor → Type 0
IsOtherTask env task task' =
    (env.sha256 task'.body ≢ env.sha256 task.body)
    ⊎ ((task'.lane ≢ task.lane) ⊎ (stage_priority task'.priority ≢ stage_priority task.priority))

other_fingerprint :
    (env : Env) (task task' : Successor) (value value' : ℕ) (a : Admission)
    → stage_priority task.priority ≡ ok value
    → stage_priority task'.priority ≡ ok value'
    → IsOtherTask env task task'
    → same_fingerprint env task value a ≡ true
    → same_fingerprint env task' value' a ≡ false
other_fingerprint env task task' value value' a p p' other same =
    elim (Bool-cases (same_fingerprint env task' value' a)) [
      | inr e ↦ e
      | inl e ↦
          let digest : env.sha256 task'.body ≡ env.sha256 task.body = ground arith in
          let lane : task'.lane ≡ task.lane = ground arith in
          let value_eq : value' ≡ value = ground arith in
          let priority : stage_priority task'.priority ≡ stage_priority task.priority =
            p' ∙ ap ok value_eq ∙ sym p in
          absurd (elim other [
            | inl ne ↦ ne digest
            | inr (inl ne) ↦ ne lane
            | inr (inr ne) ↦ ne priority
          ])
    ]

-- An admission key stands for one task: after an `admit` that has returned, another `admit` under
-- the same key, whose arguments are accepted but have another lane, another priority or a body of
-- another digest, raises PreconditionError and changes nothing but what `connect` does.
pub admit-admit_conflict :
    (key body lane priority body' lane' priority' : Text) (env env' : Env) (db : Db) {a : Admitted}
    (task task' : Successor) (value' : ℕ)
    → env'.sha256 ≡ env.sha256
    → parse_successor (successor_value key body lane priority) ≡ ok task
    → parse_successor (successor_value key body' lane' priority') ≡ ok task'
    → stage_priority task'.priority ≡ ok value'
    → task'.admission_key ≡ task.admission_key
    → IsOtherTask env' task task'
    → (admit key body lane priority env db).0 ≡ ok a
    → admit key body' lane' priority' env' (admit key body lane priority env db).1
      ≡ (err precondition, connect (admit key body lane priority env db).1)
unfolding connect admit_task ◌>>=◌
admit-admit_conflict key body lane priority body' lane' priority' env env' db {a} task task' value'
      hash p p' v key_eq other h =
    let after : Db = (admit key body lane priority env db).1 in
    let (found, q, known, stored) = admit-ok key body lane priority env db h in
    let same : found ≡ task = cc (p, q) in
    let mine : IsAdmitted env' task a.id (connect after) =
      IsAdmitted-connect env' hash (subst (λ t. IsAdmitted env t a.id after) same known) in
    let there : find_admission task'.admission_key (connect after).admissions
        ≡ some mine.admission =
      rw key_eq mine.there in
    let differs =
      other_fingerprint env' task task' mine.value value' mine.admission mine.priced v other
        mine.same_task in
    admit_lem key body' lane' priority' env' after p'
    ∙ or_rollback-err (admit_task env' task') (connect after)
        (rw (admission_conflict env' 0 task' none (connect after) v there differs) refl)
