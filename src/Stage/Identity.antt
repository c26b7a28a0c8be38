-- ===== src/Stage/Identity.antt =====
-- `admit_in_transaction`: what is admitted is there under its key, and stays there.
use laneq.Common.{
  ℕ, ◌≡◌, refl, ap, sym, ◌∙◌, List, [], ◌∷◌, ◌++◌, true, false, Option, none, some, ok, err, Error,
  precondition, arith, Result-cases, Option-cases, Bool-cases, inl, inr, ==_refl,
}
use laneq.Text.{Text}
use laneq.Text.Order.{text_eq_refl}
use laneq.Clock.{Env}
use laneq.Database.{Admission, Db}
use laneq.Action.{◌>>=◌}
use laneq.Action.Keeps.{Keeps, keeps_rules}
use laneq.Contract.Json.{Successor}
use laneq.Stage.{
  stage_priority, find_admission, same_fingerprint, insert_stage, admit_found, admit_in_transaction,
}

find_admission-append :
    (key : Text) (rows : List Admission) (a : Admission)
    → find_admission key rows ≡ none
    → a.admission_key ≡ key
    → find_admission key (rows ++ a ∷ []) ≡ some a
find_admission-append key [] a h e = rw (e, text_eq_refl key) refl
find_admission-append key (x ∷ xs) a h e = ground (arith, find_admission-append key xs a)

-- The task is admitted under its key, as the directive `n`.
pub record IsAdmitted (env : Env) (task : Successor) (n : ℕ) (db : Db) : Type 0 where
  pub value : ℕ
  pub priced : stage_priority task.priority ≡ ok value
  pub admission : Admission
  pub there : find_admission task.admission_key db.admissions ≡ some admission
  pub same_id : admission.directive_id ≡ n
  pub same_task : same_fingerprint env task value admission ≡ true

module _ (env : Env) (k : ℕ) (task : Successor) (parent : Option ℕ) (db : Db) where
  admission_lem :
      {value : ℕ} (o : Option Admission)
      → stage_priority task.priority ≡ ok value
      → find_admission task.admission_key db.admissions ≡ o
      → admit_in_transaction env k task parent db ≡ admit_found env k task value parent o db
  unfolding admit_in_transaction ◌>>=◌
  admission_lem o p f = rw (p, f) refl

  -- What is admitted already is found, and nothing is inserted.
  pub admission_again :
      {n : ℕ} → IsAdmitted env task n db → admit_in_transaction env k task parent db ≡ (ok n, db)
  unfolding admit_found ◌>>=◌
  admission_again a =
      admission_lem (some a.admission) a.priced a.there ∙ rw (a.same_task, a.same_id) refl

  pub admission_conflict :
      {value : ℕ} {a : Admission}
      → stage_priority task.priority ≡ ok value
      → find_admission task.admission_key db.admissions ≡ some a
      → same_fingerprint env task value a ≡ false
      → admit_in_transaction env k task parent db ≡ (err precondition, db)
  unfolding admit_found ◌>>=◌
  admission_conflict {a} p f d = admission_lem (some a) p f ∙ rw d refl

  inserted-IsAdmitted :
      {value n : ℕ}
      → stage_priority task.priority ≡ ok value
      → find_admission task.admission_key db.admissions ≡ none
      → (insert_stage env k task value parent db).0 ≡ ok n
      → IsAdmitted env task n (insert_stage env k task value parent db).1
  unfolding insert_stage ◌>>=◌
  inserted-IsAdmitted {value} p f h = record {
    value = value;
    priced = p;
    admission = _;
    there = find_admission-append task.admission_key db.admissions _ f refl;
    same_id = cc (h);
    same_task =
        rw (text_eq_refl (env.sha256 task.body), text_eq_refl task.lane, ==_refl value) refl;
  }

  admission_unpriced :
      {x : Error}
      → stage_priority task.priority ≡ err x
      → admit_in_transaction env k task parent db ≡ (err x, db)
  unfolding admit_in_transaction ◌>>=◌
  admission_unpriced p = rw p refl

  admission_new :
      {value : ℕ}
      → stage_priority task.priority ≡ ok value
      → find_admission task.admission_key db.admissions ≡ none
      → admit_in_transaction env k task parent db ≡ insert_stage env k task value parent db
  unfolding admit_found
  admission_new p f = admission_lem none p f

  admission_found :
      {value n : ℕ} (a : Admission)
      → stage_priority task.priority ≡ ok value
      → find_admission task.admission_key db.admissions ≡ some a
      → (admit_in_transaction env k task parent db).0 ≡ ok n
      → IsAdmitted env task n (admit_in_transaction env k task parent db).1
  admission_found {value} {n} a p f h = elim (Bool-cases (same_fingerprint env task value a)) [
    | inl s ↦
        let known : IsAdmitted env task a.directive_id db = record {
          value = value;
          priced = p;
          admission = a;
          there = f;
          same_id = refl;
          same_task = s;
        } in
        let again = admission_again known in
        let same : ok a.directive_id ≡ ok n = sym (ap (λ r. r.0) again) ∙ h in
        let equal : a.directive_id ≡ n = cc (same) in rw (again, ← equal) known
    | inr d ↦
        let bad : err precondition ≡ ok n = sym (ap (λ r. r.0) (admission_conflict p f d)) ∙ h in
        cc (bad)
  ]

  -- Whatever is admitted is then there under its key.
  pub admission-IsAdmitted :
      {n : ℕ}
      → (admit_in_transaction env k task parent db).0 ≡ ok n
      → IsAdmitted env task n (admit_in_transaction env k task parent db).1
  admission-IsAdmitted {n} h = elim (Result-cases (stage_priority task.priority)) [
    | inr (x, p) ↦
        let bad : err x ≡ ok n = sym (ap (λ r. r.0) (admission_unpriced p)) ∙ h in cc (bad)
    | inl (value, p) ↦ elim (Option-cases (find_admission task.admission_key db.admissions)) [
      | inr (a, f) ↦ admission_found a p f h
      | inl f ↦
          let new = admission_new p f in
          rw new (inserted-IsAdmitted p f (sym (ap (λ r. r.0) new) ∙ h))
    ]
  ]

find_admission-more :
    (key : Text) (rows : List Admission) (x : Admission) {a : Admission}
    → find_admission key rows ≡ some a
    → find_admission key (rows ++ x ∷ []) ≡ some a
find_admission-more key [] x h = cc
find_admission-more key (y ∷ ys) x {a} h = ground (arith, find_admission-more key ys x {a = a})

-- Other admissions leave it there.
module _ (env : Env) (task : Successor) (n : ℕ) where
  insert_stage-Keeps :
      (k : ℕ) (other : Successor) (value : ℕ) (parent : Option ℕ)
      → Keeps (IsAdmitted env task n) (insert_stage env k other value parent)
  unfolding insert_stage ◌>>=◌
  insert_stage-Keeps k other value parent = record {
    at = λ db a. record {
      value = a.value;
      priced = a.priced;
      admission = a.admission;
      there = find_admission-more task.admission_key db.admissions _ a.there;
      same_id = a.same_id;
      same_task = a.same_task;
    };
  }

  admit_found-Keeps :
      (k : ℕ) (other : Successor) (value : ℕ) (parent : Option ℕ) (o : Option Admission)
      → Keeps (IsAdmitted env task n) (admit_found env k other value parent o)
  unfolding admit_found
  admit_found-Keeps k other value parent none = insert_stage-Keeps k other value parent
  admit_found-Keeps k other value parent (some a) = search keeps_rules depth 20

  pub admission-Keeps :
      (k : ℕ) (other : Successor) (parent : Option ℕ)
      → Keeps (IsAdmitted env task n) (admit_in_transaction env k other parent)
  unfolding admit_in_transaction
  admission-Keeps k other parent = search (keeps_rules, admit_found-Keeps) depth 20
