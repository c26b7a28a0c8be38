-- ===== src/Stage.antt =====
-- stage_admission.py: the admission of protected work under a stable identity.
pub mod Identity
pub mod Repeats
use laneq.Common.{
  ℕ, List, [], ◌∷◌, ◌++◌, Bool, true, false, not, ◌&&◌, Option, none, some, Result, ok, err,
  precondition, key_error, type_error, ◌==◌, if◌then◌else◌,
}
use laneq.Text.{Text, codes, text_eq, first_line}
use laneq.Clock.{Env, utc_now}
use laneq.Sql.{first}
use laneq.Database.{Status, hold, Directive, Admission, Db, find}
use laneq.Action.{
  Action, pure, lift, gets, modify, raise_if, open_connection, or_rollback, insert_directive, ◌>>=◌,
  ◌>>◌,
}
use laneq.Core.Guard.{priority_value}
use laneq.Core.Enqueue.{new_directive}
use laneq.Contract.{Value, Fields, field, end, dict, text, parse_successor}
use laneq.Contract.Json.{Successor}

-- `PRIORITIES[task.priority]`
unfoldable pub stage_priority : Text → Result ℕ
unfolding priority_value
stage_priority name = elim (priority_value name) [ ok n ↦ ok n | err e ↦ err key_error ]

-- SELECT … FROM stage_admissions WHERE admission_key=?
abbrev pub find_admission : Text → List Admission → Option Admission
find_admission key = first (λ a. text_eq a.admission_key key)

-- `existing[1:] == fingerprint`
abbrev pub same_fingerprint : Env → Successor → ℕ → Admission → Bool
same_fingerprint env task value a =
    text_eq a.body_digest (env.sha256 task.body) && text_eq a.lane task.lane && a.priority == value

-- The two INSERTs; the directive is protected.
unfoldable pub insert_stage : Env → ℕ → Successor → ℕ → Option ℕ → Action ℕ
insert_stage env i task value parent = do
  item_id ←
      insert_directive (new_directive value task.body (some (utc_now env i)) parent task.lane hold)
  modify (λ db. record db {
    admissions =
        db.admissions
        ++ record {
          admission_key = task.admission_key;
          directive_id = item_id;
          body_digest = env.sha256 task.body;
          lane = task.lane;
          priority = value;
        }
          ∷ [];
  })
  pure item_id

unfoldable pub admit_found : Env → ℕ → Successor → ℕ → Option ℕ → Option Admission → Action ℕ
unfolding insert_stage
admit_found env i task value parent none = insert_stage env i task value parent
admit_found env i task value parent (some existing) = do
  raise_if (not (same_fingerprint env task value existing)) precondition
  pure existing.directive_id

-- The (i+1)-th reading of the clock is the creation time.
unfoldable pub admit_in_transaction : Env → ℕ → Successor → Option ℕ → Action ℕ
unfolding stage_priority admit_found
admit_in_transaction env i task parent = do
  value ← lift (stage_priority task.priority)
  existing ← gets (λ db. find_admission task.admission_key db.admissions)
  admit_found env i task value parent existing

-- What `admit` returns.
pub record Admitted : Type 0 where
  pub id : ℕ
  pub status : Status
  pub lane : Text
  pub priority : Text
  pub parent : Option ℕ
  pub summary : Text

abbrev pub admitted_of : Successor → ℕ → Directive → Admitted
admitted_of task item_id row = record {
  id = item_id;
  status = row.status;
  lane = task.lane;
  priority = task.priority;
  parent = row.parent_id;
  summary = first_line task.body;
}

-- The result by the row of the directive; unpacking None is a TypeError.
abbrev pub admitted : Successor → ℕ → Option Directive → Result Admitted
admitted task item_id none = err type_error
admitted task item_id (some row) = ok (admitted_of task item_id row)

unfoldable pub admit_task : Env → Successor → Action Admitted
unfolding admit_in_transaction
admit_task env task = do
  item_id ← admit_in_transaction env 0 task none
  row ← gets (λ db. find item_id db.directives)
  lift (admitted task item_id row)

-- The dict that `admit` has parsed.
abbrev pub successor_value : Text → Text → Text → Text → Value
successor_value admission_key body lane priority = dict (
    field (codes "admission_key") (text admission_key) (
      field (codes "body") (text body)
        (field (codes "lane") (text lane) (field (codes "priority") (text priority) end))))

unfoldable pub admit : Text → Text → Text → Text → Env → Action Admitted
unfolding parse_successor admit_task
admit admission_key body lane priority env = do
  task ← lift (parse_successor (successor_value admission_key body lane priority))
  open_connection
  or_rollback true (admit_task env task)
