-- ===== src/Database.antt =====
-- The tables of the database (BASE_SCHEMA_SQL, HANDOFF_SCHEMA_SQL and ADMISSION_SCHEMA_SQL of
-- cli.py, SCHEMA of root_reservations.py), and what every `connect` does to them.
pub mod Rows
use laneq.Common.{
  ℕ, ◌+◌, Bool, true, false, List, [], ◌∷◌, ◌++◌, Option, none, some, Result, ok, err, Error, ◌==◌,
  if◌then◌else◌,
}
use laneq.Text.{Text, codes, text_eq}
use laneq.Sql.{first, update, count}

-- The column `status`. Its callers write these six values only.
pub data Status : Type 0 where
  pending taken deferred done dropped parked : Status

-- The column `recovery_policy`, by its CHECK.
pub data Policy : Type 0 where
  requeue hold : Policy

abbrev pub status_eq : Status → Status → Bool
status_eq pending pending = true
status_eq taken taken = true
status_eq deferred deferred = true
status_eq done done = true
status_eq dropped dropped = true
status_eq parked parked = true
status_eq _ _ = false

abbrev pub policy_eq : Policy → Policy → Bool
policy_eq requeue requeue = true
policy_eq hold hold = true
policy_eq _ _ = false

-- TERMINAL_STATUSES
abbrev pub is_terminal : Status → Bool
is_terminal done = true
is_terminal dropped = true
is_terminal _ = false

-- A row of `directives`. `blocked_by`, a text of ids and commas, stands as the list of the ids.
pub record Directive : Type 0 where
  pub id : ℕ
  pub priority : ℕ
  pub body : Text
  pub status : Status
  pub created_at : Option Text
  pub taken_at : Option Text
  pub done_at : Option Text
  pub taken_by : Option Text
  pub claim_token : Option Text
  pub lease_until : Option Text
  pub requeue_count : ℕ
  pub parent_id : Option ℕ
  pub lane : Text
  pub not_before : Option Text
  pub blocked_by : Option (List ℕ)
  pub recovery_policy : Policy

-- A row of `handoff_receipts`, with the receipt as a value in place of its JSON text.
pub record Receipt : Type 0 where
  pub id : ℕ
  pub input_digest : Text
  pub artifact_digest : Text
  pub receipt_ref : Text
  pub receipt_digest : Text
  pub manifest_digest : Text
  pub successor_ids : List ℕ

pub record HandoffRow : Type 0 where
  pub directive_id : ℕ
  pub claim_token : Text
  pub manifest_digest : Text
  pub manifest_json : Text
  pub receipt : Receipt

-- A row of `stage_admissions`.
pub record Admission : Type 0 where
  pub admission_key : Text
  pub directive_id : ℕ
  pub body_digest : Text
  pub lane : Text
  pub priority : ℕ

-- A row of `reserved_roots`.
pub record ReservedRoot : Type 0 where
  pub admission_key : Text
  pub work_id : Text
  pub namespace : Text
  pub qualification_digest : Text
  pub reservation_digest : Text
  pub directive_id : ℕ
  pub final_key : Option Text
  pub delivery_digest : Option Text

-- `next_id` is the id after the largest that AUTOINCREMENT has given out. A row of
-- `reserved_paths` is a key and a path.
pub record Db : Type 0 where
  pub directives : List Directive
  pub next_id : ℕ
  pub receipts : List HandoffRow
  pub admissions : List Admission
  pub roots : List ReservedRoot
  pub paths : List (Text × Text)

abbrev pub default_lane : Text
default_lane = codes "default"

-- SELECT … FROM directives WHERE id=?
abbrev pub find : ℕ → List Directive → Option Directive
find i = first (λ r. r.id == i)

-- What `connect` does to a database at the current schema: the data migration `normalize_lane`.
-- The other one, `normalize_requeue_count`, has nothing to do, since the column is NOT NULL.
unfoldable pub connect : Db → Db
connect db = record db {
  directives =
      update (λ r. text_eq r.lane []) (λ r. record r { lane = default_lane }) db.directives;
}
