-- ===== src/Bridge.antt =====
-- stage_bridge.py: the operations that a queue owner with one fixed lane has, on the requests that it
-- reads. The lease of an owner is an int; a negative one is refused as 0 is.
pub mod Requests
pub mod Authority
use laneq.Common.{
  ℕ, ◌+◌, List, [], ◌∷◌, Bool, true, false, not, ◌&&◌, Option, none, some, Result, ok, err,
  queue_error, precondition, leb, ◌==◌, if◌then◌else◌,
}
use laneq.Text.{Text, codes, text_eq, text_mem}
use laneq.Clock.{Env, seconds}
use laneq.Sql.{first}
use laneq.Database.{hold, policy_eq, Directive, Receipt, Admission, Db, find}
use laneq.Action.{Action, pure, lift, gets, raise_if, open_connection, or_rollback, ◌>>=◌, ◌>>◌}
use laneq.Core.Claim.{Claimed, take, touch}
use laneq.Contract.{
  Value, Fields, end, field, text, dict, Handoff, object_fields, get_field, bounded_text,
  check_text, parse_handoff,
}
use laneq.Contract.Json.{Successor}
use Requests.{Request, claim_request, inspect_request, renew_request, complete_request, request}
use laneq.Handoff.{require_active, sealed_receipt, commit_handoff}

pub record Owner : Type 0 where
  pub lane : Text
  pub consumer : Text
  pub lease_seconds : ℕ
  pub successor_lanes : List Text

abbrev pub check_lanes : List Text → Result (Unit {0})
check_lanes [] = ok tt
check_lanes (lane ∷ lanes) = elim (check_text lane 128) [ err e ↦ err e | ok t ↦ check_lanes lanes ]

unfoldable pub validate : Owner → Action Unit
unfolding check_text
validate owner = do
  lift (check_text owner.lane 128)
  lift (check_text owner.consumer 256)
  raise_if (not (leb 1 owner.lease_seconds && leb owner.lease_seconds 3600)) queue_error
  lift (check_lanes owner.successor_lanes)

abbrev is_in_lane : Text → Option Directive → Bool
is_in_lane lane none = false
is_in_lane lane (some d) = text_eq d.lane lane && policy_eq d.recovery_policy hold

-- The JOIN and the WHERE clause of `lookup`.
abbrev pub is_own : Text → Owner → List Directive → Admission → Bool
is_own task_id owner rows a =
    text_eq a.admission_key task_id
    && text_eq a.lane owner.lane
    && is_in_lane owner.lane (find a.directive_id rows)

-- A row of `lookup`: the admission with its directive.
abbrev pub joined : Env → Option Admission → List Directive → Result (Admission × Directive)
joined env none rows = err precondition
joined env (some a) rows = elim (find a.directive_id rows) [
  | none ↦ err precondition
  | some d ↦ if text_eq (env.sha256 d.body) a.body_digest then ok (a, d) else err precondition
]

unfoldable pub lookup : Env → Text → Owner → Action (Admission × Directive)
lookup env task_id owner = do
  found ← gets (λ db. first (is_own task_id owner db.directives) db.admissions)
  rows ← gets (λ db. db.directives)
  lift (joined env found rows)

-- What `snapshot` returns.
pub record Snapshot : Type 0 where
  pub task_id : Text
  pub lane : Text
  pub claim_token : Option Text
  pub input_digest : Text
  pub lease_until : Option Text
  pub body : Text

abbrev pub snapshot : Admission → Directive → Snapshot
snapshot a d = record {
  task_id = a.admission_key;
  lane = a.lane;
  claim_token = d.claim_token;
  input_digest = a.body_digest;
  lease_until = d.lease_until;
  body = d.body;
}

-- The clock after its first readings.
abbrev pub later : ℕ → Env → Env
later k env = record env { clock = λ i. env.clock (k + i) }

unfoldable pub inspect : Text → Text → Owner → Env → Action Snapshot
unfolding lookup require_active
inspect task_id token owner env = do
  open_connection
  row ← lookup env task_id owner
  require_active env 0 row.1.id token
  pure (snapshot row.0 row.1)

unfoldable pub inspect_claimed : Text → Owner → Env → Option Admission → Action (Option Snapshot)
unfolding inspect
inspect_claimed token owner env none = lift (err precondition)
inspect_claimed token owner env (some a) = do
  s ← inspect a.admission_key token owner env
  pure (some s)

unfoldable pub identify : Owner → Env → Option Claimed → Action (Option Snapshot)
unfolding inspect_claimed
identify owner env none = pure none
identify owner env (some taken) = do
  open_connection
  identity ← gets (λ db. first (λ a. a.directive_id == taken.id) db.admissions)
  inspect_claimed taken.claim_token owner env identity

-- `take` reads the clock five times.
unfoldable pub claim : Owner → Env → Action (Option Snapshot)
unfolding take identify
claim owner env = do
  taken ← take owner.consumer (seconds owner.lease_seconds) owner.lane (codes "hold") none env
  identify owner (later 5 env) taken

-- `touch` reads the clock four times.
unfoldable pub renew : Text → Text → Owner → Env → Action Snapshot
unfolding lookup require_active touch inspect
renew task_id token owner env = do
  open_connection
  row ← lookup env task_id owner
  require_active env 0 row.1.id token
  touch row.1.id (seconds owner.lease_seconds) (some token) false (later 1 env)
  inspect task_id token owner (later 5 env)

abbrev pub all_authorized : List Text → List Successor → Bool
all_authorized lanes [] = true
all_authorized lanes (s ∷ ss) = text_mem s.lane lanes && all_authorized lanes ss

unfoldable pub commit_authorized :
    Env → Owner → ℕ → Text → Handoff → Option Receipt → Action Receipt
unfolding commit_handoff
commit_authorized env owner item_id token manifest (some receipt) = pure receipt
commit_authorized env owner item_id token manifest none = do
  raise_if (not (all_authorized owner.successor_lanes manifest.successors)) precondition
  commit_handoff env item_id token manifest

unfoldable pub settle_own : Env → Text → Text → Handoff → Owner → Action Receipt
unfolding lookup sealed_receipt commit_authorized
settle_own env task_id token manifest owner = do
  row ← lookup env task_id owner
  existing ← sealed_receipt row.1.id token manifest
  commit_authorized env owner row.1.id token manifest existing

unfoldable pub complete : Text → Text → Value → Owner → Env → Action Receipt
unfolding parse_handoff settle_own
complete task_id token value owner env = do
  manifest ← lift (parse_handoff env.sha256 value)
  open_connection
  or_rollback true (settle_own env task_id token manifest owner)

-- What `operate` returns.
pub data Reply : Type 0 where
  nothing : Reply
  snapped : Snapshot → Reply
  settled : Receipt → Reply

abbrev reply_of : Option Snapshot → Reply
reply_of none = nothing
reply_of (some s) = snapped s

unfoldable pub dispatch : Owner → Env → Request → Action Reply
unfolding claim inspect renew complete
dispatch owner env claim_request = do s ← claim owner env; pure (reply_of s)
dispatch owner env (inspect_request task_id token) = do
  s ← inspect task_id token owner env
  pure (snapped s)
dispatch owner env (renew_request task_id token) = do
  s ← renew task_id token owner env
  pure (snapped s)
dispatch owner env (complete_request task_id token manifest) = do
  r ← complete task_id token manifest owner env
  pure (settled r)

unfoldable pub operate : Value → Owner → Env → Action Reply
unfolding validate request dispatch
operate value owner env = do
  validate owner
  fields ← lift (request value)
  dispatch owner env fields
