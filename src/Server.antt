-- ===== src/Server.antt =====
-- grpc_server.py: the maps between the proto enums and the texts of core.py, the directive message,
-- and what a handler makes of an exception. A time of a message is in Unix seconds.
pub mod Rpc
pub mod Enums
use laneq.Common.{
  ℕ, suc, ◌-◌, List, [], ◌∷◌, ◌++◌, Bool, true, false, Option, none, some, Result, ok, err, Error,
  queue_error, not_found, precondition, value_error, leb, ◌==◌, if◌then◌else◌, reverse, map,
}
use laneq.Text.{Text, codes, text_eq}
use laneq.Clock.{strptime}
use laneq.Database.{Status, Policy, requeue, hold, policy_eq, Db}
use laneq.Action.{Action}
use laneq.Ints.{ℤ, pos, negsuc, str_of}
use laneq.Reports.{Shown, Item, ThreadItem}
use laneq.Reports.Stats.{status_name}

-- The status codes that the handlers abort with.
pub data StatusCode : Type 0 where
  code_not_found failed_precondition invalid_argument internal : StatusCode

abbrev pub queue_error_code : Error → StatusCode
queue_error_code not_found = code_not_found
queue_error_code precondition = failed_precondition
queue_error_code _ = invalid_argument

unfoldable pub priority_to_proto : Text → ℕ
priority_to_proto name =
    if text_eq name (codes "P0")
    then 1
    else if text_eq name (codes "P1")
    then 2
    else if text_eq name (codes "P2")
    then 3
    else 2

unfoldable pub priority_from_proto : ℕ → Text
priority_from_proto n =
    if n == 1
    then codes "P0"
    else if n == 2
    then codes "P1"
    else if n == 3
    then codes "P2"
    else codes "P1"

unfoldable pub status_to_proto : Text → ℕ
status_to_proto name =
    if text_eq name (codes "pending")
    then 1
    else if text_eq name (codes "taken")
    then 2
    else if text_eq name (codes "deferred")
    then 3
    else if text_eq name (codes "done")
    then 4
    else if text_eq name (codes "dropped")
    then 5
    else if text_eq name (codes "parked")
    then 6
    else 0

-- The text is that of one of the six statuses.
unfoldable pub status_from_proto : ℕ → Status
status_from_proto n =
    if n == 1
    then Status.pending
    else if n == 2
    then Status.taken
    else if n == 3
    then Status.deferred
    else if n == 4
    then Status.done
    else if n == 5
    then Status.dropped
    else if n == 6
    then Status.parked
    else Status.pending

-- 1970-01-01T00:00:00Z
abbrev pub epoch : ℕ
epoch = 62135596800

abbrev pub unix : ℕ → ℤ
unix t = if leb epoch t then pos (t - epoch) else negsuc (epoch - t - 1)

-- `text.rstrip("Z")`
abbrev pub drop_zs : Text → Text
drop_zs [] = []
drop_zs (c ∷ cs) = if c == 90 then drop_zs cs else c ∷ cs

abbrev pub rstrip_z : Text → Text
rstrip_z s = reverse (drop_zs (reverse s))

abbrev pub or_zero : Option ℕ → ℤ
or_zero none = pos 0
or_zero (some t) = unix t

-- `int(self._parse_iso_timestamp(text))`: the format has no "Z", which is put back for `strptime`.
unfoldable pub parse_iso_timestamp : Text → ℤ
unfolding strptime
parse_iso_timestamp [] = pos 0
parse_iso_timestamp (c ∷ cs) = or_zero (strptime (rstrip_z (c ∷ cs) ++ 90 ∷ []))

-- A dict that `_dict_to_directive` reads; what a report does not have is `none`.
pub record Source : Type 0 where
  pub id : ℕ
  pub priority : Text
  pub body : Option Text
  pub status : Status
  pub lane : Option Text
  pub taken_by : Option Text
  pub parent : Option ℕ
  pub requeue_count : ℕ
  pub recovery_policy : Option Policy
  pub created_at : Option Text
  pub taken_at : Option Text
  pub done_at : Option Text
  pub lease_until : Option Text
  pub not_before : Option Text
  pub blocked_by : Option (List ℕ)

abbrev pub of_shown : Shown → Source
of_shown d = record {
  id = d.id;
  priority = d.priority;
  body = some d.body;
  status = d.status;
  lane = some d.lane;
  taken_by = d.taken_by;
  parent = d.parent;
  requeue_count = d.requeue_count;
  recovery_policy = some d.recovery_policy;
  created_at = d.created_at;
  taken_at = d.taken_at;
  done_at = d.done_at;
  lease_until = d.lease_until;
  not_before = d.not_before;
  blocked_by = d.blocked_by;
}

abbrev pub of_listed : Item → Source
of_listed d = record {
  id = d.id;
  priority = d.priority;
  body = none;
  status = d.status;
  lane = some d.lane;
  taken_by = d.taken_by;
  parent = d.parent;
  requeue_count = d.requeue_count;
  recovery_policy = some d.recovery_policy;
  created_at = none;
  taken_at = none;
  done_at = none;
  lease_until = d.lease_until;
  not_before = d.not_before;
  blocked_by = d.blocked_by;
}

abbrev pub of_threaded : ThreadItem → Source
of_threaded d = record {
  id = d.id;
  priority = d.priority;
  body = none;
  status = d.status;
  lane = none;
  taken_by = none;
  parent = d.parent;
  requeue_count = 0;
  recovery_policy = none;
  created_at = none;
  taken_at = none;
  done_at = none;
  lease_until = none;
  not_before = none;
  blocked_by = none;
}

-- The message Directive; `none` is a field that is not set.
pub record Message : Type 0 where
  pub id : Text
  pub priority : ℕ
  pub body : Text
  pub status : ℕ
  pub lane : Text
  pub created_at_unix : ℤ
  pub taken_at_unix : Option ℤ
  pub done_at_unix : Option ℤ
  pub taken_by : Text
  pub lease_until_unix : Option ℤ
  pub requeue_count : ℕ
  pub parent_id : Text
  pub not_before_unix : Option ℤ
  pub blocked_by : List Text
  pub recovery_hold : Option Bool

-- `value or default`
abbrev pub filled : Text → Option Text → Text
filled default none = default
filled default (some []) = default
filled default (some (c ∷ cs)) = c ∷ cs

abbrev pub parent_text : Option ℕ → Text
parent_text none = []
parent_text (some n) = str_of n

abbrev pub held : Option Policy → Option Bool
held none = none
held (some policy) = some (policy_eq policy hold)

-- A time that is there and not empty.
abbrev pub unix_of : Option Text → Option ℤ
unix_of none = none
unix_of (some []) = none
unix_of (some (c ∷ cs)) = some (parse_iso_timestamp (c ∷ cs))

abbrev pub or_epoch : Option ℤ → ℤ
or_epoch none = pos 0
or_epoch (some t) = t

abbrev pub split_column : Option (List ℕ) → List Text
split_column none = []
split_column (some ids) = map str_of ids

unfoldable pub dict_to_directive : Source → Message
unfolding priority_to_proto status_to_proto parse_iso_timestamp str_of
dict_to_directive d = record {
  id = str_of d.id;
  priority = priority_to_proto d.priority;
  body = elim d.body [ none ↦ [] | some body ↦ body ];
  status = status_to_proto (status_name d.status);
  lane = filled (codes "default") d.lane;
  created_at_unix = or_epoch (unix_of d.created_at);
  taken_at_unix = unix_of d.taken_at;
  done_at_unix = unix_of d.done_at;
  taken_by = filled [] d.taken_by;
  lease_until_unix = unix_of d.lease_until;
  requeue_count = d.requeue_count;
  parent_id = parent_text d.parent;
  not_before_unix = unix_of d.not_before;
  blocked_by = split_column d.blocked_by;
  recovery_hold = held d.recovery_policy;
}

-- What a handler's caller gets: a response, a status, or an exception that no `except` has caught.
pub data Reply (A : Type 0) : Type 0 where
  replied : A → Reply A
  aborted : StatusCode → Reply A
  escaped : Error → Reply A

-- The `except` clauses; some handlers catch a ValueError too.
abbrev pub caught : {A : Type 0} → Bool → Result A → Reply A
caught values (ok response) = replied response
caught values (err queue_error) = aborted (queue_error_code queue_error)
caught values (err not_found) = aborted (queue_error_code not_found)
caught values (err precondition) = aborted (queue_error_code precondition)
caught true (err value_error) = aborted invalid_argument
caught values (err e) = escaped e

unfoldable pub handle : {A : Type 0} → Bool → Action A → Db → Reply A × Db
handle values m db = let (r, db') = m db in (caught values r, db')
