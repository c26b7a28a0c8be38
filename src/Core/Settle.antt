-- ===== src/Core/Settle.antt =====
-- `set_status`, `defer`, `park`, `unpark` and `reap` of core.py.
use laneq.Common.{
  ℕ, ◌+◌, List, [], ◌∷◌, ◌++◌, Bool, true, false, not, ◌&&◌, Option, none, some, ok, err, Result,
  queue_error, not_found, ltb, ◌==◌, if◌then◌else◌,
}
use laneq.Common.Lists.{mem}
use laneq.Text.{Text}
use laneq.Clock.{Env, utc_now, Duration, absent, seconds, text, end_after, parse_time}
use laneq.Action.{
  Action, gets, lift, open_connection, or_rollback, pure, raise_if, update_where, ◌>>=◌, ◌>>◌,
}
use laneq.Database.{Status, pending, taken, deferred, done, parked, status_eq, Directive}
use laneq.Leases.{keep_if_hold, reclaim_expired_leases, reclaim_deferred, reap_stale}
use laneq.Dependencies.{parse_dependency_ids}
use laneq.Core.Guard.{
  claim_guard, admits, is_some, unless_none, require_ordinary_directive, parent_exists,
}

-- The SET clauses of `set_status`; `at` is the time that the call writes.
abbrev pub with_status : Status → Text → Directive → Directive
with_status pending at r = record r {
  status = pending;
  taken_at = none;
  taken_by = none;
  claim_token = none;
  lease_until = none;
  not_before = none;
  blocked_by = none;
  requeue_count = r.requeue_count + 1;
}
with_status done at r = record r {
  status = done;
  done_at = some at;
  taken_by = none;
  claim_token = none;
  lease_until = none;
}
with_status status at r = record r {
  status = status;
  taken_at = some at;
  taken_by = none;
  claim_token = none;
  lease_until = none;
}

unfoldable pub set_status : ℕ → Status → Option Text → Bool → Env → Action (ℕ × Status)
unfolding claim_guard
set_status item_id status claim_token force env = do
  guard ← lift (claim_guard claim_token force)
  open_connection
  require_ordinary_directive item_id
  reclaim_expired_leases env 0
  reclaim_deferred env 1
  rowcount ←
      update_where (λ r. r.id == item_id && admits guard (utc_now env 3) r)
        (with_status status (utc_now env 2))
  unless_none rowcount item_id (item_id, status)

-- `sorted(set(ids))`
abbrev pub insert_id : ℕ → List ℕ → List ℕ
insert_id n [] = n ∷ []
insert_id n (m ∷ ms) = if n == m then m ∷ ms else if ltb n m then n ∷ m ∷ ms else m ∷ insert_id n ms

unfoldable pub sorted_ids : List ℕ → List ℕ
sorted_ids [] = []
sorted_ids (n ∷ ns) = insert_id n (sorted_ids ns)

-- The ids of all `--blocked-by` values.
unfoldable pub dependency_ids : List Text → Result (List ℕ)
dependency_ids [] = ok []
dependency_ids (value ∷ values) = elim (parse_dependency_ids value) [
  | err e ↦ err e
  | ok ns ↦ elim (dependency_ids values) [ err e ↦ err e | ok ms ↦ ok (ns ++ ms) ]
]

-- What Python takes for true.
abbrev pub is_given : Option Text → Bool
is_given none = false
is_given (some []) = false
is_given (some (c ∷ cs)) = true

abbrev pub is_delay : Duration → Bool
is_delay absent = false
is_delay (seconds n) = not (n == 0)
is_delay (text []) = false
is_delay (text (c ∷ cs)) = true

-- `not_before` from `until` or `delay`.
unfoldable pub not_before_of : Env → Option Text → Duration → Result (Option Text)
unfolding parse_time end_after
not_before_of env until delay =
    if is_given until && is_delay delay
    then err queue_error
    else if is_given until
    then elim (parse_time until) [ none ↦ err queue_error | some at ↦ ok until ]
    else if is_delay delay
    then elim (end_after env 0 delay) [ err e ↦ err e | ok at ↦ ok (some at) ]
    else ok none

abbrev pub no_ids : List ℕ → Bool
no_ids [] = true
no_ids (n ∷ ns) = false

abbrev pub blocked_column : List ℕ → Option (List ℕ)
blocked_column [] = none
blocked_column (n ∷ ns) = some (n ∷ ns)

abbrev pub all_exist : List Directive → List ℕ → Bool
all_exist rows [] = true
all_exist rows (n ∷ ns) = parent_exists rows (some n) && all_exist rows ns

-- The SET clause of `defer`.
abbrev pub with_deferral : Option Text → Option (List ℕ) → Directive → Directive
with_deferral not_before blocked_by r = record r {
  status = deferred;
  taken_at = none;
  taken_by = none;
  claim_token = none;
  lease_until = none;
  not_before = not_before;
  blocked_by = blocked_by;
}

-- What `defer` returns.
pub record Deferred : Type 0 where
  pub id : ℕ
  pub status : Status
  pub not_before : Option Text
  pub blocked_by : Option (List ℕ)

unfoldable pub defer_row : ℕ → Option Text → List ℕ → (Text → Directive → Bool) → Env → Action ℕ
defer_row item_id not_before dep_ids guard env = do
  reclaim_expired_leases env 1
  raise_if (not (← gets (λ db. all_exist db.directives dep_ids))) not_found
  update_where (λ r. r.id == item_id && guard (utc_now env 2) r)
      (with_deferral not_before (blocked_column dep_ids))

unfoldable pub defer :
    ℕ → Option Text → Duration → List Text → Option Text → Bool → Env → Action Deferred
unfolding claim_guard not_before_of dependency_ids sorted_ids defer_row
defer item_id until delay blocked_by claim_token force env = do
  guard ← lift (claim_guard claim_token force)
  not_before ← lift (not_before_of env until delay)
  found ← lift (dependency_ids blocked_by)
  let dep_ids = sorted_ids found
  raise_if (not (is_given not_before) && no_ids dep_ids) queue_error
  raise_if (mem item_id dep_ids) queue_error
  open_connection
  require_ordinary_directive item_id
  rowcount ←
      or_rollback (is_some claim_token) (defer_row item_id not_before dep_ids (admits guard) env)
  unless_none rowcount item_id (record {
    id = item_id;
    status = deferred;
    not_before = not_before;
    blocked_by = blocked_column dep_ids;
  })

-- The SET clause of `park`: a protected directive keeps its token.
abbrev pub with_parking : Directive → Directive
with_parking r = record r {
  status = parked;
  claim_token = keep_if_hold r.recovery_policy r.claim_token;
}

unfoldable pub park : ℕ → Option Text → Bool → Env → Action (ℕ × Status)
unfolding claim_guard
park item_id claim_token force env = do
  guard ← lift (claim_guard claim_token force)
  open_connection
  rowcount ←
      update_where
        (λ r. r.id == item_id && status_eq r.status taken && admits guard (utc_now env 0) r)
        with_parking
  unless_none rowcount item_id (item_id, parked)

-- The SET clause of `unpark`.
abbrev pub with_unparking : Directive → Directive
with_unparking r = record r {
  status = pending;
  taken_at = none;
  taken_by = none;
  claim_token = none;
  lease_until = none;
}

unfoldable pub unpark : ℕ → Action (ℕ × Status)
unpark item_id = do
  open_connection
  require_ordinary_directive item_id
  rowcount ← update_where (λ r. r.id == item_id && status_eq r.status parked) with_unparking
  unless_none rowcount item_id (item_id, pending)

-- The mode is `true` for "expired-leases" and `false` for "stale".
unfoldable pub reap : Bool → ℕ → Env → Action (Bool × ℕ)
reap true stale_seconds env = do
  open_connection
  count ← reclaim_expired_leases env 0
  pure (true, count)
reap false stale_seconds env = do count ← reap_stale env 0 stale_seconds; pure (false, count)
