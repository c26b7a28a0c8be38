-- ===== src/Leases.antt =====
-- The helpers of cli.py that return directives to the queue: `release_or_hold`,
-- `reclaim_expired_leases`, `reclaim_deferred`, `reap_stale` and what they call.
pub mod Bulk
pub mod Counts
use laneq.Common.{
  ℕ, suc, ◌+◌, Bool, true, false, ◌&&◌, List, [], ◌∷◌, Option, none, some, ok, leb, ltb, ◌==◌,
  if◌then◌else◌,
}
use laneq.Text.{Text, text_leb}
use laneq.Clock.{Env, utc_now, parse_time}
use laneq.Sql.{select, first, update, count, order_by}
use laneq.Action.{Action, ◌>>=◌}
use laneq.Database.{
  Status, pending, taken, deferred, parked, status_eq, is_terminal, Policy, requeue, hold,
  Directive, Db, find, connect,
}

-- ORDER BY priority ASC, id ASC
abbrev pub queue_before : Directive → Directive → Bool
queue_before a b = if a.priority == b.priority then leb a.id b.id else ltb a.priority b.priority

-- `lease_until <= now`, which is not true of NULL.
abbrev pub passed : Option Text → Text → Bool
passed none now = false
passed (some at) now = text_leb at now

abbrev pub keep_if_hold {ℓ} : {A : Type ℓ} → Policy → Option A → Option A
keep_if_hold hold o = o
keep_if_hold requeue o = none

-- The SET clause of `release_or_hold`.
abbrev pub release : Directive → Directive
release r = record r {
  status = elim r.recovery_policy [ hold ↦ parked | requeue ↦ pending ];
  taken_at = keep_if_hold r.recovery_policy r.taken_at;
  taken_by = keep_if_hold r.recovery_policy r.taken_by;
  claim_token = keep_if_hold r.recovery_policy r.claim_token;
  lease_until = keep_if_hold r.recovery_policy r.lease_until;
  requeue_count = r.requeue_count + elim r.recovery_policy [ hold ↦ 0 | requeue ↦ 1 ];
}

-- The guard that `expiry` adds to the WHERE clause.
abbrev pub release_guard : Option Text → Directive → Bool
release_guard none r = true
release_guard (some expiry) r = passed r.lease_until expiry

abbrev pub releases : ℕ → Option Text → Directive → Bool
releases item_id expiry r = r.id == item_id && status_eq r.status taken && release_guard expiry r

-- The rows after the UPDATE, and whether it changed one row.
unfoldable pub release_or_hold : ℕ → Option Text → List Directive → List Directive × Bool
release_or_hold item_id expiry rows =
    (update (releases item_id expiry) release rows, count (releases item_id expiry) rows == 1)

-- The WHERE clause by which `reclaim_expired_leases` chooses.
abbrev pub is_expired : Text → Directive → Bool
is_expired now r = status_eq r.status taken && passed r.lease_until now

-- Its loop over the chosen rows, with the number that it reclaimed.
unfoldable pub reclaim_each : Text → List Directive → List Directive → List Directive × ℕ
unfolding release_or_hold
reclaim_each now [] rows = (rows, 0)
reclaim_each now (r ∷ chosen) rows =
    let (rows', changed) = release_or_hold r.id (some now) rows in
    let (rows'', n) = reclaim_each now chosen rows' in (rows'', if changed then suc n else n)

unfoldable pub reclaim_expired_leases : Env → ℕ → Action ℕ
unfolding reclaim_each order_by
reclaim_expired_leases env i db =
    let now = utc_now env i in
    let chosen = order_by queue_before (select (is_expired now) db.directives) in
    let (rows, n) = reclaim_each now chosen db.directives in (ok n, record db { directives = rows })

-- The loop of `dependencies_satisfied` over the ids that `parse_dependency_ids` reads.
unfoldable pub all_terminal : List Directive → List ℕ → Bool
all_terminal rows [] = true
all_terminal rows (dep_id ∷ ids) = elim (find dep_id rows) [
  | none ↦ false
  | some r ↦ is_terminal r.status && all_terminal rows ids
]

unfoldable pub dependencies_satisfied : List Directive → Option (List ℕ) → Bool
unfolding all_terminal
dependencies_satisfied rows none = true
dependencies_satisfied rows (some ids) = all_terminal rows ids

-- `not_before <= now`, as texts.
abbrev pub time_ready : Option Text → Text → Bool
time_ready none now = true
time_ready (some at) now = text_leb at now

abbrev pub is_ready : Text → List Directive → Directive → Bool
is_ready now rows r = time_ready r.not_before now && dependencies_satisfied rows r.blocked_by

-- The SET clause of `reclaim_deferred`.
abbrev pub promote : Directive → Directive
promote r = record r {
  status = pending;
  taken_at = none;
  taken_by = none;
  claim_token = none;
  lease_until = none;
  not_before = none;
  blocked_by = none;
}

abbrev pub promotes : ℕ → Directive → Bool
promotes item_id r = r.id == item_id && status_eq r.status deferred

unfoldable pub promote_each : List Directive → List Directive → List Directive
promote_each [] rows = rows
promote_each (r ∷ ready) rows = promote_each ready (update (promotes r.id) promote rows)

-- The statuses and the dependencies are those before any promotion.
unfoldable pub reclaim_deferred : Env → ℕ → Action Unit
unfolding promote_each dependencies_satisfied order_by
reclaim_deferred env i db =
    let now = utc_now env i in
    let rows = order_by queue_before (select (λ r. status_eq r.status deferred) db.directives) in
    let ready = select (is_ready now db.directives) rows in
    (ok tt, record db { directives = promote_each ready db.directives })

-- A taken row whose `taken_at` is unreadable, or at least `stale_seconds` ago.
abbrev pub is_stale : ℕ → ℕ → Directive → Bool
is_stale now stale_seconds r = elim (parse_time r.taken_at) [
  | none ↦ true
  | some at ↦ leb (at + stale_seconds) now
]

unfoldable pub release_each : List Directive → List Directive → List Directive
unfolding release_or_hold
release_each [] rows = rows
release_each (r ∷ stale) rows = release_each stale (release_or_hold r.id none rows).0

abbrev pub length_of : List Directive → ℕ
length_of = count (λ r. true)

unfoldable pub reap_stale : Env → ℕ → ℕ → Action ℕ
unfolding release_each order_by connect parse_time
reap_stale env i stale_seconds db =
    let db = connect db in
    let rows = order_by queue_before (select (λ r. status_eq r.status taken) db.directives) in
    let expired = select (is_stale (env.clock i) stale_seconds) rows in
    (ok (length_of expired), record db { directives = release_each expired db.directives })
