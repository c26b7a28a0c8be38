-- ===== src/Core/Claim.antt =====
-- `take`, `peek` and `touch` of core.py.
use laneq.Common.{ℕ, List, Bool, true, ◌&&◌, Option, none, some, ok, err, Result, ◌==◌}
use laneq.Text.{Text, text_eq}
use laneq.Clock.{Env, utc_now, Duration, end_after}
use laneq.Sql.{select, order_by}
use laneq.Sql.Order.{head}
use laneq.Action.{Action, gets, lift, open_connection, or_rollback, pure, update_where, ◌>>=◌, ◌>>◌}
use laneq.Database.{pending, taken, status_eq, Policy, requeue, hold, policy_eq, Directive, find}
use laneq.Leases.{queue_before, reclaim_expired_leases, reclaim_deferred, reap_stale}
use laneq.Core.Guard.{priority_name, policy_of, claim_guard, admits, is_some, unless_none}

-- What `take` returns; `protected` holds the two entries that a protected directive adds, its
-- lease and its digest.
pub record Claimed : Type 0 where
  pub id : ℕ
  pub body : Text
  pub consumer : Text
  pub lane : Text
  pub claim_token : Text
  pub protected : Option (Text × Text)

-- The WHERE clause of `take` and `peek`.
abbrev pub is_eligible : Text → Policy → Directive → Bool
is_eligible lane policy r =
    status_eq r.status pending && text_eq r.lane lane && policy_eq r.recovery_policy policy

-- ORDER BY priority ASC, id ASC LIMIT 1
unfoldable pub next_row : Text → Policy → List Directive → Option Directive
unfolding order_by
next_row lane policy rows = head (order_by queue_before (select (is_eligible lane policy) rows))

-- The SET clause of `take`.
abbrev pub mark_taken : Text → Text → Text → Text → Directive → Directive
mark_taken taken_at consumer claim_token lease_until r = record r {
  status = taken;
  taken_at = some taken_at;
  taken_by = some consumer;
  claim_token = some claim_token;
  lease_until = some lease_until;
}

unfoldable pub take_row : Env → Text → Duration → Text → Option Directive → Action (Option Claimed)
unfolding end_after
take_row env consumer lease lane none = pure none
take_row env consumer lease lane (some row) = do
  lease_until ← lift (end_after env 3 lease)
  update_where (λ r. r.id == row.id) (mark_taken (utc_now env 4) consumer env.uuid lease_until)
  pure (
      some (record {
        id = row.id;
        body = row.body;
        consumer = consumer;
        lane = lane;
        claim_token = env.uuid;
        protected = elim row.recovery_policy [
          | hold ↦ some (lease_until, env.sha256 row.body)
          | requeue ↦ none
        ];
      }))

-- The transaction of `take`.
unfoldable pub take_next : Env → Text → Duration → Text → Policy → Action (Option Claimed)
unfolding take_row next_row
take_next env consumer lease lane policy = do
  reclaim_expired_leases env 1
  reclaim_deferred env 2
  row ← gets (λ db. next_row lane policy db.directives)
  take_row env consumer lease lane row

unfoldable pub reap_if_asked : Env → Option ℕ → Action ℕ
reap_if_asked env none = pure 0
reap_if_asked env (some stale_seconds) = reap_stale env 0 stale_seconds

unfoldable pub take : Text → Duration → Text → Text → Option ℕ → Env → Action (Option Claimed)
unfolding policy_of reap_if_asked take_next
take consumer lease lane recovery_policy reap_stale_seconds env = do
  policy ← lift (policy_of recovery_policy)
  reap_if_asked env reap_stale_seconds
  open_connection
  or_rollback true (take_next env consumer lease lane policy)

-- What `peek` returns.
pub record Peeked : Type 0 where
  pub id : ℕ
  pub priority : Text
  pub lane : Text
  pub body : Text

unfoldable pub peeked : Option Directive → Result (Option Peeked)
unfolding priority_name
peeked none = ok none
peeked (some row) = elim (priority_name row.priority) [
  | err e ↦ err e
  | ok name ↦ ok (some (record { id = row.id; priority = name; lane = row.lane; body = row.body }))
]

unfoldable pub peek : Text → Text → Env → Action (Option Peeked)
unfolding policy_of next_row peeked
peek lane recovery_policy env = do
  policy ← lift (policy_of recovery_policy)
  open_connection
  reclaim_expired_leases env 0
  reclaim_deferred env 1
  row ← gets (λ db. next_row lane policy db.directives)
  lift (peeked row)

abbrev pub lease_of : Option Directive → Option Text
lease_of none = none
lease_of (some r) = r.lease_until

-- The transaction of `touch`, with the `rowcount` of its UPDATE.
unfoldable pub touch_row : ℕ → Duration → (Text → Directive → Bool) → Env → Action ℕ
unfolding end_after
touch_row item_id lease guard env = do
  reclaim_expired_leases env 0
  reclaim_deferred env 1
  lease_until ← lift (end_after env 2 lease)
  update_where (λ r. r.id == item_id && status_eq r.status taken && guard (utc_now env 3) r)
      (λ r. record r { lease_until = some lease_until })

unfoldable pub touch : ℕ → Duration → Option Text → Bool → Env → Action (ℕ × Option Text)
unfolding claim_guard touch_row
touch item_id lease claim_token force env = do
  guard ← lift (claim_guard claim_token force)
  open_connection
  rowcount ← or_rollback (is_some claim_token) (touch_row item_id lease (admits guard) env)
  unless_none rowcount item_id tt
  lease_until ← gets (λ db. lease_of (find item_id db.directives))
  pure (item_id, lease_until)
