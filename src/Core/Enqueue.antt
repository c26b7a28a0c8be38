-- ===== src/Core/Enqueue.antt =====
-- `push` and `reprioritize` of core.py.
use laneq.Common.{
  ℕ, [], ◌∷◌, Bool, true, false, not, Option, none, some, queue_error, not_found, ◌==◌,
}
use laneq.Text.{Text, strip, first_line}
use laneq.Clock.{Env, utc_now}
use laneq.Action.{
  Action, gets, insert_directive, lift, open_connection, pure, raise_if, update_where, ◌>>=◌, ◌>>◌,
}
use laneq.Database.{Status, pending, Directive, Policy, connect}
use laneq.Leases.{reclaim_expired_leases}
use laneq.Core.Guard.{priority_value, policy_of, parent_exists}

abbrev pub is_empty : Text → Bool
is_empty [] = true
is_empty (c ∷ cs) = false

-- What `push` returns.
pub record Pushed : Type 0 where
  pub id : ℕ
  pub priority : Text
  pub lane : Text
  pub parent : Option ℕ
  pub status : Status
  pub summary : Text

abbrev pub new_directive : ℕ → Text → Option Text → Option ℕ → Text → Policy → ℕ → Directive
new_directive priority body created_at parent lane policy i = record {
  id = i;
  priority = priority;
  body = body;
  status = pending;
  created_at = created_at;
  taken_at = none;
  done_at = none;
  taken_by = none;
  claim_token = none;
  lease_until = none;
  requeue_count = 0;
  parent_id = parent;
  lane = lane;
  not_before = none;
  blocked_by = none;
  recovery_policy = policy;
}

-- The check of the parent, and the INSERT.
unfoldable pub insert_child : Option ℕ → (ℕ → Directive) → Action ℕ
insert_child parent make = do
  raise_if (not (← gets (λ db. parent_exists db.directives parent))) not_found
  insert_directive make

unfoldable pub push : Text → Text → Option ℕ → Text → Text → Env → Action Pushed
unfolding connect strip priority_value policy_of insert_child
push body priority parent lane recovery_policy env = do
  raise_if (is_empty (strip body)) queue_error
  value ← lift (priority_value priority)
  policy ← lift (policy_of recovery_policy)
  open_connection
  reclaim_expired_leases env 0
  i ← insert_child parent (new_directive value body (some (utc_now env 1)) parent lane policy)
  pure (record {
    id = i;
    priority = priority;
    lane = lane;
    parent = parent;
    status = pending;
    summary = first_line body;
  })

unfoldable pub reprioritize : ℕ → Text → Action (ℕ × Text)
unfolding connect priority_value
reprioritize item_id priority = do
  value ← lift (priority_value priority)
  open_connection
  rowcount ← update_where (λ r. r.id == item_id) (λ r. record r { priority = value })
  raise_if (rowcount == 0) not_found
  pure (item_id, priority)
