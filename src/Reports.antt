-- ===== src/Reports.antt =====
-- The operations of core.py that report on the queue: `show`, `listing`, `stats` and
-- `thread_status`.
pub mod Refresh
pub mod Named
pub mod Counts
pub mod Progress
pub mod Listed
pub mod Stats
pub mod Tally
use laneq.Common.{
  ℕ, suc, List, [], ◌∷◌, Bool, true, false, not, ◌&&◌, ◌||◌, Option, none, some, Result, ok, err,
  not_found, ◌==◌, ltb, if◌then◌else◌,
}
use laneq.Common.Lists.{length}
use laneq.Text.{Text, codes, text_eq, text_leb, first_line}
use laneq.Clock.{Env}
use laneq.Sql.{select, order_by}
use laneq.Action.{Action, gets, lift, open_connection, pure, ◌>>=◌, ◌>>◌}
use laneq.Database.{
  Status, pending, taken, deferred, done, dropped, parked, status_eq, is_terminal, Policy,
  Directive, Db, find, default_lane,
}
use laneq.Leases.{queue_before, reclaim_expired_leases, reclaim_deferred}
use laneq.Core.Guard.{priority_name}
use laneq.Threads.{ancestors, descendants, thread_rows}

-- What each of the reports does first.
unfoldable pub refresh : Env → Action Unit
refresh env = do open_connection; reclaim_expired_leases env 0; reclaim_deferred env 1; pure tt

-- A row of a thread, as `_thread_payload`, `listing` and `thread_status` return it.
pub record ThreadItem : Type 0 where
  pub id : ℕ
  pub priority : Text
  pub status : Status
  pub parent : Option ℕ
  pub summary : Text

abbrev pub thread_item_of : Directive → Text → ThreadItem
thread_item_of r priority = record {
  id = r.id;
  priority = priority;
  status = r.status;
  parent = r.parent_id;
  summary = first_line r.body;
}

-- PRIORITY_NAMES has no other number: the `KeyError` is raised.
unfoldable pub thread_item : Directive → Result ThreadItem
unfolding priority_name
thread_item r = elim (priority_name r.priority) [
  | err e ↦ err e
  | ok name ↦ ok (thread_item_of r name)
]

abbrev pub cons_ok {κ} : {B : Type κ} → Result B → Result (List B) → Result (List B)
cons_ok (err e) ys = err e
cons_ok (ok y) (err e) = err e
cons_ok (ok y) (ok ys) = ok (y ∷ ys)

-- A list comprehension whose element may raise.
abbrev pub for_each {ℓ κ} : {A : Type ℓ} {B : Type κ} → (A → Result B) → List A → Result (List B)
for_each f [] = ok []
for_each f (x ∷ xs) = cons_ok (f x) (for_each f xs)

unfoldable pub thread_payload : Db → ℕ → Result (List ThreadItem)
unfolding thread_item
thread_payload db item_id = for_each thread_item (thread_rows db item_id)

-- What `show` returns.
pub record Shown : Type 0 where
  pub id : ℕ
  pub priority : Text
  pub status : Status
  pub lane : Text
  pub parent : Option ℕ
  pub taken_by : Option Text
  pub lease_until : Option Text
  pub requeue_count : ℕ
  pub created_at : Option Text
  pub taken_at : Option Text
  pub done_at : Option Text
  pub not_before : Option Text
  pub blocked_by : Option (List ℕ)
  pub recovery_policy : Policy
  pub body : Text
  pub thread : List ThreadItem

abbrev pub is_empty {ℓ} : {A : Type ℓ} → List A → Bool
is_empty [] = true
is_empty (x ∷ xs) = false

-- `row[11] or DEFAULT_LANE`
abbrev pub or_default : Text → Text
or_default [] = default_lane
or_default (c ∷ cs) = c ∷ cs

abbrev pub has_thread : Db → ℕ → Bool
has_thread db item_id =
    not (is_empty (ancestors db.directives item_id)) || not (is_empty (descendants db item_id))

abbrev pub shown : Directive → Text → List ThreadItem → Shown
shown r priority thread = record {
  id = r.id;
  priority = priority;
  status = r.status;
  lane = or_default r.lane;
  parent = r.parent_id;
  taken_by = r.taken_by;
  lease_until = r.lease_until;
  requeue_count = r.requeue_count;
  created_at = r.created_at;
  taken_at = r.taken_at;
  done_at = r.done_at;
  not_before = r.not_before;
  blocked_by = r.blocked_by;
  recovery_policy = r.recovery_policy;
  body = r.body;
  thread = thread;
}

abbrev pub thread_of : Db → ℕ → Result (List ThreadItem)
thread_of db item_id = elim (has_thread db item_id) [
  | true ↦ thread_payload db item_id
  | false ↦ ok []
]

unfoldable pub show_row : Db → ℕ → Option Directive → Result Shown
unfolding priority_name thread_payload
show_row db item_id none = err not_found
show_row db item_id (some r) = elim (priority_name r.priority) [
  | err e ↦ err e
  | ok name ↦ elim (thread_of db item_id) [ err e ↦ err e | ok thread ↦ ok (shown r name thread) ]
]

unfoldable pub show : ℕ → Env → Action Shown
unfolding refresh show_row
show item_id env = do
  refresh env
  result ← gets (λ db. show_row db item_id (find item_id db.directives))
  lift result

-- A row of `listing` without a thread.
pub record Item : Type 0 where
  pub id : ℕ
  pub priority : Text
  pub status : Status
  pub parent : Option ℕ
  pub taken_by : Option Text
  pub lease_until : Option Text
  pub requeue_count : ℕ
  pub lane : Text
  pub not_before : Option Text
  pub blocked_by : Option (List ℕ)
  pub recovery_policy : Policy
  pub summary : Text

abbrev pub item_of : Directive → Text → Item
item_of r priority = record {
  id = r.id;
  priority = priority;
  status = r.status;
  parent = r.parent_id;
  taken_by = r.taken_by;
  lease_until = r.lease_until;
  requeue_count = r.requeue_count;
  lane = r.lane;
  not_before = r.not_before;
  blocked_by = r.blocked_by;
  recovery_policy = r.recovery_policy;
  summary = first_line r.body;
}

unfoldable pub item : Directive → Result Item
unfolding priority_name
item r = elim (priority_name r.priority) [ err e ↦ err e | ok name ↦ ok (item_of r name) ]

abbrev pub in_lane : Option Text → Text → Bool
in_lane none lane = true
in_lane (some wanted) lane = text_eq lane wanted

-- The WHERE clause that `listing` puts together.
abbrev pub is_listed : Bool → Option Text → Directive → Bool
is_listed all_statuses lane r = (all_statuses || status_eq r.status pending) && in_lane lane r.lane

unfoldable pub listed_rows : Bool → Option Text → List Directive → List Directive
unfolding order_by
listed_rows all_statuses lane rows =
    order_by queue_before (select (is_listed all_statuses lane) rows)

pub data Listing : Type 0 where
  of_thread : List ThreadItem → Listing
  of_queue : List Item → Listing

abbrev pub as_thread : Result (List ThreadItem) → Result Listing
as_thread (ok items) = ok (of_thread items)
as_thread (err e) = err e

abbrev pub as_queue : Result (List Item) → Result Listing
as_queue (ok items) = ok (of_queue items)
as_queue (err e) = err e

unfoldable pub list_rows : Bool → Option Text → Option ℕ → Db → Result Listing
unfolding thread_payload item listed_rows
list_rows all_statuses lane (some thread) db = as_thread (thread_payload db thread)
list_rows all_statuses lane none db =
    as_queue (for_each item (listed_rows all_statuses lane db.directives))

unfoldable pub listing : Bool → Option Text → Option ℕ → Env → Action Listing
unfolding refresh list_rows
listing all_statuses lane thread env = do
  refresh env
  result ← gets (list_rows all_statuses lane thread)
  lift result

-- What `thread_status` returns.
pub record ThreadStatus : Type 0 where
  pub root : ℕ
  pub status : Text
  pub total : ℕ
  pub open_count : ℕ
  pub open_items : List ThreadItem

abbrev pub is_open : Directive → Bool
is_open r = not (is_terminal r.status)

abbrev pub summary_of : Directive → List Directive → List ThreadItem → ThreadStatus
summary_of r rs items =
    let open_rows = select is_open (r ∷ rs) in
    record {
      root = r.id;
      status = if is_empty open_rows then codes "done" else codes "open";
      total = length (r ∷ rs);
      open_count = length open_rows;
      open_items = items;
    }

abbrev pub summary_from :
    Directive → List Directive → Result (List ThreadItem) → Result ThreadStatus
summary_from r rs (err e) = err e
summary_from r rs (ok items) = ok (summary_of r rs items)

unfoldable pub summarise : List Directive → Result ThreadStatus
unfolding thread_item
summarise [] = err not_found
summarise (r ∷ rs) = summary_from r rs (for_each thread_item (select is_open (r ∷ rs)))

unfoldable pub thread_status : ℕ → Env → Action ThreadStatus
unfolding refresh summarise
thread_status item_id env = do
  refresh env
  result ← gets (λ db. summarise (thread_rows db item_id))
  lift result
