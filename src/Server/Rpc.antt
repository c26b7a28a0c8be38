-- ===== src/Server/Rpc.antt =====
-- The handlers of LaneqServicer, one for each call, as the body of its `try`. Each call of core.py
-- has surroundings of its own. `CompleteHandoff` and `GetHandoffReceipt` are not here.
use laneq.Common.{
  ℕ, zero, suc, ◌/◌, List, [], ◌∷◌, ◌++◌, Bool, true, false, Option, none, some, Result, ok, err,
  queue_error, ◌==◌, if◌then◌else◌, map,
}
use laneq.Text.{Text, codes, text_eq}
use laneq.Clock.{Env, Duration, absent, seconds}
use laneq.Action.{Action, lift, pure, ◌>>=◌}
use laneq.Core.Enqueue.{push, reprioritize}
use laneq.Core.Claim.{Claimed, take, Peeked, peek, touch}
use laneq.Core.Settle.{set_status, defer, park, unpark, reap}
use laneq.Stage.{admit}
use laneq.Ints.{ℤ, pos, negsuc, int_of, str_of}
use laneq.Reports.{show, Listing, of_thread, of_queue, listing, ThreadItem, thread_status}
use laneq.Reports.Stats.{status_name, StatusCount, stats}
use laneq.Server.{
  priority_from_proto, status_to_proto, status_from_proto, of_shown, of_listed, of_threaded,
  Message, dict_to_directive, unix_of,
}

-- `int(request.id)`; no row has a negative id, and none has 0.
abbrev pub natural : ℤ → ℕ
natural (pos n) = n
natural (negsuc n) = 0

abbrev pub as_id : Result ℤ → Result ℕ
as_id (err e) = err e
as_id (ok n) = ok (natural n)

unfoldable pub id_of : Text → Result ℕ
unfolding int_of
id_of t = as_id (int_of t)

abbrev pub optional_id : Text → Result (Option ℕ)
optional_id [] = ok none
optional_id (c ∷ cs) = elim (id_of (c ∷ cs)) [ err e ↦ err e | ok n ↦ ok (some n) ]

-- `text or default`, and `text or None`.
abbrev pub or_else_text : Text → Text → Text
or_else_text default [] = default
or_else_text default (c ∷ cs) = c ∷ cs

abbrev pub text_or_none : Text → Option Text
text_or_none [] = none
text_or_none (c ∷ cs) = some (c ∷ cs)

-- `max(1, ms // 1000) if ms else 1800`
abbrev pub at_least_1 : ℕ → ℕ
at_least_1 n = if n == 0 then 1 else n

abbrev pub lease_seconds : ℤ → ℕ
lease_seconds (pos zero) = 1800
lease_seconds (pos (suc ms)) = at_least_1 (suc ms / 1000)
lease_seconds (negsuc ms) = 1

-- `n if n > 0 else None`
abbrev pub positive : ℤ → Option ℕ
positive (pos zero) = none
positive (pos (suc n)) = some (suc n)
positive (negsuc n) = none

abbrev pub policy_text : Bool → Text
policy_text true = codes "hold"
policy_text false = codes "requeue"

pub record PushRequest : Type 0 where
  pub body : Text
  pub priority : ℕ
  pub parent_id : Text
  pub lane : Text

pub record PushResponse : Type 0 where
  pub id : Text
  pub priority : ℕ
  pub lane : Text
  pub parent_id : Text
  pub status : ℕ
  pub summary : Text

-- `str(parent) if parent else ""`
abbrev pub parent_or_empty : Option ℕ → Text
parent_or_empty none = []
parent_or_empty (some n) = if n == 0 then [] else str_of n

unfoldable pub handle_push : PushRequest → Env → Action PushResponse
unfolding priority_from_proto status_to_proto
handle_push request env = do
  parent ← lift (optional_id request.parent_id)
  result ←
      push request.body (priority_from_proto request.priority) parent
        (or_else_text (codes "default") request.lane) (codes "requeue") env
  pure (record {
    id = str_of result.id;
    priority = if request.priority == 0 then 2 else request.priority;
    lane = result.lane;
    parent_id = parent_or_empty result.parent;
    status = status_to_proto (status_name result.status);
    summary = result.summary;
  })

pub record TakeRequest : Type 0 where
  pub consumer : Text
  pub lane : Text
  pub lease_duration_ms : ℤ
  pub reap_stale_seconds : ℤ
  pub recovery_hold : Bool

pub record TakeResponse : Type 0 where
  pub consumer : Text
  pub lane : Text
  pub claim_token : Text
  pub input_digest : Text
  pub directive : Option Message

abbrev pub digest_of : Option (Text × Text) → Text
digest_of none = []
digest_of (some (lease, digest)) = digest

-- The record of the claimed directive is read by a call of `show`.
unfoldable pub taken_response : Text → Text → Option Claimed → Env → Action TakeResponse
unfolding dict_to_directive
taken_response consumer lane none later = pure (record {
  consumer = consumer;
  lane = lane;
  claim_token = [];
  input_digest = [];
  directive = none;
})
taken_response consumer lane (some result) later = do
  full_record ← show result.id later
  pure (record {
    consumer = consumer;
    lane = lane;
    claim_token = result.claim_token;
    input_digest = digest_of result.protected;
    directive = some (record (dict_to_directive (of_shown full_record)) { taken_by = consumer });
  })

unfoldable pub handle_take : TakeRequest → Env → Env → Action TakeResponse
unfolding taken_response
handle_take request env later = do
  result ←
      take (or_else_text (codes "-") request.consumer)
        (seconds (lease_seconds request.lease_duration_ms))
        (or_else_text (codes "default") request.lane) (policy_text request.recovery_hold)
        (positive request.reap_stale_seconds) env
  taken_response (or_else_text (codes "-") request.consumer)
      (or_else_text (codes "default") request.lane) result later

pub record PeekRequest : Type 0 where
  pub lane : Text
  pub recovery_hold : Bool

unfoldable pub peeked_response : Option Peeked → Env → Action (Option Message)
unfolding dict_to_directive
peeked_response none later = pure none
peeked_response (some result) later = do
  full_record ← show result.id later
  pure (some (dict_to_directive (of_shown full_record)))

unfoldable pub handle_peek : PeekRequest → Env → Env → Action (Option Message)
unfolding peeked_response
handle_peek request env later = do
  result ←
      peek (or_else_text (codes "default") request.lane) (policy_text request.recovery_hold) env
  peeked_response result later

pub record AdmitStageRequest : Type 0 where
  pub admission_key : Text
  pub body : Text
  pub priority : ℕ
  pub lane : Text

-- `priorities`
abbrev pub stage_priority_of : ℕ → Result Text
stage_priority_of n =
    if n == 0
    then ok (codes "P1")
    else if n == 1
    then ok (codes "P0")
    else if n == 2
    then ok (codes "P1")
    else if n == 3
    then ok (codes "P2")
    else err queue_error

unfoldable pub handle_admit_stage : AdmitStageRequest → Env → Env → Action Message
unfolding dict_to_directive
handle_admit_stage request env later = do
  priority ← lift (stage_priority_of request.priority)
  result ← admit request.admission_key request.body priority request.lane env
  full_record ← show result.id later
  pure (dict_to_directive (of_shown full_record))

-- The message ThreadItem, without its time, which is 0.
pub record ThreadMessage : Type 0 where
  pub id : Text
  pub status : ℕ

abbrev pub thread_message : ThreadItem → ThreadMessage
thread_message d = record { id = str_of d.id; status = status_to_proto (status_name d.status) }

pub record ShowResponse : Type 0 where
  pub directive : Message
  pub thread : List ThreadMessage

unfoldable pub handle_show : Text → Env → Action ShowResponse
unfolding id_of dict_to_directive
handle_show id env = do
  item_id ← lift (id_of id)
  result ← show item_id env
  pure (record {
    directive = dict_to_directive (of_shown result);
    thread = map thread_message result.thread;
  })

pub record ListingRequest : Type 0 where
  pub all_statuses : Bool
  pub lane : Text
  pub thread : Text

abbrev pub messages : Listing → List Message
messages (of_thread items) = map (λ d. dict_to_directive (of_threaded d)) items
messages (of_queue items) = map (λ d. dict_to_directive (of_listed d)) items

unfoldable pub handle_listing : ListingRequest → Env → Action (List Message)
unfolding id_of dict_to_directive
handle_listing request env = do
  thread ← lift (optional_id request.thread)
  results ← listing request.all_statuses (text_or_none request.lane) thread env
  pure (messages results)

unfoldable pub handle_reprioritize : Text → ℕ → Action (Text × ℕ)
unfolding id_of priority_from_proto
handle_reprioritize id priority = do
  item_id ← lift (id_of id)
  result ← reprioritize item_id (priority_from_proto priority)
  pure (str_of result.0, priority)

pub record SetStatusRequest : Type 0 where
  pub id : Text
  pub status : ℕ
  pub claim_token : Text
  pub force : Bool

unfoldable pub handle_set_status : SetStatusRequest → Env → Action (Text × ℕ)
unfolding id_of status_from_proto
handle_set_status request env = do
  item_id ← lift (id_of request.id)
  result ←
      set_status item_id (status_from_proto request.status) (text_or_none request.claim_token)
        request.force env
  pure (str_of result.0, request.status)

pub record DeferRequest : Type 0 where
  pub id : Text
  pub until_unix : ℤ
  pub delay_ms : ℤ
  pub blocked_by : List Text
  pub claim_token : Text
  pub force : Bool

pub record DeferResponse : Type 0 where
  pub id : Text
  pub status : ℕ
  pub not_before_unix : Option ℤ
  pub blocked_by : List Text

-- `time.strftime` of `time.gmtime` is the C library's, "" where the time is out of its range.
abbrev pub unix_to_iso_timestamp : (ℤ → Text) → ℤ → Text
unix_to_iso_timestamp gmtime_text (pos zero) = []
unix_to_iso_timestamp gmtime_text (pos (suc n)) = gmtime_text (pos (suc n))
unix_to_iso_timestamp gmtime_text (negsuc n) = gmtime_text (negsuc n)

-- `until`, which is None or a text, and `delay`.
abbrev pub until_of : (ℤ → Text) → ℤ → Option Text
until_of gmtime_text (pos zero) = none
until_of gmtime_text (pos (suc n)) = some (unix_to_iso_timestamp gmtime_text (pos (suc n)))
until_of gmtime_text (negsuc n) = some (unix_to_iso_timestamp gmtime_text (negsuc n))

abbrev pub delay_of : ℤ → Duration
delay_of (pos zero) = absent
delay_of (pos (suc ms)) = seconds (at_least_1 (suc ms / 1000))
delay_of (negsuc ms) = absent

unfoldable pub handle_defer : (ℤ → Text) → DeferRequest → Env → Action DeferResponse
unfolding id_of status_to_proto
handle_defer gmtime_text request env = do
  item_id ← lift (id_of request.id)
  result ←
      defer item_id (until_of gmtime_text request.until_unix) (delay_of request.delay_ms)
        request.blocked_by (text_or_none request.claim_token) request.force env
  pure (record {
    id = str_of result.id;
    status = status_to_proto (status_name result.status);
    not_before_unix = unix_of result.not_before;
    blocked_by = request.blocked_by;
  })

pub record TouchRequest : Type 0 where
  pub id : Text
  pub lease_duration_ms : ℤ
  pub claim_token : Text
  pub force : Bool

unfoldable pub handle_touch : TouchRequest → Env → Action (Text × Option ℤ)
unfolding id_of
handle_touch request env = do
  item_id ← lift (id_of request.id)
  result ←
      touch item_id (seconds (lease_seconds request.lease_duration_ms))
        (text_or_none request.claim_token) request.force env
  pure (str_of result.0, unix_of result.1)

-- The detail is a text with the same number.
pub record ReapResponse : Type 0 where
  pub expired : Bool
  pub reclaimed : ℕ
  pub detail : Text

unfoldable pub handle_reap : Bool → ℕ → Env → Action ReapResponse
handle_reap expired_leases stale_seconds env = do
  result ← reap expired_leases (if stale_seconds == 0 then 21600 else stale_seconds) env
  pure (record {
    expired = result.0;
    reclaimed = result.1;
    detail = codes "Reclaimed " ++ str_of result.1 ++ codes " directives";
  })

-- `response.by_status[key] = count`: a map has a key once, with the last count.
abbrev pub set_count : Text → ℕ → List (Text × ℕ) → List (Text × ℕ)
set_count key n [] = (key, n) ∷ []
set_count key n (e ∷ es) = if text_eq e.0 key then (key, n) ∷ es else e ∷ set_count key n es

abbrev pub set_counts : List StatusCount → List (Text × ℕ) → List (Text × ℕ)
set_counts [] counts = counts
set_counts (c ∷ cs) counts = set_counts cs (set_count (status_name c.status) c.count counts)

pub record ConsumerStats : Type 0 where
  pub consumer : Text
  pub active_leases : ℕ
  pub total_claimed : ℕ

abbrev pub consumer_stats : Text × ℕ → ConsumerStats
consumer_stats item = record { consumer = item.0; active_leases = item.1; total_claimed = item.1 }

pub record StatsResponse : Type 0 where
  pub by_status : List (Text × ℕ)
  pub consumers : List ConsumerStats

unfoldable pub handle_stats : Env → Action StatsResponse
handle_stats env = do
  result ← stats env
  pure (record {
    by_status = set_counts result.by_status [];
    consumers = map consumer_stats result.consumers;
  })

pub record ThreadStatusResponse : Type 0 where
  pub root : Text
  pub status : ℕ
  pub total : ℕ
  pub open_count : ℕ
  pub open_items : List ThreadMessage

unfoldable pub handle_thread_status : Text → Env → Action ThreadStatusResponse
unfolding id_of status_to_proto
handle_thread_status id env = do
  item_id ← lift (id_of id)
  result ← thread_status item_id env
  pure (record {
    root = str_of result.root;
    status = status_to_proto result.status;
    total = result.total;
    open_count = result.open_count;
    open_items = map thread_message result.open_items;
  })

unfoldable pub handle_park : Text → Text → Bool → Env → Action (Text × ℕ)
unfolding id_of status_to_proto
handle_park id claim_token force env = do
  item_id ← lift (id_of id)
  result ← park item_id (text_or_none claim_token) force env
  pure (str_of result.0, status_to_proto (status_name result.1))

unfoldable pub handle_unpark : Text → Action (Text × ℕ)
unfolding id_of status_to_proto
handle_unpark id = do
  item_id ← lift (id_of id)
  result ← unpark item_id
  pure (str_of result.0, status_to_proto (status_name result.1))
