-- ===== src/Tests/Serving.antt =====
-- Calls over gRPC and a claim that is handed on, with instances of the theorems.
use laneq.Common.{◌≡◌, refl, [], ◌∷◌, none, some, true, false, ok, ℕ_discrete}
use laneq.Text.{codes, text_leb, Text-discrete}
use laneq.Clock.{utc_now, strftime, absent, end_after}
use laneq.Action.{◌>>=◌}
use laneq.Database.{done, Directive, find, connect}
use laneq.Leases.{reclaim_expired_leases, reclaim_deferred, queue_before, release}
use laneq.Core.Guard.{require_ordinary_directive, unless_none, policy_of}
use laneq.Core.Claim.{Claimed, take}
use laneq.Core.Settle.{set_status}
use laneq.Core.Sweep.{normal, sweep}
use laneq.Core.Liveness.{IsAbandoned, take_abandoned}
use laneq.Reports.{thread_status}
use laneq.Threads.{thread_rows}
use laneq.Ints.{str_of}
use laneq.Reports.Stats.{status_name, stats}
use laneq.Server.{status_to_proto, handle}
use laneq.Server.Rpc.{handle_set_status, handle_stats, StatsResponse, handle_thread_status}
use laneq.Server.Enums.{request_of, reply_of, handle_set_status-set_status}
use laneq.Tests.Samples.{env_at, queue, queue-IsWell, held}

runs : Unit {0}
unfolding handle handle_set_status handle_stats stats handle_thread_status thread_status thread_rows
    ◌>>=◌ reclaim_expired_leases reclaim_deferred connect utc_now strftime text_leb Text-discrete
    ℕ_discrete policy_of end_after set_status require_ordinary_directive unless_none str_of
runs = tt

-- Two directives are pending, one of P0 and one of P1: the map keeps the count of the latter only.
abbrev counts : StatsResponse
counts = record {
  by_status =
      (codes "pending", 1) ∷ (codes "done", 1) ∷ (codes "parked", 1) ∷ (codes "taken", 1) ∷ [];
  consumers = record { consumer = codes "ann"; active_leases = 1; total_claimed = 1 } ∷ [];
}

stats_overwrites : (handle_stats (env_at 0 []) queue).0 ≡ ok counts
unfolding runs
stats_overwrites = refl

-- The thread of 1 is open, which the enum of statuses does not know.
thread_is_unspecified :
    (let r = handle_thread_status (codes "1") (env_at 0 []) queue in r.0)
    ≡ ok (record {
      root = codes "1";
      status = 0;
      total = 2;
      open_count = 2;
      open_items =
          record { id = codes "1"; status = 1 } ∷ record { id = codes "2"; status = 1 } ∷ [];
    })
unfolding runs
thread_is_unspecified = refl

-- A call that names no status puts the directive back into the queue.
unspecified_requeues :
    (handle_set_status
      (record { id = codes "3"; status = 0; claim_token = codes "t3"; force = false })
      (env_at 0 [])
      queue).0
    ≡ ok (codes "3", 0)
unfolding runs
unspecified_requeues = refl

handle_set_status-set_status_example :
    ((handle true (handle_set_status (request_of 3 done (codes "t3") false) (env_at 0 [])) queue).0
      ≡ reply_of true
          (λ x. (str_of x.0, status_to_proto (status_name done)))
          (set_status 3 done (some (codes "t3")) false (env_at 0 []) queue).0)
    × ((handle true
          (handle_set_status (request_of 3 done (codes "t3") false) (env_at 0 []))
          queue).1
        ≡ (set_status 3 done (some (codes "t3")) false (env_at 0 []) queue).1)
handle_set_status-set_status_example =
    handle_set_status-set_status 3 done (codes "t3") false (env_at 0 []) queue

is_abandoned : IsAbandoned (utc_now (env_at 3600 (codes "z")) 1) held
unfolding runs
is_abandoned = record { held = refl; lapsed = refl; ordinary = refl }

half_hour : end_after (env_at 3600 (codes "z")) 3 absent ≡ ok (codes "2026-06-20T01:30:03Z")
unfolding runs
half_hour = refl

take_abandoned_example :
    (c : Claimed) × (row : Directive) × ((take
        (codes "bob")
        absent
        (normal held).lane
        (codes "requeue")
        none
        (env_at 3600 (codes "z"))
        queue).0
      ≡ ok (some c))
    × (find c.id (sweep (env_at 3600 (codes "z")) 1 2 queue).directives ≡ some row)
    × (queue_before row (release (normal held)) ≡ true)
take_abandoned_example =
    take_abandoned (env_at 3600 (codes "z")) queue held is_abandoned 3 (codes "bob")
      (codes "2026-06-20T01:30:03Z") absent queue-IsWell refl half_hour
