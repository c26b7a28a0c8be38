-- ===== src/Tests/Reporting.antt =====
-- Reports on the sample queue, and instances of the theorems on them.
use laneq.Common.{false, ◌≡◌, ◌↔◌, refl, [], ◌∷◌, List, none, some, Option, ok, ℕ_discrete}
use laneq.Text.{codes, Text-discrete, text_leb, first_line}
use laneq.Clock.{utc_now, strftime}
use laneq.Action.{◌>>=◌}
use laneq.Database.{pending, taken, done, parked, requeue, find, connect}
use laneq.Leases.{reclaim_expired_leases, reclaim_deferred}
use laneq.Core.Guard.{policy_of}
use laneq.Core.Claim.{Peeked, peek}
use laneq.Reports.{show, Item, of_queue, listing, ThreadStatus, thread_status}
use laneq.Reports.Stats.{Stats, stats}
use laneq.Reports.Counts.{CountsOf, stats-CountsOf}
use laneq.Reports.Progress.{IsSummary, IsFinished, thread_status_lem}
use laneq.Reports.Listed.{of_peek, of_item, first_with, listing-peek}
use laneq.Threads.{thread_rows}
use laneq.Tests.Samples.{env_at, queue, queue-IsWell, waiting}

-- Everything that a report computes with.
runs : Unit {0}
unfolding show listing stats thread_status thread_rows ◌>>=◌ reclaim_expired_leases reclaim_deferred
    connect utc_now strftime text_leb first_line Text-discrete ℕ_discrete
runs = tt

abbrev status_of_1 : ThreadStatus
status_of_1 = record {
  root = 1;
  status = codes "open";
  total = 2;
  open_count = 2;
  open_items =
      record {
        id = 1;
        priority = codes "P1";
        status = pending;
        parent = none;
        summary = codes "ship it";
      }
      ∷ record {
        id = 2;
        priority = codes "P0";
        status = pending;
        parent = some 1;
        summary = codes "fix it";
      }
      ∷ [];
}

thread_is_open : (thread_status 2 (env_at 0 []) queue).0 ≡ ok status_of_1
unfolding runs
thread_is_open = refl

still_there : find 1 (thread_status 1 (env_at 0 []) queue).1.directives ≡ some waiting
unfolding runs
still_there = refl

thread_status_lem_example :
    (report : ThreadStatus) × ((thread_status 1 (env_at 0 []) queue).0 ≡ ok report)
    × IsSummary (thread_rows (thread_status 1 (env_at 0 []) queue).1 1) report
    × ((report.status ≡ codes "done") ↔ IsFinished (thread_status 1 (env_at 0 []) queue).1 1)
thread_status_lem_example = thread_status_lem 1 (env_at 0 []) queue waiting queue-IsWell still_there

stats-CountsOf_example :
    (report : Stats) × ((stats (env_at 0 []) queue).0 ≡ ok report)
    × CountsOf (stats (env_at 0 []) queue).1.directives report
stats-CountsOf_example = stats-CountsOf (env_at 0 []) queue queue-IsWell

abbrev counts : Stats
counts = record {
  by_status =
      record { priority = codes "P0"; status = pending; count = 1 }
      ∷ record { priority = codes "P1"; status = done; count = 1 }
      ∷ record { priority = codes "P1"; status = parked; count = 1 }
      ∷ record { priority = codes "P1"; status = pending; count = 1 }
      ∷ record { priority = codes "P2"; status = taken; count = 1 }
      ∷ [];
  consumers = (codes "ann", 1) ∷ [];
}

stats_of_queue : (stats (env_at 0 []) queue).0 ≡ ok counts
unfolding runs
stats_of_queue = refl

named : policy_of (codes "requeue") ≡ ok requeue
unfolding policy_of Text-discrete ℕ_discrete
named = refl

listing-peek_example :
    (items : List Item) × (chosen : Option Peeked) × ((listing false
        (some (codes "default"))
        none
        (env_at 0 [])
        queue).0
      ≡ ok (of_queue items))
    × ((peek (codes "default") (codes "requeue") (env_at 0 []) queue).0 ≡ ok chosen)
    × (of_peek chosen ≡ of_item (first_with requeue items))
listing-peek_example =
    listing-peek (codes "default") (codes "requeue") requeue (env_at 0 []) queue queue-IsWell named
