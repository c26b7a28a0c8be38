-- ===== src/Reports/Refresh.antt =====
-- What the reports do to the database before they read it.
use laneq.Common.{◌≡◌, refl, ok}
use laneq.Clock.{Env}
use laneq.Action.{◌>>=◌}
use laneq.Action.Keeps.{Keeps, keeps_rules}
use laneq.Database.{Db}
use laneq.Leases.{reclaim_expired_leases, reclaim_deferred}
use laneq.Core.Invariant.{
  IsWell, open_connection-IsWell, reclaim_expired_leases-IsWell, reclaim_deferred-IsWell,
}
use laneq.Reports.{refresh}

pub refresh-IsWell : (env : Env) → Keeps IsWell (refresh env)
unfolding refresh
refresh-IsWell env =
    search
      (keeps_rules, open_connection-IsWell, reclaim_expired_leases-IsWell, reclaim_deferred-IsWell)
      depth 20

pub refresh-returns : (env : Env) (db : Db) → (refresh env db).0 ≡ ok tt
unfolding refresh ◌>>=◌ reclaim_expired_leases reclaim_deferred
refresh-returns env db = refl
