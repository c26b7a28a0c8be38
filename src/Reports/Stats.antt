-- ===== src/Reports/Stats.antt =====
-- `stats` of core.py: how many directives have each priority and status, and how many each consumer
-- has taken.
use laneq.Common.{
  ℕ, suc, List, [], ◌∷◌, Bool, ◌&&◌, none, some, Result, ok, err, ◌==◌, ltb, if◌then◌else◌, map,
}
use laneq.Text.{Text, codes, text_eq, text_leb}
use laneq.Clock.{Env}
use laneq.Sql.{select}
use laneq.Action.{Action, gets, lift, ◌>>=◌, ◌>>◌}
use laneq.Database.{Status, pending, taken, deferred, done, dropped, parked, status_eq, Directive}
use laneq.Core.Guard.{priority_name}
use laneq.Reports.{refresh, for_each}

-- SELECT key, COUNT(*) … GROUP BY key ORDER BY key: the keys in their order, each with its count.
module _ {K : Type 0} (same before : K → K → Bool) where
  abbrev pub bump : K → List (K × ℕ) → List (K × ℕ)
  bump k [] = (k, 1) ∷ []
  bump k ((j, n) ∷ rest) =
      if same k j
      then (j, suc n) ∷ rest
      else if before k j
      then (k, 1) ∷ (j, n) ∷ rest
      else (j, n) ∷ bump k rest

  abbrev pub tally : List K → List (K × ℕ)
  tally [] = []
  tally (k ∷ ks) = bump k (tally ks)

-- The TEXT of a status.
abbrev pub status_name : Status → Text
status_name pending = codes "pending"
status_name taken = codes "taken"
status_name deferred = codes "deferred"
status_name done = codes "done"
status_name dropped = codes "dropped"
status_name parked = codes "parked"

abbrev pub status_key : Directive → ℕ × Status
status_key r = (r.priority, r.status)

abbrev pub same_key : ℕ × Status → ℕ × Status → Bool
same_key a b = a.0 == b.0 && status_eq a.1 b.1

-- ORDER BY priority, status
abbrev pub key_before : ℕ × Status → ℕ × Status → Bool
key_before a b = if a.0 == b.0 then text_leb (status_name a.1) (status_name b.1) else ltb a.0 b.0

-- COALESCE(taken_by, '-')
abbrev pub consumer_key : Directive → Text
consumer_key r = elim r.taken_by [ none ↦ codes "-" | some consumer ↦ consumer ]

pub record StatusCount : Type 0 where
  pub priority : Text
  pub status : Status
  pub count : ℕ

pub record Stats : Type 0 where
  pub by_status : List StatusCount
  pub consumers : List (Text × ℕ)

unfoldable pub status_count : (ℕ × Status) × ℕ → Result StatusCount
unfolding priority_name
status_count entry = elim (priority_name entry.0.0) [
  | err e ↦ err e
  | ok name ↦ ok (record { priority = name; status = entry.0.1; count = entry.1 })
]

unfoldable pub status_tally : List Directive → List ((ℕ × Status) × ℕ)
unfolding text_leb
status_tally rows = tally same_key key_before (map status_key rows)

unfoldable pub consumer_tally : List Directive → List (Text × ℕ)
unfolding text_leb
consumer_tally rows =
    tally text_eq text_leb (map consumer_key (select (λ r. status_eq r.status taken) rows))

abbrev pub stats_from : Result (List StatusCount) → List (Text × ℕ) → Result Stats
stats_from (err e) consumers = err e
stats_from (ok by_status) consumers = ok (record { by_status = by_status; consumers = consumers })

unfoldable pub count_rows : List Directive → Result Stats
unfolding status_count status_tally consumer_tally
count_rows rows = stats_from (for_each status_count (status_tally rows)) (consumer_tally rows)

unfoldable pub stats : Env → Action Stats
unfolding refresh count_rows
stats env = do refresh env; result ← gets (λ db. count_rows db.directives); lift result
