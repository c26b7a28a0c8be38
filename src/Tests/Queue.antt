-- ===== src/Tests/Queue.antt =====
-- Runs of core.py's operations, and instances of the theorems about them.
use laneq.Common.{
  ℕ, ◌≡◌, ◌≢◌, ◌↔◌, ◌&&◌, refl, List, [], ◌∷◌, true, false, none, some, ok, err, precondition,
  overflow_error, ◌+◌, ℕ_discrete,
}
use laneq.Text.{Text, codes, Text-discrete, text_leb}
use laneq.Text.Order.{ne_of_text_eq}
use laneq.Clock.{Env, Duration, parse_time, absent, utc_now, end_after, strftime}
use laneq.Sql.{count, update}
use laneq.Sql.Order.{Every}
use laneq.Database.{status_eq, pending, deferred, done, requeue, Directive, Db, find, connect}
use laneq.Action.{◌>>=◌}
use laneq.Leases.{
  reclaim_expired_leases, reclaim_deferred, is_expired, release, promote, is_ready, reap_stale,
}
use laneq.Core.Guard.{policy_of, claim_guard, forced, require_ordinary_directive, unless_none}
use laneq.Core.Claim.{Claimed, take, is_eligible, mark_taken}
use laneq.Core.Settle.{set_status, with_status, reap}
use laneq.Core.Calls.{Call, history, new_db, perform}
use laneq.Core.Invariant.{IsWell}
use laneq.Core.Invariant.Kept.{take-IsWell}
use laneq.Leases.Counts.{reclaim_expired_leases_lem}
use laneq.Leases.Bulk.{reclaim_deferred-eq-update}
use laneq.Core.Exclusion.{take-take_ne, take-settle, take-settle_stale}
use laneq.Core.Sparing.{IsSame}
use laneq.Core.Survival.{IsClaimed, IsOther, history-IsSame}
use laneq.Core.Histories.{history-IsWell, terminal_absorbs}
use laneq.Core.Sweep.{sweep, normal}
use laneq.Core.Ownership.{HoldsClaim, settle_needs_claim, settle_held}
use laneq.Core.Taking.{Takes, take_claims, take_empty_iff}
use laneq.Tests.Samples.{env_at, env_still, midnight, queue, queue-IsWell, held, finished, urgent}

-- Everything that a run of `take` or `set_status` computes with.
runs : Unit {0}
unfolding take set_status ◌>>=◌ reclaim_expired_leases reclaim_deferred connect utc_now end_after
    strftime text_leb require_ordinary_directive unless_none Text-discrete ℕ_discrete
runs = tt

named : policy_of (codes "requeue") ≡ ok requeue
unfolding runs policy_of
named = refl

abbrev claim_2 : Claimed
claim_2 = record {
  id = 2;
  body = codes "fix it";
  consumer = codes "ann";
  lane = codes "default";
  claim_token = codes "a";
  protected = none;
}

-- The directive of priority P0 comes first.
take_urgent :
    (take
      (codes "ann")
      absent
      (codes "default")
      (codes "requeue")
      none
      (env_at 0 (codes "a"))
      queue).0
    ≡ ok (some claim_2)
unfolding runs
take_urgent = refl

abbrev after_take : Db
after_take =
    (take (codes "ann") absent (codes "default") (codes "requeue") none (env_at 0 (codes "a"))
      queue).1

after_take-IsWell : IsWell after_take
after_take-IsWell =
    (take-IsWell (codes "ann") absent (codes "default") (codes "requeue") none
        (env_at 0 (codes "a"))).at
      queue queue-IsWell

abbrev lease_end : Text
lease_end = codes "2026-06-20T00:30:03Z"

half_hour : end_after (env_at 0 (codes "a")) 3 absent ≡ ok lease_end
unfolding runs
half_hour = refl

abbrev claim_1 : Claimed
claim_1 = record {
  id = 1;
  body = codes "ship it";
  consumer = codes "bob";
  lane = codes "default";
  claim_token = codes "b";
  protected = none;
}

-- Calls of other workers: one with a token of its own, and a sweep.
abbrev others : List (Env × Call)
others =
    (env_still 5 [], Call.set_status 2 done (some (codes "z")) false)
    ∷ (env_still 7 [], Call.reap true 0)
    ∷ []

abbrev after_others : Db
after_others = history others after_take

other_token : codes "z" ≢ codes "a"
unfolding Text-discrete ℕ_discrete
other_token = ne_of_text_eq (codes "z") (codes "a") refl

still_runs :
    (text_leb lease_end (strftime (midnight + 5)) ≡ false)
    × (text_leb lease_end (strftime (midnight + 7)) ≡ false)
unfolding runs
still_runs = (refl, refl)

others-IsOther : Every (IsOther (codes "a") lease_end) others
unfolding utc_now
others-IsOther = (
  record {
    no_override = refl;
    other_token = λ e. other_token (cc (e));
    no_reaping = refl;
    earlier = λ j. still_runs.0;
  },
  (
    record {
      no_override = refl;
      other_token = λ e. cc;
      no_reaping = refl;
      earlier = λ j. still_runs.1;
    },
    tt,
  ),
)

-- The next worker gets the other one.
take_second :
    (take
      (codes "bob")
      absent
      (codes "default")
      (codes "requeue")
      none
      (env_at 9 (codes "b"))
      after_others).0
    ≡ ok (some claim_1)
unfolding runs history perform reap
take_second = refl

lease_runs : text_leb lease_end (utc_now (env_at 9 (codes "b")) 1) ≡ false
unfolding runs
lease_runs = refl

take-take_ne_example : ◌≢◌ {A = ℕ} 1 2
take-take_ne_example =
    take-take_ne (codes "ann") (codes "bob") absent absent (codes "default") (codes "default")
      (codes "requeue") (codes "requeue") requeue requeue (env_at 0 (codes "a"))
      (env_at 9 (codes "b")) queue lease_end claim_2 claim_1 others queue-IsWell named named
      half_hour take_urgent others-IsOther take_second lease_runs

clock_up : text_leb (utc_now (env_at 60 []) 0) (utc_now (env_at 60 []) 3) ≡ true
unfolding runs
clock_up = refl

lease_runs_at_settle : text_leb lease_end (utc_now (env_at 60 []) 3) ≡ false
unfolding runs
lease_runs_at_settle = refl

take-settle_example :
    (set_status 2 done (some (codes "a")) false (env_at 60 []) after_others).0 ≡ ok (2, done)
take-settle_example =
    take-settle (codes "ann") absent (codes "default") (env_at 0 (codes "a")) (env_at 60 []) queue
      lease_end claim_2 done others queue-IsWell half_hour (λ e. cc) take_urgent others-IsOther
      clock_up lease_runs_at_settle

-- A reaping by age takes a claim away while its lease runs.
reaped_claim :
    (take
      (codes "bob")
      absent
      (codes "default")
      (codes "requeue")
      (some 0)
      (env_at 9 (codes "b"))
      after_take).0
    ≡ ok (some (record claim_2 { consumer = codes "bob"; claim_token = codes "b" }))
unfolding runs reap_stale parse_time
reaped_claim = refl

-- A lease that would end behind the year 9999.
endless :
    (take
      (codes "ann")
      (Duration.seconds 1000000000000)
      (codes "default")
      (codes "requeue")
      none
      (env_at 0 [])
      queue).0
    ≡ err overflow_error
unfolding runs
endless = refl

take-settle_stale_example :
    (set_status 2 done (some (codes "z")) false (env_at 60 []) after_take).0 ≡ err precondition
take-settle_stale_example =
    take-settle_stale (codes "ann") absent (codes "default") (env_at 0 (codes "a")) (env_at 60 [])
      queue lease_end claim_2 done (codes "z") queue-IsWell half_hour take_urgent other_token
      (λ e. cc)

take_claims_example :
    Takes
      (codes "ann")
      absent
      (codes "default")
      (codes "requeue")
      requeue
      (env_at 0 (codes "a"))
      queue
      queue-IsWell
      named
      claim_2
      after_take
take_claims_example =
    take_claims (codes "ann") absent (codes "default") (codes "requeue") requeue
      (env_at 0 (codes "a")) queue queue-IsWell named take_urgent

take_empty_iff_example :
    ((take (codes "ann") absent (codes "qa") (codes "requeue") none (env_at 0 []) queue).0
      ≡ ok none)
    ↔ (count (is_eligible (codes "qa") requeue) (sweep (env_at 0 []) 1 2 queue).directives ≡ 0)
take_empty_iff_example =
    take_empty_iff (codes "ann") absent (codes "qa") (codes "requeue") requeue (env_at 0 []) queue
      queue-IsWell named

settle_ann : (set_status 3 done (some (codes "t3")) false (env_at 0 []) queue).0 ≡ ok (3, done)
unfolding runs
settle_ann = refl

settle_needs_claim_example :
    (r : Directive) × (find 3 queue.directives ≡ some r)
    × HoldsClaim r (codes "t3") (utc_now (env_at 0 []) 3)
    × (r.recovery_policy ≡ requeue)
    × (find 3 (set_status 3 done (some (codes "t3")) false (env_at 0 []) queue).1.directives
        ≡ some (with_status done (utc_now (env_at 0 []) 2) (normal r)))
settle_needs_claim_example =
    settle_needs_claim 3 done (codes "t3") (env_at 0 []) queue queue-IsWell false settle_ann

held_now : HoldsClaim held (codes "t3") (utc_now (env_at 0 []) 3)
unfolding runs
held_now = record { is_taken = refl; same_token = refl; running = refl }

now_up : text_leb (utc_now (env_at 0 []) 0) (utc_now (env_at 0 []) 3) ≡ true
unfolding runs
now_up = refl

settle_held_example :
    (set_status 3 pending (some (codes "t3")) false (env_at 0 []) queue).0 ≡ ok (3, pending)
settle_held_example =
    settle_held 3 pending (codes "t3") (env_at 0 []) queue queue-IsWell held refl held_now refl
      (λ e. cc) now_up

forced_guard : claim_guard none true ≡ ok forced
unfolding claim_guard
forced_guard = refl

abbrev calls : List (Env × Call)
calls =
    (env_at 0 [], Call.push (codes "one") (codes "P1") none (codes "default") (codes "requeue"))
    ∷ (
      env_at 9 (codes "a"),
      Call.take (codes "ann") absent (codes "default") (codes "requeue") none,
    )
    ∷ (env_at 20 [], Call.set_status 1 done (some (codes "a")) false)
    ∷ []

history-IsWell_example : IsWell (history calls new_db)
history-IsWell_example = history-IsWell calls

abbrev taken_row : Directive
taken_row = mark_taken (strftime (midnight + 4)) (codes "ann") (codes "a") lease_end urgent

taken_found : find 2 after_take.directives ≡ some taken_row
unfolding runs
taken_found = refl

taken_row-IsClaimed : IsClaimed (codes "a") lease_end taken_row
taken_row-IsClaimed = record { is_taken = refl; same_token = refl; ends = refl }

history-IsSame_example :
    (r : Directive) × (find 2 (history others after_take).directives ≡ some r) × IsSame taken_row r
history-IsSame_example =
    history-IsSame others after_take 2 taken_row (codes "a") lease_end after_take-IsWell taken_found
      taken_row-IsClaimed others-IsOther

terminal_absorbs_example :
    (r : Directive) × (find 4 (history calls queue).directives ≡ some r) × (r.status ≡ done)
terminal_absorbs_example =
    terminal_absorbs calls queue 4 finished queue-IsWell (refl, (refl, (refl, tt))) refl refl

reclaim_expired_leases_lem_example : reclaim_expired_leases (env_at 0 []) 0 queue ≡ (
  ok (count (is_expired (utc_now (env_at 0 []) 0)) queue.directives),
  record queue {
    directives = update (is_expired (utc_now (env_at 0 []) 0)) release queue.directives;
  },
)
reclaim_expired_leases_lem_example =
    reclaim_expired_leases_lem (env_at 0 []) 0 1 6 queue queue-IsWell.ascending

reclaim_deferred-eq-update_example : (reclaim_deferred (env_at 0 []) 0 queue).1 ≡ record queue {
  directives =
      update
        (λ r. status_eq r.status deferred && is_ready (utc_now (env_at 0 []) 0) queue.directives r)
        promote
        queue.directives;
}
reclaim_deferred-eq-update_example =
    reclaim_deferred-eq-update (env_at 0 []) 0 1 6 queue queue-IsWell.ascending
